-- ===== src/Tests.antt =====
-- Concrete runs of the modelled code: the states of the tests, one file for each part.
mod Paging
mod Kheap
mod Text
mod Tables
mod Screens
mod Frames
mod Display
mod Bootup
