-- ===== src/Utils.antt =====
-- src/kernel/utils: the string routines, the bit and number helpers, and the formatted printer.
pub mod String
pub mod Misc
pub mod SpinLock
pub mod Printf
