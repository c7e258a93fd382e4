-- ===== src/Lib.antt =====
-- Vardar-OS, a kernel for x86-64: a model of its sources under src/kernel and what is proved of it.
--
-- The kernel boots through a boot loader, takes the free page frames into a bitmap, builds page
-- tables in these frames, formats a heap, reads the tables of the firmware to find its interrupt
-- controllers, and then handles interrupts. The parts and their files:
--   Prelude    shared names: Boolean tests, lists by native numbers, integers, machine words of 8 to
--              64 bits with their wrap-around written out, tests for NULL
--   Bits       bitwise operations as arithmetic on powers of two
--   Memory     the memory as a function from addresses to bytes, with words of 2, 4 and 8 bytes
--   Utils      utils/string.c (Utils/String), utils/misc.c (Utils/Misc), utils/printf.c (Utils/Printf,
--              with a reading of format strings in Utils/Printf/Format), and utils/spin_lock.c
--              (Utils/SpinLock) as steps of several cores
--   Pmm        memory_management/physical_memory_manager.c: the bitmap lies in the memory that it
--              manages, so that the invariant (Pmm/Valid) keeps its own frames marked as used; Pmm/Ready
--              and Pmm/Usable start from `InitPmm`, Pmm/History treats sequences of calls
--   Vmm        memory_management/virtual_memory_manager.c: page tables in frames taken from Pmm; the
--              invariant Vmm/Tables gives each table its level, and Vmm/Grow, Vmm/Store and Vmm/Create
--              keep it; Vmm/Pages tells pages from each other by their entries, and Vmm/Range and
--              Vmm/Multiple treat ranges of pages; Vmm/Kernel has the mappings of the kernel, and
--              Vmm/Boot goes through the calls of `InitPageTable` one after the other, with
--              `InitPmm` before them in Boot/Memory
--   Heap       memory_management/kheap.c: Heap/Blocks reads the boundary tags as a list of blocks,
--              Heap/Split and Heap/Place treat one block, Heap/Alloc `kalloc` on the whole heap; for
--              `kfree`, Heap/Zipper sees the list from one block, Heap/Merge and Heap/Free join it
--              with the block behind, and Heap/Kfree with the block before; Heap/Merged is the
--              invariant of the list, and Heap/History runs sequences of calls; Heap/Realloc has
--              `krealloc`, and Realloc/Forward its case of a free block behind
--   Acpi       acpi/acpi.c, and acpi/madt.c in Acpi/Smp (records, lookups) and Acpi/Madt (parsing)
--   IoApic     hal/io_apic.c: IoApic/Routes changes entries, IoApic/Register makes the first ones;
--              IoApic/Entry states what a device does that keeps the writable bits of its registers
--   Lapic      hal/lapic.c, and with the interval timer (Pit, hal/pit.c) in Lapic/Timer
--   Gdt        gdt/gdt.c
--   Interrupts interrupts/idt.c and syscall.c, and with keycodes.c in Interrupts/Keyboard
--   Ustar, Vfs vfs/ustar.c and vfs/vfs.c
--   Graphics   graphics/graphics_types.c and graphics_ctx.c: the back buffer lies in the byte memory;
--              Graphics/Shown says which rows the frame buffer shows, Graphics/Flush treats
--              `WriteBack`, and Graphics/Rect, Glyph and Scroll the pixels that a call changes;
--              Graphics/Terminal is terminal.c, which returns its calls of graphics_ctx.c as a list,
--              Terminal/Canvas their meaning on an image, and Terminal/Present joins the two
--   Elf        proc/elf.c over Pmm, Vmm and Heap
--   Boot       the search for tags in kernel.c, and hal/cpu_init.c
--   Tests      concrete states, at which the theorems are applied
-- A static of the source is a field of its part's state, and a function of the source that changes
-- state takes the state and returns the new one beside its result. A definition has the name of the
-- function it translates, in lower case; a loop is a definition beside it.
--
-- Fuel: a loop without a bound in the source runs on fuel, and `none` is the end of the fuel. The
-- search for a frame ends within `num_entries` rounds, the walk over the heap within one round more
-- than there are blocks, a loop over a string within its length and one, and the digits of a number
-- within 64 rounds, and `MapMultiple` within one round more than there are pages. The search for a run
-- of frames may run for ever.
--
-- Hardware registers are a parameter (`Mmio` of IoApic), and so are the stray contents of variables
-- that the source leaves uninitialised, the bitmaps of the font, and what a wait for interrupts makes
-- of a device. What C leaves undefined is `none` where the model says so: the shifts of PackRgb and
-- SetNthBit, an overflow of the int in oct2bin, and ClearScreen past the end of BACK_BUFFER.
--
-- Not modelled: instructions (loads of descriptor tables, CR3, ports but for the commands to the PICs
-- and to the interval timer), page faults, the calls of PrintK within other functions, `run_proc`,
-- which is assembly, the order of the calls in `_start` but for `InitPmm` and `InitPageTable`, the steps
-- of several cores outside the spin lock, hal/apic.h, which nothing includes, and the boot loader.
pub mod Prelude
pub mod Bits
pub mod Memory
pub mod Utils
pub mod Pmm
pub mod Vmm
pub mod Heap
pub mod Acpi
pub mod IoApic
pub mod Gdt
pub mod Interrupts
pub mod Ustar
pub mod Lapic
pub mod Vfs
pub mod Graphics
pub mod Pit
pub mod Boot
pub mod Elf
pub mod Tests
