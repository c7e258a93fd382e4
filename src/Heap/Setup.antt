-- ===== src/Heap/Setup.antt =====
-- The heap at boot: `init_heap` takes its pages from the physical memory manager and formats them
-- as one free block; `map_heap` maps them in another page table.
use mathlib.Core.Option
use vardar_os.Prelude.{Bool, Option, add64, sub64, u32, ℕ, ◌+◌, ◌-◌, ◌<<<◌, ◌>>>◌, ◌^◌}
use vardar_os.Memory.{Memory, read32, write32}
use vardar_os.Pmm.{Pmm, alloc_contiguous}
use vardar_os.Vmm.{kernel_data, kernel_page, map_multiple}
use vardar_os.Vmm.Kernel.{Vmm, kernel_vaddr_to_paddr}
use vardar_os.Heap.{Heap, header_size, mdata_size}

-- The header and the footer of the one block.
unfoldable pub format_heap : Memory → ℕ → ℕ → Memory
format_heap m start heap_size =
    let m1 = write32 m start (u32 (sub64 heap_size mdata_size)) in
    write32 m1 (start + header_size + read32 m1 start) (read32 m1 start)

-- `m` is the memory through the kernel's mapping at `KERNEL_DATA`. The frames that the manager
-- hands out are the same memory at other addresses, which the model keeps apart.
unfoldable pub init_heap : ℕ → Pmm → Memory → ℕ → Option (Heap × Memory × Pmm)
init_heap fuel s m heap_size =
    Option.map
      (λ (frame, s').
        let start = add64 frame kernel_data in
        (record { start = start; size = heap_size }, format_heap m start heap_size, s'))
      (alloc_contiguous fuel s heap_size)

unfoldable pub map_heap : ℕ → ℕ → Vmm → Heap → ℕ → Option (Bool × Pmm)
map_heap rounds fuel k h root =
    let heap_paddr = kernel_vaddr_to_paddr k h.start in
    let num_heap_pages = ((h.size + 2 ^ 12 - 1) >>> 12) <<< 12 in
    map_multiple rounds fuel k.pmm root heap_paddr (add64 heap_paddr num_heap_pages) kernel_data
      kernel_page
