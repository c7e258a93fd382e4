-- ===== src/Vmm.antt =====
-- src/kernel/memory_management/virtual_memory_manager.c: the four-level page tables. Tables lie in
-- the memory that the physical memory manager hands out and are reached by their physical address;
-- 0 is `NULL`. `fuel` is passed on to `AllocFirstFrame`, and `none` means that a loop ran out.
-- The writes to `cr3`, `invlpg` and the messages are left out.
pub mod Entry
pub mod Tables
pub mod Store
pub mod Grow
pub mod Growth
pub mod Create
pub mod Map
pub mod Unmap
pub mod Pages
pub mod Present
pub mod Range
pub mod Multiple
pub mod Kernel
pub mod Boot
use mathlib.Core.Option
use vardar_os.Prelude.{
  Bool, Option, add64, bit_and, bit_or, complement64, false, if◌then◌else◌, ltb, map, none, not,
  some, suc, true, zero, ℕ, ◌&&◌, ◌*◌, ◌+◌, ◌-◌, ◌==◌, ◌>>>◌,
}
use vardar_os.Memory.{Memory, read64, write64}
use vardar_os.Pmm.{Pmm, alloc_first_frame, frame_size}

abbrev pub kernel_data : ℕ
kernel_data = 0xffff800000000000

abbrev pub present : ℕ
present = 1

-- `PRESENT | READ_WRITABLE`.
abbrev pub kernel_page : ℕ
kernel_page = 3

abbrev pub max_page_ind : ℕ
max_page_ind = 0x1ff

-- `V_ADDR_INDEX`.
unfoldable pub v_addr_index : ℕ → ℕ → ℕ
v_addr_index vaddr level = bit_and (vaddr >>> (12 + 9 * (level - 1))) max_page_ind

unfoldable pub get_page_flag : ℕ → ℕ → Bool
get_page_flag page flag = not (bit_and page flag == 0)

-- The address of entry `index` of the table at `table`.
abbrev pub entry_at : ℕ → ℕ → ℕ
entry_at table index = table + 8 * index

unfoldable pub get_page_table : Memory → ℕ → ℕ → ℕ
get_page_table m parent index =
    let entry = read64 m (entry_at parent index) in
    if get_page_flag entry present then bit_and entry (complement64 511) else 0

-- The loop of `GetPage` and `VAddrToPAddr` with `i - 1` levels left to go down: the last table.
unfoldable pub walk : Memory → ℕ → ℕ → ℕ → Option ℕ
walk m vaddr table zero = some table
walk m vaddr table (suc k) =
    let child = get_page_table m table (v_addr_index vaddr (k + 2)) in
    if child == 0 then none else walk m vaddr child k

-- `GetPage`: the address of the entry of `vaddr` in the lowest table.
unfoldable pub get_page : Memory → ℕ → ℕ → ℕ
get_page m root vaddr = elim (walk m vaddr root 3) [
  | none ↦ 0
  | some table ↦ entry_at table (v_addr_index vaddr 1)
]

unfoldable pub vaddr_to_paddr : Memory → ℕ → ℕ → ℕ
vaddr_to_paddr m root vaddr = elim (walk m vaddr root 3) [
  | none ↦ 0
  | some table ↦ bit_and (read64 m (entry_at table (v_addr_index vaddr 1))) (complement64 0x1ff)
]

-- A store of 64 bits in the memory of the state.
abbrev pub store64 : Pmm → ℕ → ℕ → Pmm
store64 s a v = record s { memory = write64 s.memory a v }

-- `GetOrCreatePageTable` after its call of `AllocFirstFrame`.
unfoldable pub link_table : ℕ → ℕ → ℕ → ℕ × Pmm → ℕ × Pmm
link_table parent index flags (frame, s) =
    if frame == 0 then (0, s) else (frame, store64 s (entry_at parent index) (bit_or frame flags))

unfoldable pub get_or_create_page_table : ℕ → Pmm → ℕ → ℕ → ℕ → Option (ℕ × Pmm)
get_or_create_page_table fuel s parent index flags =
    let entry = read64 s.memory (entry_at parent index) in
    if get_page_flag entry present
    then some (bit_and entry (complement64 511), s)
    else Option.map (link_table parent index flags) (alloc_first_frame fuel s)

-- The loop of `CreatePage` with `i - 1` levels left: the last table, or 0 when a table could not be
-- made.
unfoldable pub create_tables : ℕ → Pmm → ℕ → ℕ → ℕ → ℕ → Option (ℕ × Pmm)
create_tables fuel s vaddr flags table zero = some (table, s)
create_tables fuel s vaddr flags table (suc k) =
    elim (get_or_create_page_table fuel s table (v_addr_index vaddr (k + 2)) flags) [
      | none ↦ none
      | some (child, s') ↦
          if child == 0 then some (0, s') else create_tables fuel s' vaddr flags child k
    ]

-- `CreatePage`, and the store of `MapPage` through the pointer that it returns.
unfoldable pub create_page : ℕ → Pmm → ℕ → ℕ → ℕ → Option (ℕ × Pmm)
create_page fuel s root vaddr flags =
    Option.map
      (λ (table, s'). (if table == 0 then 0 else entry_at table (v_addr_index vaddr 1), s'))
      (create_tables fuel s vaddr flags root 3)

unfoldable pub store_entry : ℕ → ℕ → ℕ × Pmm → Bool × Pmm
store_entry paddr flags (entry, s) =
    if entry == 0 then (false, s) else (true, store64 s entry (bit_or paddr flags))

unfoldable pub map_page : ℕ → Pmm → ℕ → ℕ → ℕ → ℕ → Option (Bool × Pmm)
map_page fuel s root vaddr paddr flags =
    Option.map (store_entry paddr flags) (create_page fuel s root vaddr flags)

-- `MapMultiple` at `addr`; each round maps one page of 4096 bytes.
unfoldable pub map_multiple : ℕ → ℕ → Pmm → ℕ → ℕ → ℕ → ℕ → ℕ → Option (Bool × Pmm)
map_multiple zero fuel s root addr bound offset flags = none
map_multiple (suc rounds) fuel s root addr bound offset flags =
    if not (ltb addr bound)
    then some (true, s)
    else elim (map_page fuel s root (add64 addr offset) addr flags) [
      | none ↦ none
      | some (success, s') ↦ elim success [
        | false ↦ some (false, s')
        | true ↦ map_multiple rounds fuel s' root (add64 addr frame_size) bound offset flags
      ]
    ]

unfoldable pub unmap_page : Pmm → ℕ → ℕ → Bool × Pmm
unmap_page s root vaddr =
    let entry = get_page s.memory root vaddr in
    if entry == 0 then (false, s) else (true, store64 s entry 0)

-- `RemapPage`. The page is mapped again at `former_vaddr`; `new_vaddr` is not used.
unfoldable pub remap_page : ℕ → Pmm → ℕ → ℕ → ℕ → ℕ → Option (Bool × Pmm)
remap_page fuel s root former_vaddr new_vaddr flags =
    let paddr = vaddr_to_paddr s.memory root former_vaddr in
    let (unmapped, s') = unmap_page s root former_vaddr in
    Option.map (λ (mapped, s''). (unmapped && mapped, s''))
      (map_page fuel s' root former_vaddr paddr flags)
