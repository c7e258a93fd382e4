-- ===== src/Pmm.antt =====
-- src/kernel/memory_management/physical_memory_manager.c: the bitmap of page frames, which lies
-- in the memory that it manages. A page index is the 64-bit pattern of the C variable; the code
-- converts it through `int`. Loops take fuel, and `none` means that it ran out.
pub mod Bitmap
pub mod Valid
pub mod Search
pub mod Frame
pub mod Stuck
pub mod Init
pub mod Ready
pub mod History
pub mod Usable
pub mod Ahead
pub mod Count
pub mod Contiguous
use mathlib.Core.List.{reverse}
use vardar_os.Prelude.{
  Bool, List, Option, [], add64, bit_and, bit_or, complement8, false, if◌then◌else◌, int_pattern,
  leb, ltb, map, none, not, some, sub64, suc, true, u32, u64, zero, ℕ, ◌%◌, ◌&&◌, ◌*◌, ◌+◌, ◌-◌,
  ◌/◌, ◌==◌, ◌>>>◌, ◌^◌, ◌∷◌,
}
use vardar_os.Memory.{Memory, write8}
use vardar_os.Utils.String.{memset}
use vardar_os.Utils.Misc.{round_to_nearest_multiple}

abbrev pub frame_size : ℕ
frame_size = 4096

abbrev pub usable_page : ℕ
usable_page = 1

-- `MemMap`. The code never writes `mem_size`, `max_blocks` and `used_blocks`.
pub record MemMap : Type 0 where
  pub num_entries : ℕ
  pub last_used : ℕ
  pub bitmap_size : ℕ
  pub bitmap : ℕ
  pub mem_size : ℕ
  pub max_blocks : ℕ
  pub uppermost_addr : ℕ
  pub used_blocks : ℕ

-- The static `PHYS_MEMORY_MAP` and the memory.
pub record Pmm : Type 0 where
  pub mem_map : MemMap
  pub memory : Memory

-- `struct stivale2_mmap_entry`.
pub record MmapEntry : Type 0 where
  pub base : ℕ
  pub length : ℕ
  pub kind : ℕ

unfoldable pub page_is_used : Pmm → ℕ → Bool
page_is_used s index =
    let byte = s.memory (s.mem_map.bitmap + index / 8) in bit_and (byte >>> (index % 8)) 1 == 1

unfoldable pub set_page_used : Pmm → ℕ → Pmm
unfolding write8
set_page_used s index =
    let at = s.mem_map.bitmap + index / 8 in
    record s { memory = write8 s.memory at (bit_or (s.memory at) (2 ^ (index % 8))) }

unfoldable pub set_page_free : Pmm → ℕ → Pmm
unfolding write8
set_page_free s index =
    let at = s.mem_map.bitmap + index / 8 in
    record s { memory = write8 s.memory at (bit_and (s.memory at) (complement8 (2 ^ (index % 8)))) }

-- `memset` on the memory of the state.
unfoldable pub clear : Pmm → ℕ → ℕ → Pmm
clear s at len = record s { memory = memset s.memory at 0 len }

-- The loop of `AllocFirstFrame` at index `i`: the free page that it stops at, if there is one.
unfoldable pub find_free : ℕ → Pmm → ℕ → Option (Option ℕ)
find_free zero s i = none
find_free (suc fuel) s i =
    let rest = find_free fuel s (int_pattern ((i + 1) % s.mem_map.num_entries)) in
    if i == s.mem_map.last_used then some none else if page_is_used s i then rest else some (some i)

-- The body of the loop at the free page `i`.
unfoldable pub take_frame : Pmm → ℕ → ℕ × Pmm
take_frame s i =
    let s' = set_page_used s i in
    let frame = u64 (i * frame_size) in
    let s'' = record s' { mem_map = record (s'.mem_map) { last_used = i } } in
    (frame, clear s'' frame frame_size)

-- What `AllocFirstFrame` does with the outcome of its search; 0 is `NULL`.
unfoldable pub hand_out : Pmm → Option ℕ → ℕ × Pmm
hand_out s none = (0, s)
hand_out s (some i) = take_frame s i

unfoldable pub alloc_first_frame : ℕ → Pmm → Option (ℕ × Pmm)
alloc_first_frame fuel s = elim (find_free fuel s (int_pattern (s.mem_map.last_used + 1))) [
  | none ↦ none
  | some r ↦ some (hand_out s r)
]

-- The inner loop of `AllocContiguous`, with `left` pages to look at: the first used one.
unfoldable pub first_used : Pmm → ℕ → ℕ → Option ℕ
first_used s tail zero = none
first_used s tail (suc left) =
    if page_is_used s tail then some tail else first_used s (tail + 1) left

-- `SetPageUsed` for `left` pages from `i`.
unfoldable pub set_used_from : Pmm → ℕ → ℕ → Pmm
set_used_from s i zero = s
set_used_from s i (suc left) = set_used_from (set_page_used s i) (i + 1) left

-- The loop tests `(tail - head) <= num_pages`, so it looks at `num_pages + 1` pages and leaves
-- `tail` at `head + num_pages + 1`; `i <= tail` then marks `num_pages + 2` pages.
unfoldable pub take_chunk : Pmm → ℕ → ℕ → ℕ × Pmm
take_chunk s head num_pages =
    let s' =
      clear (set_used_from s head (num_pages + 2)) (u64 (head * frame_size))
        (u64 (frame_size * num_pages)) in
    (
      u64 (head * frame_size),
      record s' { mem_map = record (s'.mem_map) { last_used = u64 (head + num_pages) } },
    )

unfoldable pub contiguous_loop : ℕ → Pmm → ℕ → ℕ → Option (ℕ × Pmm)
contiguous_loop zero s num_pages head = none
contiguous_loop (suc fuel) s num_pages head =
    if head == s.mem_map.last_used then some (0, s) else elim (first_used s head (num_pages + 1)) [
      | none ↦ some (take_chunk s head num_pages)
      | some tail ↦ contiguous_loop fuel s num_pages (u64 (tail + 1) % s.mem_map.num_entries)
    ]

abbrev pub pages_of : ℕ → ℕ
pages_of size = size / frame_size + (if ltb 0 (size % frame_size) then 1 else 0)

unfoldable pub alloc_contiguous : ℕ → Pmm → ℕ → Option (ℕ × Pmm)
alloc_contiguous fuel s size =
    contiguous_loop fuel s (pages_of size) (u64 (s.mem_map.last_used + 1))

unfoldable pub free_frame : Pmm → ℕ → Pmm
free_frame s frame = set_page_free (clear s frame frame_size) (frame / frame_size)

-- The loop of `NumFreeFrames`, with `left` pages to count from `i`.
unfoldable pub count_free : Pmm → ℕ → ℕ → ℕ
count_free s i zero = 0
count_free s i (suc left) = (if page_is_used s i then 0 else 1) + count_free s (i + 1) left

unfoldable pub num_free_frames : Pmm → ℕ
num_free_frames s = count_free s 0 s.mem_map.num_entries

-- The loop of `UppermostUsableAddr` runs from the last entry down.
unfoldable pub uppermost_loop : List MmapEntry → ℕ
uppermost_loop [] = 0
uppermost_loop (e ∷ entries) =
    if e.kind == usable_page then sub64 (add64 e.base e.length) 1 else uppermost_loop entries

unfoldable pub uppermost_usable_addr : List MmapEntry → ℕ
uppermost_usable_addr entries = uppermost_loop (reverse entries)

-- `FindMemEntryBySize` from index `i`; `none` is -1.
unfoldable pub find_mem_entry_by_size : List MmapEntry → ℕ → ℕ → Option (ℕ × MmapEntry)
find_mem_entry_by_size [] i minimum_num_bytes = none
find_mem_entry_by_size (e ∷ entries) i minimum_num_bytes =
    if leb minimum_num_bytes e.length && e.kind == usable_page
    then some (i, e)
    else find_mem_entry_by_size entries (i + 1) minimum_num_bytes

-- `SetPageFree` for `left` pages from `i`.
unfoldable pub set_free_from : Pmm → ℕ → ℕ → Pmm
set_free_from s i zero = s
set_free_from s i (suc left) = set_free_from (set_page_free s i) (i + 1) left

-- The body of the loop of `InitPmm` for the usable entry `e`. The inner loop counts in an `int` up to
-- an unsigned bound.
unfoldable pub release_entry : Pmm → MmapEntry → Pmm
release_entry s e =
    let starting_page = e.base / frame_size in
    let ending_page = starting_page + e.length / frame_size in
    let i = int_pattern starting_page in
    let s' = set_free_from s i (ending_page - i) in
    if s'.mem_map.last_used == 0
    then record s' { mem_map = record (s'.mem_map) { last_used = sub64 starting_page 1 } }
    else s'

-- The loop of `InitPmm` at the entry of index `i`.
unfoldable pub release_entries : Pmm → ℕ → ℕ → List MmapEntry → Pmm
release_entries s bmp_ind i [] = s
release_entries s bmp_ind i (e ∷ entries) =
    release_entries (if e.kind == usable_page && not (i == bmp_ind) then release_entry s e else s)
      bmp_ind (i + 1) entries

-- `InitPmm`: whether it succeeded, and the state.
unfoldable pub init_pmm : Pmm → List MmapEntry → Bool × Pmm
init_pmm s entries =
    let addr = uppermost_usable_addr entries in
    let size = u32 (round_to_nearest_multiple (u32 (addr / frame_size / 8)) frame_size) in
    let map = record (s.mem_map) {
      num_entries = addr / frame_size;
      bitmap_size = size;
      uppermost_addr = addr;
    } in
    elim (find_mem_entry_by_size entries 0 size) [
      | none ↦ (false, record s { mem_map = map })
      | some (bmp_ind, e) ↦
          let s' : Pmm = record {
            mem_map = record map { bitmap = e.base };
            memory = memset s.memory e.base (2 ^ 32 - 1) size;
          } in
          (true, release_entries s' bmp_ind 0 entries)
    ]
