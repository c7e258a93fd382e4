-- ===== src/Heap.antt =====
-- src/kernel/memory_management/kheap.c: a heap of blocks between boundary tags. A block is a header
-- of 4 bytes, a body and a footer of 4 bytes; both tags hold the size of the body with the used
-- bit in bit 0. `Memory` is the memory as the kernel's own mapping shows it; 0 is `NULL`.
pub mod Setup
pub mod Realloc
pub mod Blocks
pub mod Split
pub mod Place
pub mod Alloc
pub mod Merge
pub mod Zipper
pub mod Free
pub mod Kfree
pub mod Merged
pub mod RoundTrip
pub mod Unique
pub mod History
pub mod Boot
use mathlib.Core.Option
use vardar_os.Prelude.{
  Bool, Option, add64, bit_and, bit_or, if◌then◌else◌, leb, ltb, none, not, some, sub64, suc, u32,
  u64, zero, ℕ, ◌&&◌, ◌*◌, ◌+◌, ◌-◌, ◌<<<◌, ◌==◌, ◌>>>◌, ◌||◌,
}
use vardar_os.Memory.{Memory, read32, write32}
use vardar_os.Utils.String.{memset}

-- The mask keeps 16 bits: a size of 2 ^ 16 or more loses its upper bits.
abbrev pub size_mask : ℕ
size_mask = 0xfffe

abbrev pub header_size : ℕ
header_size = 4

abbrev pub footer_size : ℕ
footer_size = 4

abbrev pub mdata_size : ℕ
mdata_size = 8

-- The statics `HEAP_START` and `HEAP_SIZE`.
pub record Heap : Type 0 where
  pub start : ℕ
  pub size : ℕ

-- `*tag & SIZE_MASK`.
unfoldable pub size_at : Memory → ℕ → ℕ
size_at m tag = bit_and (read32 m tag) size_mask

-- `*tag & 1`, as a test.
unfoldable pub is_used_at : Memory → ℕ → Bool
is_used_at m tag = bit_and (read32 m tag) 1 == 1

unfoldable pub footer_from_header : Memory → ℕ → ℕ
footer_from_header m header =
    if header == 0 then 0 else add64 (header + header_size) (size_at m header)

unfoldable pub header_from_footer : Memory → ℕ → ℕ
header_from_footer m footer =
    if footer == 0 then 0 else sub64 (sub64 footer (size_at m footer)) header_size

unfoldable pub next_header : Heap → Memory → ℕ → ℕ
next_header h m header =
    let next = add64 (add64 (header + header_size) (size_at m header)) footer_size in
    if next == add64 h.start h.size then 0 else next

unfoldable pub prev_footer : Heap → Memory → ℕ → ℕ
prev_footer h m footer =
    let header = sub64 (sub64 footer (size_at m footer)) header_size in
    if header == h.start then 0 else sub64 header footer_size

unfoldable pub merge_size : Memory → ℕ → ℕ → ℕ
merge_size m block1 block2 = size_at m block1 + size_at m block2 + mdata_size

unfoldable pub threeway_merge_size : Memory → ℕ → ℕ → ℕ → ℕ
threeway_merge_size m front middle back =
    size_at m front + size_at m middle + size_at m back + mdata_size * 2

-- `split_block`: the block, or 0, and the memory. When the block is larger than the allocation by
-- less than the tags of a second block, the header gets the whole size, and the same value is
-- stored at the inner footer, not at the outer one.
unfoldable pub split_block : Heap → Memory → ℕ → ℕ → ℕ × Memory
split_block h m block alloc_size =
    let block_size = size_at m block in
    let outer_footer = footer_from_header m block in
    let m1 = write32 m block (u32 (bit_or alloc_size 1)) in
    let inner_header = next_header h m1 block in
    let inner_footer = footer_from_header m1 block in
    let m2 = write32 m1 inner_footer (read32 m1 block) in
    let m3 = write32 m2 block (u32 (bit_or block_size 1)) in
    let m4 = write32 m2 inner_header (u32 (block_size - alloc_size - mdata_size)) in
    if ltb block_size alloc_size
    then (0, m)
    else if alloc_size == block_size
    then (block, m2)
    else if ltb block_size (alloc_size + mdata_size)
    then (block, write32 m3 inner_footer (read32 m3 block))
    else (block, write32 m4 outer_footer (read32 m4 inner_header))

-- The loop of `kalloc`: the address at which it stops.
unfoldable pub kalloc_scan : ℕ → Heap → Memory → ℕ → ℕ → Option ℕ
kalloc_scan zero h m size heap_ptr = none
kalloc_scan (suc fuel) h m size heap_ptr =
    let rest = kalloc_scan fuel h m size (heap_ptr + size_at m heap_ptr + mdata_size) in
    if ltb heap_ptr (h.start + h.size) && (is_used_at m heap_ptr || leb (read32 m heap_ptr) size)
    then rest
    else some heap_ptr

abbrev pub round_even : ℕ → ℕ
round_even size = (u64 (size + 1) >>> 1) <<< 1

-- What `kalloc` does at the block that the loop stopped at.
unfoldable pub kalloc_at : Heap → Memory → ℕ → ℕ → ℕ × Memory
kalloc_at h m size heap_ptr =
    if ltb heap_ptr (h.start + h.size)
    then (
      heap_ptr + header_size,
      memset (split_block h m heap_ptr (round_even size)).1 (heap_ptr + header_size) 0
          (round_even size),
    )
    else (0, m)

unfoldable pub kalloc : ℕ → Heap → Memory → ℕ → Option (ℕ × Memory)
kalloc fuel h m size = Option.map (kalloc_at h m size) (kalloc_scan fuel h m size h.start)

-- `merge_block`: the block, or 0 if the second does not follow the first, and the memory.
unfoldable pub merge_block : Heap → Memory → ℕ → ℕ → ℕ × Memory
merge_block h m first second =
    let second_footer = footer_from_header m second in
    let tag = bit_or (u32 (merge_size m first second)) (bit_and (read32 m first) 1) in
    let m1 = write32 m first tag in
    if next_header h m first == second
    then (first, write32 m1 second_footer (read32 m1 first))
    else (0, m)

-- The two conditional merges of `kfree`, in its order.
unfoldable pub merge_next : Heap → Memory → ℕ → ℕ → Memory
merge_next h m header next_block_header =
    if not (next_block_header == 0) && not (is_used_at m next_block_header)
    then (merge_block h m header next_block_header).1
    else m

unfoldable pub merge_prev : Heap → Memory → ℕ → ℕ → Memory
merge_prev h m header prev_block_footer =
    if not (prev_block_footer == 0) && not (is_used_at m prev_block_footer)
    then (merge_block h m (header_from_footer m prev_block_footer) header).1
    else m

unfoldable pub kfree : Heap → Memory → ℕ → Memory
kfree h m allocation =
    let header = sub64 allocation header_size in
    let m1 = write32 m header (size_at m header) in
    let footer = allocation + read32 m1 header in
    let m2 = write32 m1 footer (size_at m1 footer) in
    let next_block_header = next_header h m2 header in
    let prev_block_footer = prev_footer h m2 footer in
    merge_prev h (merge_next h m2 header next_block_header) header prev_block_footer
