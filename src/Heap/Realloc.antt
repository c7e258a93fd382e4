-- ===== src/Heap/Realloc.antt =====
-- `krealloc` and the merges that it tries.
pub mod Keeps
pub mod Forward
use mathlib.Core.Option
use vardar_os.Prelude.{
  Option, bit_or, if◌then◌else◌, leb, not, some, sub64, u32, ℕ, ◌&&◌, ◌+◌, ◌==◌,
}
use vardar_os.Memory.{Memory, read32, write32}
use vardar_os.Utils.String.{memmove, memset}
use vardar_os.Heap.{
  Heap, footer_from_header, header_from_footer, header_size, is_used_at, kalloc, kfree, merge_block,
  merge_size, next_header, prev_footer, round_even, size_at, split_block, threeway_merge_size,
}

unfoldable pub merge_forward : Heap → Memory → ℕ → ℕ → ℕ → ℕ × Memory
merge_forward h m first second size =
    let second_size = size_at m second in
    let (new_block, m1) = merge_block h m first second in
    split_block h (memset m1 second 0 (second_size + header_size)) new_block size

unfoldable pub merge_backward : Heap → Memory → ℕ → ℕ → ℕ → ℕ × Memory
merge_backward h m first second size =
    let second_size = size_at m second in
    let m1 = memmove m (first + header_size) (second + header_size) second_size in
    let (new_block, m2) = merge_block h m1 first second in
    split_block h (memset m2 second 0 (second_size + header_size)) new_block size

-- `threeway_merge`. Its `memmove` copies from the front block to the middle one.
unfoldable pub threeway_merge : Heap → Memory → ℕ → ℕ → ℕ → ℕ → ℕ × Memory
threeway_merge h m front middle back size =
    let back_footer = footer_from_header m back in
    let middle_size = size_at m middle in
    let m1 = write32 m front (u32 (bit_or (threeway_merge_size m front middle back) 1)) in
    let m2 = write32 m1 back_footer (read32 m1 front) in
    let m3 = memmove m2 middle front middle_size in
    let size_to_zero = sub64 back_footer (front + middle_size) in
    split_block h (memset m3 (front + middle_size) 0 size_to_zero) front size

abbrev body_of : ℕ × Memory → ℕ × Memory
body_of (block, m) = (block + header_size, m)

-- The last resort of `krealloc`: a new block, the contents moved, and the old block freed. The
-- pointer that `kalloc` returned is a body already, and has `HEADER_SIZE` added again.
unfoldable pub move_allocation : ℕ → Heap → Memory → ℕ → ℕ → ℕ → Option (ℕ × Memory)
move_allocation fuel h m allocation block_size size =
    Option.map
      (λ (new_allocation, m1). if new_allocation == 0 then (0, m1) else (
        new_allocation + header_size,
        kfree h (memmove m1 (new_allocation + header_size) (allocation + header_size) block_size)
            allocation,
      ))
      (kalloc fuel h m size)

unfoldable pub krealloc : ℕ → Heap → Memory → ℕ → ℕ → Option (ℕ × Memory)
krealloc fuel h m allocation requested =
    let size = round_even requested in
    let header = sub64 allocation header_size in
    let footer = allocation + size_at m header in
    let next = next_header h m header in
    let prev_tag = prev_footer h m footer in
    let prev = header_from_footer m prev_tag in
    let next_free = not (next == 0) && not (is_used_at m next) in
    let prev_free = not (prev == 0) && not (is_used_at m prev_tag) in
    if next_free && leb size (merge_size m header next)
    then some (body_of (merge_forward h m header next size))
    else if prev_free && leb size (merge_size m prev header)
    then some (body_of (merge_backward h m prev header size))
    else if prev_free && next_free && leb size (threeway_merge_size m prev header next)
    then some (body_of (threeway_merge h m prev header next size))
    else move_allocation fuel h m allocation (size_at m header) size
