-- ===== src/Heap/Boot.antt =====
-- The heap that `init_heap` formats, and the calls after it.
use vardar_os.Prelude.{
  Bool-cases, [], ap, arith, bit_and, false, inl, inr, ltb, refl, sub64, sym, u32, ℕ, ◌%◌, ◌+◌, ◌-◌,
  ◌<◌, ◌^◌, ◌∙◌, ◌∷◌, ◌≡◌, ◌≤◌, ◌⊎◌,
}
use vardar_os.Bits.{bit_and_field}
use vardar_os.Memory.{Memory, read32, write32}
use vardar_os.Memory.Laws.{read32-write32, read32-write32-Apart}
use vardar_os.Heap.{Heap, size_at, size_mask}
use vardar_os.Heap.Setup.{format_heap}
use vardar_os.Heap.Blocks.{Blocks}
use vardar_os.Heap.Merge.{tags, tags-IsFree}
use vardar_os.Heap.Merged.{Border, IsMerged}
use vardar_os.Heap.History.{HeapRun, HeapRun-IsTidy, IsTidy}
use mathlib.Core.Path.{subst}

format_heap_lem :
    (m : Memory) (start n : ℕ)
    → 8 ≤ n
    → n < 2 ^ 32
    → format_heap m start n ≡ tags m start (n - 8) (n - 8)
unfolding format_heap tags
format_heap_lem m start n big lt =
    let value : u32 (sub64 n 8) ≡ n - 8 = omega (arith, big, lt) in
    let read = read32-write32 m start (n - 8) (omega (arith, lt)) in rw (value, read) refl

-- The size that is read back from the header of a new heap of an even number of bytes, from 8 on, is
-- that of its body modulo 2 ^ 16: the size of the body on a heap of fewer than 2 ^ 16 + 8 bytes, and
-- less than that on a larger one.
pub format_heap-size :
    (m : Memory) (start n : ℕ)
    → n % 2 ≡ 0
    → 8 ≤ n
    → n < 2 ^ 32
    → (size_at (format_heap m start n) start ≡ (n - 8) % 2 ^ 16)
      × (((n < 2 ^ 16 + 8) × (size_at (format_heap m start n) start ≡ n - 8))
          ⊎ ((2 ^ 16 + 8 ≤ n) × (size_at (format_heap m start n) start < n - 8)))
unfolding size_at tags
format_heap-size m start n even big lt =
    let head : read32 (format_heap m start n) start ≡ n - 8 =
      ap (λ k. read32 k start) (format_heap_lem m start n big lt)
      ∙ read32-write32-Apart (write32 m start (n - 8)) (start + 4 + (n - 8)) start (n - 8)
          (inr (omega arith))
      ∙ read32-write32 m start (n - 8) (omega arith) in
    let size : size_at (format_heap m start n) start ≡ (n - 8) % 2 ^ 16 =
      ap (λ t. bit_and t size_mask) head ∙ omega (arith, bit_and_field 1 15 (n - 8), even) in
    (
      size,
      elim (Bool-cases (ltb n (2 ^ 16 + 8))) [
        | inl below ↦ inl (ground (arith, below), ground (arith, size, below, big))
        | inr above ↦ inr (ground (arith, above), ground (arith, size, above, lt))
      ],
    )

-- On a heap of an even number of bytes, from 8 to 2 ^ 16, at addresses above 0 and below 2 ^ 64, that
-- `init_heap` has formatted, and after any sequence of calls of `kalloc`, where the block that it takes
-- has the requested size, rounded up to an even number, or at least 8 bytes more, and of `kfree` on the
-- pointers of blocks, the tags in memory are those of blocks that fill the heap, and no two free ones
-- stand side by side.
pub format_heap-HeapRun :
    (h : Heap) (m k : Memory)
    → h.size % 2 ≡ 0
    → 8 ≤ h.size
    → h.size ≤ 2 ^ 16
    → 0 < h.start
    → h.start + h.size < 2 ^ 64
    → HeapRun h (format_heap m h.start h.size) k
    → IsTidy h k
unfolding IsTidy IsMerged Border
format_heap-HeapRun h m k even big small pos lt run =
    let n = h.size - 8 in
    let (free, same) = tags-IsFree m h.start n (omega (arith, even), omega arith) in
    let end : h.start + n + 8 ≡ h.start + h.size = omega arith in
    HeapRun-IsTidy h pos lt small run (
      subst (IsTidy h) (sym (format_heap_lem m h.start h.size big (omega arith))) (
        record { size = n; used = false } ∷ [],
        subst (Blocks (tags m h.start n n) h.start (record { size = n; used = false } ∷ [])) end
            free,
        (tt, tt),
      ))
