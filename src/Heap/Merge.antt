-- ===== src/Heap/Merge.antt =====
-- Freeing one block and merging two: the tags that `kfree` writes.
use mathlib.Core.Path.{subst, ap₂}
use vardar_os.Prelude.{
  [], ap, arith, bit_and, bit_or, false, inr, refl, sym, u32, ℕ, ◌+◌, ◌<◌, ◌^◌, ◌∙◌, ◌∷◌, ◌≡◌, ◌≤◌,
  ◌⊎◌,
}
use vardar_os.Bits.{bit_and_low, bit_or-zero}
use vardar_os.Memory.{Memory, read32, write32}
use vardar_os.Memory.Laws.{read32-write32, read32-write32-Apart, write32_outside}
use vardar_os.Heap.{Heap, mdata_size, merge_block, merge_size, size_at}
use vardar_os.Heap.Blocks.{Blocks, IsSize}
use vardar_os.Heap.Split.{footer_at, next_at, size_at-tag}

-- The two tags of a block of `n` bytes at `a`, written as `v`.
unfoldable pub tags : Memory → ℕ → ℕ → ℕ → Memory
tags m a n v = write32 (write32 m a v) (a + 4 + n) v

-- One free block stands in the memory `k` from `a` on, and the rest of `m` is as it was.
abbrev pub IsFree : Memory → Memory → ℕ → ℕ → Type 0
IsFree m k a n =
    Blocks k a (record { size = n; used = false } ∷ []) (a + n + 8)
    × ((x : ℕ) → (x < a) ⊎ (a + n + 8 ≤ x) → k x ≡ m x)

pub tags-IsFree : (m : Memory) (a n : ℕ) → IsSize n → IsFree m (tags m a n n) a n
unfolding tags Blocks
tags-IsFree m a n size =
    let m1 = write32 m a n in
    (
      (
        read32-write32-Apart m1 (a + 4 + n) a n (inr (omega arith))
            ∙ read32-write32 m a n (omega arith),
        read32-write32 m1 (a + 4 + n) n (omega arith),
        size,
        refl,
      ),
      (λ x out. ground (arith, write32_outside m1 (a + 4 + n) n x, write32_outside m a n x)),
    )

-- `merge_block` of two free blocks, one behind the other.
pub merge_block-IsFree :
    (h : Heap) (m : Memory) (a n k : ℕ)
    → read32 m a ≡ n
    → read32 m (a + n + 8) ≡ k
    → IsSize n
    → IsSize k
    → n + k + 8 < 2 ^ 16
    → 0 < a
    → a + n + k + 16 ≤ h.start + h.size
    → h.start + h.size < 2 ^ 64
    → IsFree m (merge_block h m a (a + n + 8)).1 a (n + k + 8)
unfolding merge_block merge_size tags
merge_block-IsFree h m a n k first second size_n size_k small pos fits lt =
    let total = n + k + 8 in
    let even : IsSize total = (omega arith, omega arith) in
    let size1 = size_at-tag m a (record { size = n; used = false }) first size_n in
    let size2 = size_at-tag m (a + n + 8) (record { size = k; used = false }) second size_k in
    let footer = footer_at m (a + n + 8) k size2 (omega arith) (omega arith) in
    let next = next_at h m a n size1 (omega arith) lt in
    let head = read32-write32 m a total (omega arith) in
    let at : a + n + 8 + 4 + k ≡ a + 4 + total = omega arith in
    let bit : bit_and n 1 ≡ 0 = omega (arith, bit_and_low 1 n) in
    let value : bit_or (u32 (size_at m a + size_at m (a + n + 8) + mdata_size))
          (bit_and (read32 m a) 1)
        ≡ total =
      ap₂ bit_or (omega (arith, size1, size2)) (ap (λ t. bit_and t 1) first ∙ bit)
      ∙ bit_or-zero total in
    let merged : (merge_block h m a (a + n + 8)).1 ≡ tags m a total total =
      ground (arith, value, footer, next, head, at) in
    subst (λ t. IsFree m t a total) (sym merged) (tags-IsFree m a total even)
