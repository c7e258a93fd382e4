-- ===== src/Heap/Realloc/Keeps.antt =====
-- What a block of the heap keeps where `split_block` and `merge_block` change its tags.
use mathlib.Core.Path.{ap₂}
use vardar_os.Prelude.{
  List, [], ap, arith, bit_and, bit_or, false, inl, inr, refl, true, u32, ℕ, ◌+◌, ◌-◌, ◌/◌, ◌<◌,
  ◌^◌, ◌∙◌, ◌∷◌, ◌≡◌, ◌≤◌, ◌⊎◌,
}
use vardar_os.Bits.{bit_and_low, bit_or_fields}
use vardar_os.Memory.{Memory, read32, write32}
use vardar_os.Memory.Laws.{read32-write32, read32-write32-Apart, write32_outside}
use vardar_os.Heap.{Heap, merge_block, merge_size, size_at, split_block}
use vardar_os.Heap.Blocks.{Block, Blocks, IsSize}
use vardar_os.Heap.Split.{
  footer_at, next_at, size_at-tag, split_block_rest, split_block_whole, split_tags,
}
use vardar_os.Heap.Merge.{tags}
use vardar_os.Heap.Place.{IsRoom, place, place_rest, place_whole}

-- The blocks `bs` fill the memory `k` from `a` to `e`; the first `r` bytes of the first body, and all
-- other memory, are as in `m`.
unfoldable pub Keeps : Memory → Memory → ℕ → ℕ → ℕ → List Block → Type 0
Keeps m k a e r bs =
    Blocks k a bs e
    × ((i : ℕ) → i < r → k (a + 4 + i) ≡ m (a + 4 + i))
    × ((x : ℕ) → (x < a) ⊎ (e ≤ x) → k x ≡ m x)

pub tags-Keeps :
    (m : Memory) (a n : ℕ)
    → IsSize n
    → Keeps m (tags m a n (n + 1)) a (a + n + 8) n (record { size = n; used = true } ∷ [])
unfolding tags Blocks Keeps
tags-Keeps m a n size =
    let m1 = write32 m a (n + 1) in
    (
      (
        read32-write32-Apart m1 (a + 4 + n) a (n + 1) (inr (omega arith))
            ∙ read32-write32 m a (n + 1) (omega arith),
        read32-write32 m1 (a + 4 + n) (n + 1) (omega arith),
        size,
        refl,
      ),
      (λ i lt.
          write32_outside m1 (a + 4 + n) (n + 1) (a + 4 + i) (inl (omega arith))
          ∙ write32_outside m a (n + 1) (a + 4 + i) (inr (omega arith))),
      (λ x out.
          ground (arith, write32_outside m1 (a + 4 + n) (n + 1) x, write32_outside m a (n + 1) x)),
    )

pub split_tags-Keeps :
    (m : Memory) (a n r : ℕ)
    → IsSize n
    → IsSize r
    → r + 8 ≤ n
    → Keeps m
        (split_tags m a n r)
        a
        (a + n + 8)
        r
        (record { size = r; used = true } ∷ record { size = n - r - 8; used = false } ∷ [])
unfolding split_tags Blocks Keeps
split_tags-Keeps m a n r size_n size_r room =
    let rest = n - r - 8 in
    let m1 = write32 m a (r + 1) in
    let m2 = write32 m1 (a + 4 + r) (r + 1) in
    let m3 = write32 m2 (a + r + 8) rest in
    let foot_at : a + r + 8 + 4 + rest ≡ a + 4 + n = omega arith in
    (
      (
        read32-write32-Apart m3 (a + 4 + n) a rest (inr (omega arith))
            ∙ read32-write32-Apart m2 (a + r + 8) a rest (inr (omega arith))
            ∙ read32-write32-Apart m1 (a + 4 + r) a (r + 1) (inr (omega arith))
            ∙ read32-write32 m a (r + 1) (omega arith),
        read32-write32-Apart m3 (a + 4 + n) (a + 4 + r) rest (inr (omega arith))
            ∙ read32-write32-Apart m2 (a + r + 8) (a + 4 + r) rest (inr (omega arith))
            ∙ read32-write32 m1 (a + 4 + r) (r + 1) (omega arith),
        size_r,
        (
          read32-write32-Apart m3 (a + 4 + n) (a + r + 8) rest (inr (omega arith))
              ∙ read32-write32 m2 (a + r + 8) rest (omega arith),
          ap (read32 (write32 m3 (a + 4 + n) rest)) foot_at
              ∙ read32-write32 m3 (a + 4 + n) rest (omega arith),
          (omega arith, omega arith),
          omega arith,
        ),
      ),
      (λ i lt.
          write32_outside m3 (a + 4 + n) rest (a + 4 + i) (inl (omega arith))
          ∙ write32_outside m2 (a + r + 8) rest (a + 4 + i) (inl (omega arith))
          ∙ write32_outside m1 (a + 4 + r) (r + 1) (a + 4 + i) (inl (omega arith))
          ∙ write32_outside m a (r + 1) (a + 4 + i) (inr (omega arith))),
      (λ x out. ground (
        arith,
        write32_outside m3 (a + 4 + n) rest x,
        write32_outside m2 (a + r + 8) rest x,
        write32_outside m1 (a + 4 + r) (r + 1) x,
        write32_outside m a (r + 1) x,
      )),
    )

tagged : (r : ℕ) → IsSize r → bit_or r 1 ≡ r + 1
tagged r h = ground (arith, h, bit_or_fields 1 (r / 2) 1)

module _ (h : Heap) (pos : 0 < h.start) (lt : h.start + h.size < 2 ^ 64) where
  -- `split_block` of a used or a free block.
  pub split_block-Keeps :
      (m : Memory) (a n r : ℕ)
      → size_at m a ≡ n
      → IsSize n
      → IsSize r
      → IsRoom n r
      → 0 < a
      → a + n + 8 ≤ h.start + h.size
      → ((split_block h m a r).0 ≡ a) × Keeps m (split_block h m a r).1 a (a + n + 8) r (place n r)
  split_block-Keeps m a n r size size_n size_r (inl eq) pos fits =
      rw (← eq, split_block_whole h m a n size size_n pos fits lt, place_whole n)
        (refl, unfold tags in tags-Keeps m a n size_n)
  split_block-Keeps m a n r size size_n size_r (inr room) pos fits =
      rw (split_block_rest h m a n r size size_n size_r room pos fits lt, place_rest n r room)
        (refl, split_tags-Keeps m a n r size_n size_r room)

  -- `merge_block` of a used block and the free one behind it.
  pub merge_block-used :
      (m : Memory) (a n k : ℕ)
      → read32 m a ≡ n + 1
      → read32 m (a + n + 8) ≡ k
      → IsSize n
      → IsSize k
      → n + k + 8 < 2 ^ 16
      → 0 < a
      → a + n + k + 16 ≤ h.start + h.size
      → merge_block h m a (a + n + 8) ≡ (a, tags m a (n + k + 8) (n + k + 8 + 1))
  unfolding merge_block merge_size tags
  merge_block-used m a n k first second size_n size_k small pos fits =
      let total = n + k + 8 in
      let size1 = size_at-tag m a (record { size = n; used = true }) first size_n in
      let size2 = size_at-tag m (a + n + 8) (record { size = k; used = false }) second size_k in
      let footer = footer_at m (a + n + 8) k size2 (omega arith) (omega arith) in
      let next = next_at h m a n size1 (omega arith) lt in
      let head = read32-write32 m a (total + 1) (omega arith) in
      let at : a + n + 8 + 4 + k ≡ a + 4 + total = omega arith in
      let bit : bit_and (n + 1) 1 ≡ 1 = omega (arith, size_n, bit_and_low 1 (n + 1)) in
      let whole : u32 (size_at m a + size_at m (a + n + 8) + 8) ≡ total =
        omega (arith, size1, size2) in
      let even : IsSize total = (omega arith, omega arith) in
      let value : bit_or (u32 (size_at m a + size_at m (a + n + 8) + 8)) (bit_and (read32 m a) 1)
          ≡ total + 1 =
        ap₂ bit_or whole (ap (λ t. bit_and t 1) first ∙ bit) ∙ tagged total even in
      ground (arith, value, footer, next, head, at)
