-- ===== src/Heap/Free.antt =====
-- `kfree` over the whole heap, against its description on the list of blocks.
use mathlib.Core.Path.{subst}
use vardar_os.Prelude.{
  Bool-cases, List, [], ap, arith, bit_and, false, if◌then◌else◌, inl, inr, refl, true, ℕ, ◌+◌, ◌<◌,
  ◌==◌, ◌^◌, ◌∙◌, ◌∷◌, ◌≡◌, ◌≢◌, ◌≤◌, ◌⊎◌,
}
use vardar_os.Memory.{Memory, read32}
use vardar_os.Heap.{Heap, is_used_at, merge_block, merge_next, next_header, size_at}
use vardar_os.Heap.Blocks.{Block, Blocks, Blocks-le, IsSize, tag, used_mask-tag}
use vardar_os.Heap.Merge.{IsFree, merge_block-IsFree}
use vardar_os.Heap.Zipper.{Before, Before-le, IsFree-between, onto}
use vardar_os.Heap.Split.{next_at, size_at-tag}

-- A free block of `n` bytes takes in a free block behind it.
unfoldable pub merge_after : ℕ → List Block → ℕ × List Block
merge_after n [] = (n, [])
merge_after n (c ∷ cs) = if c.used then (n, c ∷ cs) else (n + c.size + 8, cs)

-- A free block before it takes it in.
unfoldable pub merge_before : List Block → ℕ → List Block × ℕ
merge_before [] n = ([], n)
merge_before (p ∷ ps) n = if p.used then (p ∷ ps, n) else (ps, p.size + n + 8)

-- The blocks after a block of `n` bytes between `ps` and `ys` has been freed.
unfoldable pub coalesce : List Block → ℕ → List Block → List Block
coalesce ps n ys =
    let (n', ys') = merge_after n ys in
    let (ps', n'') = merge_before ps n' in onto ps' (record { size = n''; used = false } ∷ ys')

pub merge_after_none : (n : ℕ) → merge_after n [] ≡ (n, [])
unfolding merge_after
merge_after_none n = refl

pub merge_after_used :
    (n : ℕ) (c : Block) (cs : List Block) → c.used ≡ true → merge_after n (c ∷ cs) ≡ (n, c ∷ cs)
unfolding merge_after
merge_after_used n c cs used = ground (arith, used)

pub merge_after_free :
    (n : ℕ) (c : Block) (cs : List Block)
    → c.used ≡ false
    → merge_after n (c ∷ cs) ≡ (n + c.size + 8, cs)
unfolding merge_after
merge_after_free n c cs free = ground (arith, free)

pub free_block : (c : Block) → c.used ≡ false → c ≡ record { size = c.size; used = false }
free_block c free = ground (arith, free)

-- What a step of `kfree` leaves: the blocks from `a` on, those before, and the memory outside.
unfoldable pub IsHeap : Heap → Memory → Memory → List Block → ℕ → List Block → Type 0
IsHeap h m k ps a bs =
    Before k h.start ps a
    × Blocks k a bs (h.start + h.size)
    × ((x : ℕ) → (x < h.start) ⊎ (h.start + h.size ≤ x) → k x ≡ m x)

module _ (h : Heap) (pos : 0 < h.start) (lt : h.start + h.size < 2 ^ 64) where
  -- A free block in place of the blocks from `a` up to `ys`.
  pub IsHeap-free :
      (o m k : Memory) (ps : List Block) (a n : ℕ) (bs ys : List Block)
      → IsHeap h o m ps a bs
      → IsFree m k a n
      → Blocks m (a + n + 8) ys (h.start + h.size)
      → IsHeap h o k ps a (record { size = n; used = false } ∷ ys)
  unfolding IsHeap
  IsHeap-free o m k ps a n bs ys (before, blocks, same) free behind =
      let (before', blocks') =
        IsFree-between m k h.start ps a n ys (h.start + h.size) free before behind in
      let lo = Before-le m h.start ps a before in
      let hi = Blocks-le m (a + n + 8) ys (h.start + h.size) behind in
      (before', blocks', λ x out. free.1 x (ground (arith, out, lo, hi)) ∙ same x out)

  next_none :
      (m : Memory) (a n : ℕ)
      → size_at m a ≡ n
      → a + n + 8 ≡ h.start + h.size
      → next_header h m a ≡ 0
  unfolding next_header
  next_none m a n size end = ground (arith, size, end, lt)

  merge_next_keep :
      (m : Memory) (a b : ℕ) → (b ≡ 0) ⊎ (is_used_at m b ≡ true) → merge_next h m a b ≡ m
  unfolding merge_next
  merge_next_keep m a b keep = ground (arith, keep)

  merge_next_join :
      (m : Memory) (a b : ℕ)
      → b ≢ 0
      → is_used_at m b ≡ false
      → merge_next h m a b ≡ (merge_block h m a b).1
  unfolding merge_next
  merge_next_join m a b ne free = ground (arith, ne, free)

  pub is_used_at-tag :
      (m : Memory) (a : ℕ) (b : Block)
      → read32 m a ≡ tag b
      → IsSize b.size
      → is_used_at m a ≡ b.used
  unfolding is_used_at
  is_used_at-tag m a b head size = ap (λ t. bit_and t 1 == 1) head ∙ used_mask-tag b size

  -- The block behind a free block of `n` bytes, as `kfree` sees it.
  behind_block :
      (o m : Memory) (ps : List Block) (a n : ℕ) (c : Block) (cs : List Block)
      → IsHeap h o m ps a (record { size = n; used = false } ∷ c ∷ cs)
      → (next_header h m a ≡ a + n + 8) × (is_used_at m (a + n + 8) ≡ c.used)
  unfolding IsHeap Blocks
  behind_block o m ps a n c cs (before, (head, foot, size, behind), same) =
      let hi = Blocks-le m (a + n + 8 + c.size + 8) cs (h.start + h.size) behind.3 in
      (
        next_at h m a n (size_at-tag m a (record { size = n; used = false }) head size)
            (omega (arith, hi)) lt,
        is_used_at-tag m (a + n + 8) c behind.0 behind.2,
      )

  last_block :
      (o m : Memory) (ps : List Block) (a n : ℕ)
      → IsHeap h o m ps a (record { size = n; used = false } ∷ [])
      → next_header h m a ≡ 0
  unfolding IsHeap Blocks
  last_block o m ps a n (before, (head, foot, size, end), same) =
      next_none m a n (size_at-tag m a (record { size = n; used = false }) head size) end

  -- Two free blocks, one behind the other, become one.
  pub join-IsHeap :
      (small : h.size ≤ 2 ^ 16) (o m : Memory) (ps : List Block) (a n k : ℕ) (cs : List Block)
      → IsHeap h o m ps a
          (record { size = n; used = false } ∷ record { size = k; used = false } ∷ cs)
      → IsHeap h o
          (merge_block h m a (a + n + 8)).1
          ps
          a
          (record { size = n + k + 8; used = false } ∷ cs)
  unfolding IsHeap Blocks
  join-IsHeap small o m ps a n k cs
        (before, (head, foot, size, (head_c, foot_c, size_c, rest)), same) =
      let lo = Before-le m h.start ps a before in
      let hi = Blocks-le m (a + n + 8 + k + 8) cs (h.start + h.size) rest in
      let merged =
        merge_block-IsFree h m a n k head head_c size size_c (omega (arith, lo, hi, small))
          (omega (arith, lo, pos)) (omega (arith, hi)) lt in
      let at : a + n + 8 + k + 8 ≡ a + (n + k + 8) + 8 = omega arith in
      IsHeap-free o m (merge_block h m a (a + n + 8)).1 ps a (n + k + 8)
        (record { size = n; used = false } ∷ record { size = k; used = false } ∷ cs) cs
        (before, (head, foot, size, (head_c, foot_c, size_c, rest)), same) merged
        (subst (λ t. Blocks m t cs (h.start + h.size)) at rest)

  pub merge_next-IsHeap :
      (small : h.size ≤ 2 ^ 16) (o m : Memory) (ps : List Block) (a n : ℕ) (ys : List Block)
      → IsHeap h o m ps a (record { size = n; used = false } ∷ ys)
      → IsHeap h o
          (merge_next h m a (next_header h m a))
          ps
          a
          (record { size = (merge_after n ys).0; used = false } ∷ (merge_after n ys).1)
  merge_next-IsHeap small o m ps a n [] heap =
      rw (last_block o m ps a n heap, merge_next_keep m a 0 (inl refl), merge_after_none n) heap
  merge_next-IsHeap small o m ps a n (c ∷ cs) heap =
      let (next, used) = behind_block o m ps a n c cs heap in
      elim (Bool-cases c.used) [
        | inl yes_used ↦
            rw
              (
                next,
                merge_next_keep m a (a + n + 8) (inr (used ∙ yes_used)),
                merge_after_used n c cs yes_used,
              )
              heap
        | inr no_used ↦
            rw
              (
                next,
                merge_next_join m a (a + n + 8) (λ e. omega (arith, e)) (used ∙ no_used),
                merge_after_free n c cs no_used,
              )
              (join-IsHeap small o m ps a n c.size cs (
                subst (λ t. IsHeap h o m ps a (record { size = n; used = false } ∷ t ∷ cs))
                  (free_block c no_used) heap))
      ]
