-- ===== src/Heap/Merged.antt =====
-- The invariant of the list of blocks: no two free blocks stand side by side.
use mathlib.Core.Bool.{true≢false}
use vardar_os.Prelude.{Bool-cases, List, [], false, inl, inr, sym, true, ℕ, ◌+◌, ◌∙◌, ◌∷◌, ◌≡◌, ◌⊎◌}
use vardar_os.Heap.Blocks.{Block}
use vardar_os.Heap.Zipper.{onto}
use vardar_os.Heap.Free.{
  coalesce, merge_after, merge_after_free, merge_after_none, merge_after_used, merge_before,
}
use vardar_os.Heap.Kfree.{merge_before_free, merge_before_none, merge_before_used}

-- One of the block and the first of those behind it is used.
unfoldable pub Border : Block → List Block → Type 0
Border b [] = Unit
Border b (c ∷ cs) = (b.used ≡ true) ⊎ (c.used ≡ true)

unfoldable pub IsMerged : List Block → Type 0
IsMerged [] = Unit
IsMerged (b ∷ bs) = Border b bs × IsMerged bs

-- The border between the blocks before and the first of those behind.
unfoldable pub Joint : List Block → List Block → Type 0
Joint [] bs = Unit
Joint (p ∷ ps) bs = Border p bs

pub Border-used : (b : Block) (bs : List Block) → b.used ≡ true → Border b bs
unfolding Border
Border-used b [] used = tt
Border-used b (c ∷ cs) used = inl used

pub onto-IsMerged : (ps bs : List Block) → IsMerged (onto ps bs) → IsMerged bs
unfolding onto IsMerged
onto-IsMerged [] bs merged = merged
onto-IsMerged (p ∷ ps) bs merged = (onto-IsMerged ps (p ∷ bs) merged).1

pub onto-Joint : (ps bs : List Block) → IsMerged (onto ps bs) → Joint ps bs
unfolding onto IsMerged Joint
onto-Joint [] bs merged = tt
onto-Joint (p ∷ ps) bs merged = (onto-IsMerged ps (p ∷ bs) merged).0

Joint-cons :
    (ps : List Block) (p : Block) (bs cs : List Block) → Joint ps (p ∷ bs) → Joint ps (p ∷ cs)
unfolding Joint Border
Joint-cons [] p bs cs joint = tt
Joint-cons (q ∷ qs) p bs cs joint = joint

-- Other blocks behind `ps`, which agree with them and with each other.
pub IsMerged-onto :
    (ps bs cs : List Block)
    → IsMerged (onto ps bs)
    → Joint ps cs
    → IsMerged cs
    → IsMerged (onto ps cs)
unfolding onto IsMerged Joint
IsMerged-onto [] bs cs merged joint new = new
IsMerged-onto (p ∷ ps) bs cs merged joint new =
    IsMerged-onto ps (p ∷ bs) (p ∷ cs) merged
      (Joint-cons ps p bs cs (onto-Joint ps (p ∷ bs) merged)) (joint, new)

-- What is behind a free block may be behind any free block.
Border-free :
    (c : Block) (cs : List Block) → c.used ≡ false → (b : Block) → Border c cs → Border b cs
unfolding Border
Border-free c [] free b border = tt
Border-free c (d ∷ ds) free b (inl used) = absurd (true≢false (sym used ∙ free))
Border-free c (d ∷ ds) free b (inr used) = inr used

merge_after-IsMerged :
    (n : ℕ) (b : Block) (ys : List Block)
    → IsMerged (b ∷ ys)
    → IsMerged (record { size = (merge_after n ys).0; used = false } ∷ (merge_after n ys).1)
unfolding IsMerged Border
merge_after-IsMerged n b [] merged = rw (merge_after_none n) (tt, tt)
merge_after-IsMerged n b (c ∷ cs) (border, (behind, rest)) = elim (Bool-cases c.used) [
  | inl used ↦ rw (merge_after_used n c cs used) (inr used, (behind, rest))
  | inr free ↦
      rw (merge_after_free n c cs free)
        (Border-free c cs free (record { size = n + c.size + 8; used = false }) behind, rest)
]

-- What is before a free block may be before any block.
Joint-free :
    (ps : List Block) (p b : Block) (bs cs : List Block)
    → p.used ≡ false
    → Joint ps (p ∷ bs)
    → Joint ps (b ∷ cs)
unfolding Joint Border
Joint-free [] p b bs cs free joint = tt
Joint-free (q ∷ qs) p b bs cs free (inl used) = inl used
Joint-free (q ∷ qs) p b bs cs free (inr used) = absurd (true≢false (sym used ∙ free))

-- Before the block, as `merge_before` leaves it.
merge_before-Joint :
    (ps : List Block) (b : Block) (n : ℕ) (ys cs : List Block)
    → IsMerged (onto ps (b ∷ ys))
    → Joint (merge_before ps n).0 (record { size = (merge_before ps n).1; used = false } ∷ cs)
unfolding onto Joint Border
merge_before-Joint [] b n ys cs merged = rw (merge_before_none n) tt
merge_before-Joint (p ∷ ps) b n ys cs merged = elim (Bool-cases p.used) [
  | inl used ↦ rw (merge_before_used p ps n used) (inl used)
  | inr free ↦ rw (merge_before_free p ps n free) (
      Joint-free ps p (record { size = p.size + n + 8; used = false }) (b ∷ ys) cs free
        (onto-Joint ps (p ∷ b ∷ ys) merged))
]

-- The border behind a free block does not depend on its size.
pub Border-any :
    (n k : ℕ) (cs : List Block)
    → Border (record { size = n; used = false }) cs
    → Border (record { size = k; used = false }) cs
unfolding Border
Border-any n k [] border = tt
Border-any n k (c ∷ cs) border = border

-- The blocks before stay as they are, but for the one that is merged.
merge_before-onto :
    (ps : List Block) (n : ℕ) (bs : List Block)
    → IsMerged (onto ps bs)
    → (xs : List Block) × IsMerged (onto (merge_before ps n).0 xs)
unfolding onto
merge_before-onto [] n bs merged = (bs, rw (merge_before_none n) merged)
merge_before-onto (p ∷ ps) n bs merged = elim (Bool-cases p.used) [
  | inl used ↦ (bs, rw (merge_before_used p ps n used) merged)
  | inr free ↦ (p ∷ bs, rw (merge_before_free p ps n free) merged)
]

-- Where no two free blocks stand side by side before `kfree`, none do afterwards.
pub coalesce-IsMerged :
    (ps : List Block) (b : Block) (ys : List Block)
    → IsMerged (onto ps (b ∷ ys))
    → IsMerged (coalesce ps b.size ys)
unfolding coalesce IsMerged
coalesce-IsMerged ps b ys merged =
    let (n', ys') = merge_after b.size ys in
    let after = merge_after-IsMerged b.size b ys (onto-IsMerged ps (b ∷ ys) merged) in
    let (xs, before) = merge_before-onto ps n' (b ∷ ys) merged in
    let joint = merge_before-Joint ps b n' ys ys' merged in
    IsMerged-onto (merge_before ps n').0 xs
      (record { size = (merge_before ps n').1; used = false } ∷ ys') before joint
      (Border-any n' (merge_before ps n').1 ys' after.0, after.1)

pub Joint-used : (ps : List Block) (b : Block) (bs : List Block) → b.used ≡ true → Joint ps (b ∷ bs)
unfolding Joint Border
Joint-used [] b bs used = tt
Joint-used (p ∷ ps) b bs used = inr used
