-- ===== src/Heap/Kfree.antt =====
-- The merge with the block before, and all of `kfree`.
use mathlib.Core.Path.{subst}
use vardar_os.Prelude.{
  Bool-cases, List, [], arith, false, inl, inr, refl, sub64, sym, true, ℕ, ◌+◌, ◌-◌, ◌<◌, ◌^◌, ◌∙◌,
  ◌∷◌, ◌≡◌, ◌≢◌, ◌≤◌, ◌⊎◌,
}
use vardar_os.Memory.{Memory, write32}
use vardar_os.Heap.{
  Heap, header_from_footer, is_used_at, kfree, merge_block, merge_next, merge_prev, next_header,
  prev_footer, size_at,
}
use vardar_os.Heap.Blocks.{Block, Blocks, Blocks-le}
use vardar_os.Heap.Zipper.{Before, Before-le, Blocks-onto, extent, onto, onto-Blocks}
use vardar_os.Heap.Split.{size_at-tag}
use vardar_os.Heap.Free.{
  IsHeap, IsHeap-free, coalesce, free_block, is_used_at-tag, join-IsHeap, merge_after, merge_before,
  merge_next-IsHeap,
}
use vardar_os.Heap.Merge.{tags, tags-IsFree}
use vardar_os.Memory.Laws.{read32-write32, read32-write32-Apart}

-- Where `kfree` looks for the footer of the block before the one at `a`.
unfoldable footer_before : List Block → ℕ → ℕ
footer_before [] a = 0
footer_before (p ∷ ps) a = a - 4

pub merge_before_none : (n : ℕ) → merge_before [] n ≡ ([], n)
unfolding merge_before
merge_before_none n = refl

pub merge_before_used :
    (p : Block) (ps : List Block) (n : ℕ) → p.used ≡ true → merge_before (p ∷ ps) n ≡ (p ∷ ps, n)
unfolding merge_before
merge_before_used p ps n used = ground (arith, used)

pub merge_before_free :
    (p : Block) (ps : List Block) (n : ℕ)
    → p.used ≡ false
    → merge_before (p ∷ ps) n ≡ (ps, p.size + n + 8)
unfolding merge_before
merge_before_free p ps n free = ground (arith, free)

module _ (h : Heap) (pos : 0 < h.start) (lt : h.start + h.size < 2 ^ 64) where
  prev_none :
      (m : Memory) (a n : ℕ)
      → size_at m (a + 4 + n) ≡ n
      → h.start ≡ a
      → a + n + 8 ≤ h.start + h.size
      → prev_footer h m (a + 4 + n) ≡ 0
  unfolding prev_footer
  prev_none m a n size start fits = ground (arith, size, start, fits, lt)

  prev_some :
      (m : Memory) (a n : ℕ)
      → size_at m (a + 4 + n) ≡ n
      → h.start + 8 ≤ a
      → a + n + 8 ≤ h.start + h.size
      → prev_footer h m (a + 4 + n) ≡ a - 4
  unfolding prev_footer
  prev_some m a n size start fits = ground (arith, size, start, fits, lt)

  header_at :
      (m : Memory) (c k : ℕ)
      → size_at m (c + 4 + k) ≡ k
      → c + 4 + k < 2 ^ 64
      → header_from_footer m (c + 4 + k) ≡ c
  unfolding header_from_footer
  header_at m c k size fits = ground (arith, size, fits)

  merge_prev_keep :
      (m : Memory) (a f : ℕ) → (f ≡ 0) ⊎ (is_used_at m f ≡ true) → merge_prev h m a f ≡ m
  unfolding merge_prev
  merge_prev_keep m a f keep = ground (arith, keep)

  merge_prev_join :
      (m : Memory) (a f : ℕ)
      → f ≢ 0
      → is_used_at m f ≡ false
      → merge_prev h m a f ≡ (merge_block h m (header_from_footer m f) a).1
  unfolding merge_prev
  merge_prev_join m a f ne free = ground (arith, ne, free)

  prev_footer-IsHeap :
      (o m : Memory) (ps : List Block) (a n : ℕ) (cs : List Block)
      → IsHeap h o m ps a (record { size = n; used = false } ∷ cs)
      → prev_footer h m (a + 4 + n) ≡ footer_before ps a
  unfolding IsHeap Blocks Before footer_before
  prev_footer-IsHeap o m [] a n cs (before, (head, foot, size, behind), same) =
      prev_none m a n (size_at-tag m (a + 4 + n) (record { size = n; used = false }) foot size)
        before (Blocks-le m (a + n + 8) cs (h.start + h.size) behind)
  prev_footer-IsHeap o m (p ∷ ps) a n cs
        ((c, at, head_p, foot_p, size_p, rest), (head, foot, size, behind), same) =
      prev_some m a n (size_at-tag m (a + 4 + n) (record { size = n; used = false }) foot size)
        (omega (arith, at, Before-le m h.start ps c rest))
        (Blocks-le m (a + n + 8) cs (h.start + h.size) behind)

  -- The block before the one at `a`, as `kfree` sees it.
  prev_block :
      (o m : Memory) (p : Block) (ps : List Block) (a : ℕ) (bs : List Block)
      → IsHeap h o m (p ∷ ps) a bs
      → (c : ℕ) × (c + p.size + 8 ≡ a)
        × (is_used_at m (c + 4 + p.size) ≡ p.used)
        × (header_from_footer m (c + 4 + p.size) ≡ c)
        × IsHeap h o m ps c (p ∷ bs)
  unfolding IsHeap Before Blocks
  prev_block o m p ps a bs ((c, at, head, foot, size, rest), blocks, same) =
      let hi = Blocks-le m a bs (h.start + h.size) blocks in
      (
        c,
        at,
        is_used_at-tag h pos lt m (c + 4 + p.size) p foot size,
        header_at m c p.size (size_at-tag m (c + 4 + p.size) p foot size)
            (omega (arith, at, hi, lt)),
        (
          rest,
          (head, foot, size, subst (λ t. Blocks m t bs (h.start + h.size)) (sym at) blocks),
          same,
        ),
      )

  footer_before_none : (m : Memory) (a : ℕ) → merge_prev h m a (footer_before [] a) ≡ m
  unfolding footer_before
  footer_before_none m a = merge_prev_keep m a 0 (inl refl)

  footer_before_some :
      (p : Block) (ps : List Block) (c a : ℕ)
      → c + p.size + 8 ≡ a
      → footer_before (p ∷ ps) a ≡ c + 4 + p.size
  unfolding footer_before
  footer_before_some p ps c a at = omega (arith, at)

  -- What `merge_prev` leaves, wherever the block now starts.
  merge_prev-IsHeap :
      (small : h.size ≤ 2 ^ 16) (o m : Memory) (ps : List Block) (a n : ℕ) (cs : List Block)
      → IsHeap h o m ps a (record { size = n; used = false } ∷ cs)
      → (c : ℕ) × IsHeap h o
          (merge_prev h m a (footer_before ps a))
          (merge_before ps n).0
          c
          (record { size = (merge_before ps n).1; used = false } ∷ cs)
  merge_prev-IsHeap small o m [] a n cs heap =
      (a, rw (footer_before_none m a, merge_before_none n) heap)
  merge_prev-IsHeap small o m (p ∷ ps) a n cs heap =
      let (c, at, used, header, joined) =
        prev_block o m p ps a (record { size = n; used = false } ∷ cs) heap in
      let footer = footer_before_some p ps c a at in
      elim (Bool-cases p.used) [
        | inl yes_used ↦ (
          a,
          rw
              (
                footer,
                merge_prev_keep m a (c + 4 + p.size) (inr (used ∙ yes_used)),
                merge_before_used p ps n yes_used,
              )
              heap,
        )
        | inr no_used ↦ (
          c,
          rw
              (
                footer,
                merge_prev_join m a (c + 4 + p.size) (λ e. omega (arith, e)) (used ∙ no_used),
                merge_before_free p ps n no_used,
                header,
                sym at,
              )
              (join-IsHeap h pos lt small o m ps c p.size n cs (
                subst (λ t. IsHeap h o m ps c (t ∷ record { size = n; used = false } ∷ cs))
                  (free_block p no_used) joined)),
        )
      ]

  -- The tags that `kfree` clears, before it merges.
  clear-IsHeap :
      (m : Memory) (ps : List Block) (b : Block) (ys : List Block) (a : ℕ)
      → IsHeap h m m ps a (b ∷ ys)
      → IsHeap h m (tags m a b.size b.size) ps a (record { size = b.size; used = false } ∷ ys)
  unfolding IsHeap Blocks
  clear-IsHeap m ps b ys a (before, (head, foot, size, behind), same) =
      IsHeap-free h pos lt m m (tags m a b.size b.size) ps a b.size (b ∷ ys) ys
        (before, (head, foot, size, behind), same) (tags-IsFree m a b.size size) behind

  -- `kfree` up to the merges.
  kfree-clear :
      (m : Memory) (ps : List Block) (b : Block) (ys : List Block) (a : ℕ)
      → IsHeap h m m ps a (b ∷ ys)
      → kfree h m (a + 4)
        ≡ merge_prev h
            (merge_next h (tags m a b.size b.size) a (next_header h (tags m a b.size b.size) a))
            a
            (prev_footer h (tags m a b.size b.size) (a + 4 + b.size))
  unfolding IsHeap Blocks kfree tags
  kfree-clear m ps b ys a (before, (head, foot, size, behind), same) =
      let hi = Blocks-le m (a + b.size + 8) ys (h.start + h.size) behind in
      let header : sub64 (a + 4) 4 ≡ a = omega (arith, hi, lt) in
      let first = size_at-tag m a b head size in
      let read = read32-write32 m a b.size (omega (arith, size)) in
      let last =
        size_at-tag (write32 m a b.size) (a + 4 + b.size) b
          (read32-write32-Apart m a (a + 4 + b.size) b.size (inl (omega arith)) ∙ foot) size in
      rw (header, first, read, last) refl

  -- On a heap of at most 2 ^ 16 bytes, from an address above 0 to one below 2 ^ 64, and filled by the
  -- blocks `ps`, `b` and `ys`: `kfree` of the pointer of `b` leaves the list of blocks that `coalesce`
  -- gives, and does not change the memory outside the heap.
  pub kfree-coalesce :
      (small : h.size ≤ 2 ^ 16) (m : Memory) (ps : List Block) (b : Block) (ys : List Block)
      → Blocks m h.start (onto ps (b ∷ ys)) (h.start + h.size)
      → Blocks
          (kfree h m (h.start + extent ps + 4))
          h.start
          (coalesce ps b.size ys)
          (h.start + h.size)
        × ((x : ℕ)
            → (x < h.start) ⊎ (h.start + h.size ≤ x)
            → kfree h m (h.start + extent ps + 4) x ≡ m x)
  unfolding IsHeap coalesce
  kfree-coalesce small m ps b ys blocks =
      let a = h.start + extent ps in
      let (before, here) = onto-Blocks m h.start ps (b ∷ ys) (h.start + h.size) blocks in
      let whole : IsHeap h m m ps a (b ∷ ys) = (before, here, λ x out. refl) in
      let cleared = clear-IsHeap m ps b ys a whole in
      let k = tags m a b.size b.size in
      let joined = merge_next-IsHeap h pos lt small m k ps a b.size ys cleared in
      let (c, (before', blocks', same)) =
        merge_prev-IsHeap small m (merge_next h k a (next_header h k a)) ps a
          (merge_after b.size ys).0 (merge_after b.size ys).1 joined in
      rw (kfree-clear m ps b ys a whole, prev_footer-IsHeap m k ps a b.size ys cleared)
        (
          Blocks-onto (merge_prev h (merge_next h k a (next_header h k a)) a (footer_before ps a))
              h.start (merge_before ps (merge_after b.size ys).0).0 c
              (record { size = (merge_before ps (merge_after b.size ys).0).1; used = false }
                ∷ (merge_after b.size ys).1)
              (h.start + h.size) before' blocks',
          same,
        )
