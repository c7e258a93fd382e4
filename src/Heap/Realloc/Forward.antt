-- ===== src/Heap/Realloc/Forward.antt =====
-- `krealloc` where the block behind is free and there is room in the two together.
use vardar_os.Utils.String.{memset}
use mathlib.Core.Path.{subst}
use vardar_os.Prelude.{
  List, ap, arith, false, inl, inr, leb, refl, some, sub64, sym, true, ℕ, ◌++◌, ◌+◌, ◌<◌, ◌==◌, ◌^◌,
  ◌∙◌, ◌∷◌, ◌≡◌, ◌≤◌, ◌⊎◌,
}
use vardar_os.Memory.{Memory, read32}
use vardar_os.Memory.Laws.{read32_cong}
use vardar_os.Heap.{Heap, is_used_at, merge_size, next_header, round_even, split_block}
use vardar_os.Heap.Blocks.{Block, Blocks, Blocks-append, Blocks-cong, Blocks-le, IsSize}
use vardar_os.Heap.Split.{next_at, size_at-tag}
use vardar_os.Heap.Merge.{tags}
use vardar_os.Heap.Place.{IsRoom, place}
use vardar_os.Utils.String.Copy.{memset_lem}
use vardar_os.Heap.Realloc.{krealloc, merge_forward}
use vardar_os.Heap.Zipper.{Before-cong, Before-le, Blocks-onto, extent, onto, onto-Blocks}
use vardar_os.Heap.Free.{is_used_at-tag}
use vardar_os.Heap.Realloc.Keeps.{Keeps, merge_block-used, split_block-Keeps, tags-Keeps}

module _ (h : Heap) (pos : 0 < h.start) (lt : h.start + h.size < 2 ^ 64) where
  -- The bytes from the header of the second block to its footer are zeroed.
  merge_forward-Keeps :
      (m : Memory) (a n k r : ℕ)
      → read32 m a ≡ n + 1
      → read32 m (a + n + 8) ≡ k
      → IsSize n
      → IsSize k
      → IsSize r
      → IsRoom (n + k + 8) r
      → n + k + 8 < 2 ^ 16
      → 0 < a
      → a + n + k + 16 ≤ h.start + h.size
      → ((merge_forward h m a (a + n + 8) r).0 ≡ a)
        × Blocks (merge_forward h m a (a + n + 8) r).1 a (place (n + k + 8) r) (a + n + k + 16)
        × ((i : ℕ)
            → i < n
            → i < r
            → (merge_forward h m a (a + n + 8) r).1 (a + 4 + i) ≡ m (a + 4 + i))
        × ((x : ℕ) → (x < a) ⊎ (a + n + k + 16 ≤ x) → (merge_forward h m a (a + n + 8) r).1 x ≡ m x)
  unfolding merge_forward Keeps
  merge_forward-Keeps m a n k r first second size_n size_k size_r room small behind fits =
      let total = n + k + 8 in
      let even : IsSize total = (omega arith, omega arith) in
      let m1 = tags m a total (total + 1) in
      let m2 = memset m1 (a + n + 8) 0 (k + 4) in
      let size2 = size_at-tag m (a + n + 8) (record { size = k; used = false }) second size_k in
      let merge = merge_block-used h pos lt m a n k first second size_n size_k small behind fits in
      let (used, kept, outside) = tags-Keeps m a total even in
      let zeroed : (x : ℕ) → (x < a + n + 8) ⊎ (a + n + k + 12 ≤ x) → m2 x ≡ m1 x =
        λ x out. ground (arith, memset_lem (k + 4) m1 (a + n + 8) 0 x, out) in
      let head : read32 m2 a ≡ total + 1 =
        read32_cong m1 m2 a (λ x p q. zeroed x (inl (omega (arith, q))))
        ∙ unfold Blocks in used.0 in
      let size = size_at-tag m2 a (record { size = total; used = true }) head even in
      let (at, keeps) =
        split_block-Keeps h pos lt m2 a total r size even size_r room behind
          (omega (arith, fits)) in
      let (blocks, body, rest) = keeps in
      let end : a + total + 8 ≡ a + n + k + 16 = omega arith in
      let result : merge_forward h m a (a + n + 8) r ≡ split_block h m2 a r =
        rw (merge_forward, size2, merge) refl in
      rw result (
        at,
        subst (λ (e : ℕ). Blocks (split_block h m2 a r).1 a (place total r) e) end blocks,
        (λ i li lr.
            body i lr ∙ zeroed (a + 4 + i) (inl (omega (arith, li))) ∙ kept i (omega (arith, li))),
        (λ x out.
            rest x (omega (arith, out))
            ∙ zeroed x (omega (arith, out))
            ∙ outside x (omega (arith, out))),
      )

  krealloc_next :
      (m : Memory) (fuel a requested r next : ℕ)
      → round_even requested ≡ r
      → sub64 (a + 4) 4 ≡ a
      → next_header h m a ≡ next
      → (next == 0) ≡ false
      → is_used_at m next ≡ false
      → leb r (merge_size m a next) ≡ true
      → krealloc fuel h m (a + 4) requested
        ≡ some ((merge_forward h m a next r).0 + 4, (merge_forward h m a next r).1)
  unfolding krealloc
  krealloc_next m fuel a requested r next even header at nonzero unused fits =
      rw (krealloc, header, even, at, nonzero, unused, fits) refl

  -- On the blocks of the heap, with a free block behind the one of the allocation, where the two with
  -- the tags between them have fewer than 2 ^ 16 bytes, and leave nothing or enough for the tags of a
  -- block of what is asked for, rounded up to an even number:
  -- `krealloc` returns the same pointer, the blocks are those of an allocation in the two together, the
  -- contents up to the smaller of the sizes stay, and nothing outside the heap changes.
  pub krealloc-forward :
      (m : Memory) (fuel requested r : ℕ) (ps : List Block) (b c : Block) (ys : List Block)
      → Blocks m h.start (onto ps (b ∷ c ∷ ys)) (h.start + h.size)
      → b.used ≡ true
      → c.used ≡ false
      → round_even requested ≡ r
      → IsSize r
      → IsRoom (b.size + c.size + 8) r
      → b.size + c.size + 8 < 2 ^ 16
      → (k : Memory) × (krealloc fuel h m (h.start + extent ps + 4) requested
          ≡ some (h.start + extent ps + 4, k))
        × Blocks k h.start (onto ps (place (b.size + c.size + 8) r ++ ys)) (h.start + h.size)
        × ((i : ℕ)
            → i < b.size
            → i < r
            → k (h.start + extent ps + 4 + i) ≡ m (h.start + extent ps + 4 + i))
        × ((x : ℕ) → (x < h.start) ⊎ (h.start + h.size ≤ x) → k x ≡ m x)
  unfolding Blocks merge_size
  krealloc-forward m fuel requested r ps b c ys blocks used free even size_r room small =
      let a = h.start + extent ps in
      let (before, (head, foot, size, (head_c, foot_c, size_c, behind))) =
        onto-Blocks m h.start ps (b ∷ c ∷ ys) (h.start + h.size) blocks in
      let lo = Before-le m h.start ps a before in
      let hi = Blocks-le m (a + b.size + 8 + c.size + 8) ys (h.start + h.size) behind in
      let first : read32 m a ≡ b.size + 1 = ground (arith, head, used) in
      let second : read32 m (a + b.size + 8) ≡ c.size = ground (arith, head_c, free) in
      let (at, placed, kept, outside) =
        merge_forward-Keeps m a b.size c.size r first second size size_c size_r room small
          (omega (arith, pos, lo)) (omega (arith, hi)) in
      let k = (merge_forward h m a (a + b.size + 8) r).1 in
      let header : sub64 (a + 4) 4 ≡ a = omega (arith, lo, hi, lt) in
      let size1 = size_at-tag m a b head size in
      let size2 = size_at-tag m (a + b.size + 8) c head_c size_c in
      let next = next_at h m a b.size size1 (omega (arith, hi)) lt in
      let unused : is_used_at m (a + b.size + 8) ≡ false =
        is_used_at-tag h pos lt m (a + b.size + 8) c head_c size_c ∙ free in
      let fits : leb r (merge_size m a (a + b.size + 8)) ≡ true =
        ground (arith, size1, size2, room) in
      let end : a + b.size + c.size + 16 ≡ a + b.size + 8 + c.size + 8 = omega arith in
      (
        k,
        krealloc_next m fuel a requested r (a + b.size + 8) even header next
              (ground (arith, pos, lo)) unused fits
            ∙ ap (λ (p : ℕ). some (p + 4, k)) at,
        Blocks-onto k h.start ps a (place (b.size + c.size + 8) r ++ ys) (h.start + h.size)
            (Before-cong m k h.start ps a before (λ x p q. outside x (inl q)))
            (Blocks-append k a (place (b.size + c.size + 8) r) ys (a + b.size + c.size + 16)
              (h.start + h.size) placed
              (Blocks-cong m k (a + b.size + c.size + 16) ys (h.start + h.size)
                (subst (λ (e : ℕ). Blocks m e ys (h.start + h.size)) (sym end) behind)
                (λ x p q. outside x (inr p)))),
        kept,
        λ x out. outside x (ground (arith, out, lo, hi)),
      )
