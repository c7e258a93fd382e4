-- ===== src/Heap/RoundTrip.antt =====
-- `kfree` of what `kalloc` returned.
use mathlib.Core.Path.{ap₂, subst}
use mathlib.Core.Bool.{false≢true, true≢false}
use vardar_os.Prelude.{
  Bool-cases, List, [], ap, arith, false, inl, inr, length, refl, some, sym, true, ℕ, ◌++◌, ◌+◌,
  ◌-◌, ◌<◌, ◌^◌, ◌∙◌, ◌∷◌, ◌≡◌, ◌≤◌, ◌⊎◌,
}
use vardar_os.Heap.{Heap, kalloc, kfree, round_even}
use vardar_os.Heap.Alloc.{HasRoom, IsAlloc, first_fit, fits, fits-true, kalloc-first_fit}
use vardar_os.Heap.Blocks.{Block, Blocks}
use vardar_os.Heap.Place.{IsRoom, place, place_rest, place_whole}
use vardar_os.Heap.Zipper.{extent, onto}
use vardar_os.Heap.Free.{
  coalesce, free_block, merge_after, merge_after_free, merge_after_none, merge_after_used,
  merge_before,
}
use vardar_os.Heap.Kfree.{kfree-coalesce, merge_before_none, merge_before_used}
use vardar_os.Memory.{Memory}
use vardar_os.Heap.Merged.{Border, IsMerged, Joint, onto-IsMerged, onto-Joint}

onto-append :
    (ps : List Block) (b : Block) (bs : List Block) → onto (ps ++ b ∷ []) bs ≡ b ∷ onto ps bs
unfolding onto
onto-append [] b bs = refl
onto-append (p ∷ ps) b bs = onto-append ps b (p ∷ bs)

extent-append : (ps : List Block) (b : Block) → extent (ps ++ b ∷ []) ≡ extent ps + b.size + 8
unfolding extent
extent-append [] b = omega arith
extent-append (p ∷ ps) b = omega (arith, extent-append ps b)

-- First fit takes the free block of `n` bytes between `ps` and `ys`.
unfoldable pub Takes : ℕ → ℕ → List Block → Type 0
Takes size a bs =
    (ps : List Block) × (n : ℕ) × (ys : List Block) × (bs
      ≡ onto ps (record { size = n; used = false } ∷ ys))
    × IsRoom n (round_even size)
    × (first_fit size a bs ≡ (a + extent ps + 4, onto ps (place n (round_even size) ++ ys)))

pub first_fit_here :
    (size a : ℕ) (b : Block) (bs : List Block)
    → fits size b ≡ true
    → first_fit size a (b ∷ bs) ≡ (a + 4, place b.size (round_even size) ++ bs)
unfolding first_fit
first_fit_here size a b bs fit = rw fit refl

pub first_fit_later :
    (size a : ℕ) (b : Block) (bs : List Block)
    → fits size b ≡ false
    → first_fit size a (b ∷ bs)
      ≡ ((first_fit size (a + b.size + 8) bs).0, b ∷ (first_fit size (a + b.size + 8) bs).1)
unfolding first_fit
first_fit_later size a b bs no_fit = rw no_fit refl

Takes-later :
    (size a : ℕ) (b : Block) (bs : List Block)
    → fits size b ≡ false
    → ((first_fit size (a + b.size + 8) bs).0 ≡ 0) ⊎ Takes size (a + b.size + 8) bs
    → ((first_fit size a (b ∷ bs)).0 ≡ 0) ⊎ Takes size a (b ∷ bs)
unfolding Takes
Takes-later size a b bs no_fit (inl null) =
    inl (ap (λ t. t.0) (first_fit_later size a b bs no_fit) ∙ null)
Takes-later size a b bs no_fit (inr (ps, n, ys, split, room, found)) = inr (
  ps ++ b ∷ [],
  n,
  ys,
  ap (λ t. b ∷ t) split ∙ sym (onto-append ps b (record { size = n; used = false } ∷ ys)),
  room,
  first_fit_later size a b bs no_fit
      ∙ ap (λ t. (t.0, b ∷ t.1)) found
      ∙ ap₂ (λ s t. (s, t)) (omega (arith, extent-append ps b))
          (sym (onto-append ps b (place n (round_even size) ++ ys))),
)

pub first_fit-Takes :
    (size a : ℕ) (bs : List Block)
    → HasRoom size bs
    → ((first_fit size a bs).0 ≡ 0) ⊎ Takes size a bs
unfolding Takes HasRoom onto extent first_fit
first_fit-Takes size a [] room = inl refl
first_fit-Takes size a (b ∷ bs) room = elim (Bool-cases (fits size b)) [
  | inl fit ↦
      let (free, larger) = fits-true size b fit in
      let enough : IsRoom b.size (round_even size) = rw fit at room in
      inr (
        [],
        b.size,
        bs,
        ap (λ t. t ∷ bs) (free_block b free),
        enough,
        first_fit_here size a b bs fit
            ∙ ap (λ t. (t, place b.size (round_even size) ++ bs)) (omega arith),
      )
  | inr no_fit ↦
      let next : HasRoom size bs = rw no_fit at room in
      Takes-later size a b bs no_fit (first_fit-Takes size (a + b.size + 8) bs next)
]

-- The list that `first_fit` leaves, and what `kfree` sees behind the allocated block.
IsBack : ℕ → ℕ → List Block → List Block → Type 0
IsBack n r xs ys =
    (rest : List Block) × (xs ≡ record { size = r; used = true } ∷ rest)
    × (merge_after r rest ≡ (n, ys))

merge_after_kept :
    (n : ℕ) (ys : List Block)
    → Border (record { size = n; used = false }) ys
    → merge_after n ys ≡ (n, ys)
unfolding Border
merge_after_kept n [] border = merge_after_none n
merge_after_kept n (c ∷ cs) (inl free) = absurd (false≢true free)
merge_after_kept n (c ∷ cs) (inr used) = merge_after_used n c cs used

merge_before_kept :
    (ps : List Block) (n : ℕ) (b : Block) (ys : List Block)
    → b.used ≡ false
    → Joint ps (b ∷ ys)
    → merge_before ps n ≡ (ps, n)
unfolding Joint Border
merge_before_kept [] n b ys free joint = merge_before_none n
merge_before_kept (p ∷ ps) n b ys free (inl used) = merge_before_used p ps n used
merge_before_kept (p ∷ ps) n b ys free (inr used) = absurd (true≢false (sym used ∙ free))

place-IsBack :
    (n r : ℕ) (ys : List Block)
    → IsRoom n r
    → Border (record { size = n; used = false }) ys
    → IsBack n r (place n r ++ ys) ys
unfolding IsBack
place-IsBack n r ys (inl eq) border =
    subst (λ t. IsBack n t (place n t ++ ys) ys) eq
      (ys, ap (λ t. t ++ ys) (place_whole n), merge_after_kept n ys border)
place-IsBack n r ys (inr room) border = (
  record { size = n - r - 8; used = false } ∷ ys,
  ap (λ t. t ++ ys) (place_rest n r room),
  merge_after_free r (record { size = n - r - 8; used = false }) ys refl
      ∙ ap (λ t. (t, ys)) (omega (arith, room)),
)

-- `kfree` of the block that first fit took gives back the list of blocks.
coalesce-place :
    (ps : List Block) (n r : ℕ) (ys rest : List Block)
    → IsMerged (onto ps (record { size = n; used = false } ∷ ys))
    → merge_after r rest ≡ (n, ys)
    → coalesce ps r rest ≡ onto ps (record { size = n; used = false } ∷ ys)
unfolding coalesce
coalesce-place ps n r ys rest merged back =
    let before =
      merge_before_kept ps n (record { size = n; used = false }) ys refl
        (onto-Joint ps (record { size = n; used = false } ∷ ys) merged) in
    rw (back, before) refl

-- The block that first fit took, freed.
kfree-Takes :
    (h : Heap) (k : Memory) (size p : ℕ) (bs : List Block)
    → IsMerged bs
    → 0 < h.start
    → h.start + h.size < 2 ^ 64
    → h.size ≤ 2 ^ 16
    → p ≡ (first_fit size h.start bs).0
    → Blocks k h.start (first_fit size h.start bs).1 (h.start + h.size)
    → Takes size h.start bs
    → Blocks (kfree h k p) h.start bs (h.start + h.size)
unfolding Takes IsBack IsMerged
kfree-Takes h k size p bs merged pos lt small pointer after (ps, n, ys, split, room, found) =
    let end = h.start + h.size in
    let r = round_even size in
    let parts = subst IsMerged split merged in
    let border = onto-IsMerged ps (record { size = n; used = false } ∷ ys) parts in
    let (rest, shape, back) = place-IsBack n r ys room border.0 in
    let (freed, same) =
      kfree-coalesce h pos lt small k ps (record { size = r; used = true }) rest
        (subst (λ t. Blocks k h.start t end) (ap (λ t. t.1) found ∙ ap (onto ps) shape) after) in
    subst (λ t. Blocks (kfree h k t) h.start bs end) (sym (pointer ∙ ap (λ t. t.0) found))
      (subst (λ t. Blocks (kfree h k (h.start + extent ps + 4)) h.start t end)
        (coalesce-place ps n r ys rest parts back ∙ sym split) freed)

-- On a heap of at most 2 ^ 16 bytes, from an address above 0 to one below 2 ^ 64, filled by well-formed
-- blocks of which no two free ones stand side by side, and where the first free block that is larger
-- than the requested size either has that size, rounded up to an even number, or at least 8 bytes
-- more: `kalloc` returns with more fuel than there are blocks, and unless it returns 0, `kfree` of the
-- pointer gives back the list of blocks from before.
pub kfree-kalloc :
    (h : Heap) (m : Memory) (size : ℕ) (bs : List Block) (fuel : ℕ)
    → Blocks m h.start bs (h.start + h.size)
    → IsMerged bs
    → HasRoom size bs
    → 0 < h.start
    → h.start + h.size < 2 ^ 64
    → h.size ≤ 2 ^ 16
    → length bs < fuel
    → (p : ℕ) × (k : Memory) × (kalloc fuel h m size ≡ some (p, k))
      × ((p ≡ 0) ⊎ Blocks (kfree h k p) h.start bs (h.start + h.size))
unfolding IsAlloc
kfree-kalloc h m size bs fuel blocks merged room pos lt small enough =
    let ((p, k), returns, (pointer, after, same, zeros)) =
      kalloc-first_fit h m size bs fuel blocks room pos lt enough in
    (
      p,
      k,
      returns,
      elim (first_fit-Takes size h.start bs room) [
        | inl null ↦ inl (pointer ∙ null)
        | inr takes ↦ inr (kfree-Takes h k size p bs merged pos lt small pointer after takes)
      ],
    )
