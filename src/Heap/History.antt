-- ===== src/Heap/History.antt =====
-- The heap over any sequence of calls of `kalloc` and `kfree`.
use mathlib.Core.Path.{subst}
use vardar_os.Heap.Place.{IsRoom, place, place_rest, place_whole}
use vardar_os.Heap.Unique.{Blocks-unique}
use vardar_os.Heap.RoundTrip.{Takes, first_fit-Takes, first_fit_here, first_fit_later}
use vardar_os.Heap.Kfree.{kfree-coalesce}
use vardar_os.Heap.Free.{coalesce}
use vardar_os.Heap.Zipper.{extent, onto}
use mathlib.Core.Option.{map-eq-some_iff, some-injective}
use vardar_os.Prelude.{
  Bool-cases, List, [], ap, arith, false, inl, inr, length, refl, some, suc, sym, true, zero, ℕ,
  ◌++◌, ◌+◌, ◌-◌, ◌<◌, ◌^◌, ◌∙◌, ◌∷◌, ◌≡◌, ◌≤◌,
}
use vardar_os.Memory.{Memory}
use vardar_os.Heap.{Heap, kalloc, kalloc_at, kalloc_scan, kfree, mdata_size, round_even, size_at}
use vardar_os.Heap.Alloc.{HasRoom, IsAlloc, first_fit, fits, kalloc-first_fit}
use vardar_os.Heap.Blocks.{Block, Blocks}
use vardar_os.Heap.Merged.{
  Border-any, Border-used, IsMerged, IsMerged-onto, Joint-used, coalesce-IsMerged, onto-IsMerged,
}

-- More fuel does not change what the scan returns.
kalloc_scan_more :
    (f g : ℕ) (h : Heap) (m : Memory) (size a x : ℕ)
    → kalloc_scan f h m size a ≡ some x
    → f ≤ g
    → kalloc_scan g h m size a ≡ some x
unfolding kalloc_scan
kalloc_scan_more zero g h m size a x found le = ground (arith, found)
kalloc_scan_more (suc f) zero h m size a x found le = absurd (omega (arith, le))
kalloc_scan_more (suc f) (suc g) h m size a x found le =
    let ih = kalloc_scan_more f g h m size (a + size_at m a + mdata_size) x in
    ground (arith, found, ih, le)

kalloc_more :
    (f g : ℕ) (h : Heap) (m : Memory) (size : ℕ) (r : ℕ × Memory)
    → kalloc f h m size ≡ some r
    → f ≤ g
    → kalloc g h m size ≡ some r
unfolding kalloc
kalloc_more f g h m size r found le =
    let (x, e, at) =
      (map-eq-some_iff (kalloc_at h m size) (kalloc_scan f h m size h.start)).0 found in
    (map-eq-some_iff (kalloc_at h m size) (kalloc_scan g h m size h.start)).1
      (x, kalloc_scan_more f g h m size h.start x e le, at)

-- One call: `kalloc` where the block that it takes has room, and `kfree` of the pointer of a block.
pub data HeapStep (h : Heap) : Memory → Memory → Type 0 where
  allocate :
      {m k : Memory} (fuel size p : ℕ) (bs : List Block)
      → Blocks m h.start bs (h.start + h.size)
      → HasRoom size bs
      → kalloc fuel h m size ≡ some (p, k)
      → HeapStep h m k
  release :
      {m : Memory} (ps : List Block) (b : Block) (ys : List Block)
      → Blocks m h.start (onto ps (b ∷ ys)) (h.start + h.size)
      → HeapStep h m (kfree h m (h.start + extent ps + 4))

pub data HeapRun (h : Heap) (m : Memory) : Memory → Type 0 where
  here : HeapRun h m m
  next : {k l : Memory} → HeapRun h m k → HeapStep h k l → HeapRun h m l

-- The invariant: the tags in memory are those of some blocks, no two free ones side by side.
unfoldable pub IsTidy : Heap → Memory → Type 0
IsTidy h m = (bs : List Block) × Blocks m h.start bs (h.start + h.size) × IsMerged bs

first_fit_null :
    (size a : ℕ) (bs : List Block) → (first_fit size a bs).0 ≡ 0 → (first_fit size a bs).1 ≡ bs
unfolding first_fit
first_fit_null size a [] null = refl
first_fit_null size a (b ∷ bs) null =
    let ih = first_fit_null size (a + b.size + 8) bs in
    elim (Bool-cases (fits size b)) [
      | inl fit ↦
          absurd (omega (arith, sym (ap (λ t. t.0) (first_fit_here size a b bs fit)) ∙ null))
      | inr no_fit ↦
          ap (λ t. t.1) (first_fit_later size a b bs no_fit)
          ∙ ap (λ t. b ∷ t) (ih (sym (ap (λ t. t.0) (first_fit_later size a b bs no_fit)) ∙ null))
    ]

place-IsMerged :
    (ps : List Block) (n r : ℕ) (ys : List Block)
    → IsMerged (onto ps (record { size = n; used = false } ∷ ys))
    → IsRoom n r
    → IsMerged (onto ps (place n r ++ ys))
unfolding IsMerged
place-IsMerged ps n r ys merged (inl eq) =
    let (border, behind) = onto-IsMerged ps (record { size = n; used = false } ∷ ys) merged in
    subst (λ t. IsMerged (onto ps (place n t ++ ys))) eq
      (rw (place_whole n) (
        IsMerged-onto ps (record { size = n; used = false } ∷ ys)
          (record { size = n; used = true } ∷ ys) merged
          (Joint-used ps (record { size = n; used = true }) ys refl)
          (Border-used (record { size = n; used = true }) ys refl, behind)))
place-IsMerged ps n r ys merged (inr room) =
    let (border, behind) = onto-IsMerged ps (record { size = n; used = false } ∷ ys) merged in
    rw (place_rest n r room) (
      IsMerged-onto ps (record { size = n; used = false } ∷ ys)
        (record { size = r; used = true } ∷ record { size = n - r - 8; used = false } ∷ ys) merged
        (Joint-used ps (record { size = r; used = true })
          (record { size = n - r - 8; used = false } ∷ ys) refl)
        (
          Border-used (record { size = r; used = true })
              (record { size = n - r - 8; used = false } ∷ ys) refl,
          (Border-any n (n - r - 8) ys border, behind),
        ))

first_fit-IsMerged :
    (size a : ℕ) (bs : List Block)
    → IsMerged bs
    → HasRoom size bs
    → IsMerged (first_fit size a bs).1
unfolding Takes
first_fit-IsMerged size a bs merged room = elim (first_fit-Takes size a bs room) [
  | inl null ↦ subst IsMerged (sym (first_fit_null size a bs null)) merged
  | inr (ps, n, ys, split, fits_n, found) ↦
      subst IsMerged (sym (ap (λ t. t.1) found))
        (place-IsMerged ps n (round_even size) ys (subst IsMerged split merged) fits_n)
]

module _ (h : Heap) (pos : 0 < h.start) (lt : h.start + h.size < 2 ^ 64)
    (small : h.size ≤ 2 ^ 16) where
  HeapStep-IsTidy : {m k : Memory} → HeapStep h m k → IsTidy h m → IsTidy h k
  unfolding IsTidy IsAlloc
  HeapStep-IsTidy {m} {k} (allocate fuel size p bs blocks room returns) (cs, blocks', merged) =
      let same = Blocks-unique m h.start cs bs (h.start + h.size) blocks' blocks in
      let more = fuel + length bs + 1 in
      let ((p', k'), returns', (pointer, after, same_before, zeros)) =
        kalloc-first_fit h m size bs more blocks room pos lt (omega arith) in
      let equal =
        some-injective (p', k') (p, k)
          (sym returns' ∙ kalloc_more fuel more h m size (p, k) returns (omega arith)) in
      (
        (first_fit size h.start bs).1,
        subst (λ t. Blocks t.1 h.start (first_fit size h.start bs).1 (h.start + h.size)) equal
            after,
        first_fit-IsMerged size h.start bs (subst IsMerged same merged) room,
      )
  HeapStep-IsTidy {m} (release ps b ys blocks) (cs, blocks', merged) =
      let same = Blocks-unique m h.start cs (onto ps (b ∷ ys)) (h.start + h.size) blocks' blocks in
      (
        coalesce ps b.size ys,
        (kfree-coalesce h pos lt small m ps b ys blocks).0,
        coalesce-IsMerged ps b ys (subst IsMerged same merged),
      )

  -- After any sequence of calls of `kalloc` that leave nothing or a block's tags of the block they take,
  -- and of `kfree` of blocks, the tags of a heap of at most 2 ^ 16 bytes are those of blocks of which
  -- no two free ones stand side by side, if they were so before.
  pub HeapRun-IsTidy : {m k : Memory} → HeapRun h m k → IsTidy h m → IsTidy h k
  HeapRun-IsTidy here tidy = tidy
  HeapRun-IsTidy (next run step) tidy = HeapStep-IsTidy step (HeapRun-IsTidy run tidy)
