-- ===== src/Heap/Alloc.antt =====
-- `kalloc` over the whole heap, against its description on the list of blocks.
use mathlib.Core.Option
use vardar_os.Prelude.{
  Bool, Bool-cases, List, [], ap, arith, bit_and, false, if◌then◌else◌, inl, inr, length, ltb, not,
  refl, some, suc, true, zero, ℕ, ◌&&◌, ◌++◌, ◌+◌, ◌<◌, ◌==◌, ◌^◌, ◌∙◌, ◌∷◌, ◌≡◌, ◌≢◌,
}
use vardar_os.Memory.{Memory, read32}
use vardar_os.Heap.{
  Heap, is_used_at, kalloc, kalloc_at, kalloc_scan, round_even, size_at, size_mask,
}
use vardar_os.Heap.Blocks.{
  Block, Blocks, Blocks-append, Blocks-le, Blocks-cong, IsSize, size_mask-tag, used_mask-tag,
}
use vardar_os.Heap.Place.{IsRoom, kalloc_at-IsPlaced, place}
use vardar_os.Memory.Laws.{read32_cong}

-- A free block that is larger than the requested size.
abbrev pub fits : ℕ → Block → Bool
fits size b = not b.used && ltb size b.size

-- First fit: the pointer, 0 if no block fits, and the blocks afterwards, from the address `a` on.
unfoldable pub first_fit : ℕ → ℕ → List Block → ℕ × List Block
unfolding place
first_fit size a [] = (0, [])
first_fit size a (b ∷ bs) =
    let (pointer, rest) = first_fit size (a + b.size + 8) bs in
    if fits size b then (a + 4, place b.size (round_even size) ++ bs) else (pointer, b ∷ rest)

-- The block that first fit takes, if there is one, has room.
unfoldable pub HasRoom : ℕ → List Block → Type 0
HasRoom size [] = Unit
HasRoom size (b ∷ bs) = if fits size b then IsRoom b.size (round_even size) else HasRoom size bs

-- Where the scan stops.
unfoldable stop : ℕ → ℕ → List Block → ℕ
stop size a [] = a
stop size a (b ∷ bs) = if fits size b then a else stop size (a + b.size + 8) bs

kalloc_scan_lem :
    (h : Heap) (m : Memory) (size a : ℕ) (bs : List Block) (fuel : ℕ)
    → Blocks m a bs (h.start + h.size)
    → length bs < fuel
    → kalloc_scan fuel h m size a ≡ some (stop size a bs)
unfolding kalloc_scan Blocks stop is_used_at size_at
kalloc_scan_lem h m size a bs zero blocks lt = absurd (omega arith)
kalloc_scan_lem h m size a [] (suc fuel) blocks lt = ground (arith, blocks)
kalloc_scan_lem h m size a (b ∷ bs) (suc fuel) blocks lt =
    let below = Blocks-le m (a + b.size + 8) bs (h.start + h.size) blocks.3 in
    let next = ap (λ t. bit_and t size_mask) blocks.0 ∙ size_mask-tag b blocks.2 in
    let used = ap (λ t. bit_and t 1 == 1) blocks.0 ∙ used_mask-tag b blocks.2 in
    let ih = kalloc_scan_lem h m size (a + b.size + 8) bs fuel blocks.3 (omega arith) in
    ground (arith, below, next, used, blocks.0, ih)

-- What `kalloc_at` leaves, where the scan stopped on the blocks from `a`: the pointer and the blocks
-- of first fit, the memory before `a`, and zeros in the new body.
unfoldable pub IsAlloc : Heap → Memory → ℕ → ℕ → List Block → ℕ × Memory → Type 0
IsAlloc h m size a bs (p, k) =
    (p ≡ (first_fit size a bs).0)
    × Blocks k a (first_fit size a bs).1 (h.start + h.size)
    × ((x : ℕ) → x < a → k x ≡ m x)
    × (p ≢ 0 → (i : ℕ) → i < round_even size → k (p + i) ≡ 0)

round_even-IsSize : (size n : ℕ) → size < n → IsSize n → IsSize (round_even size)
round_even-IsSize size n lt h = (ground arith, ground arith)

kalloc_at_end :
    (h : Heap) (m : Memory) (size a : ℕ) → a ≡ h.start + h.size → kalloc_at h m size a ≡ (0, m)
unfolding kalloc_at
kalloc_at_end h m size a e = ground (arith, e)

pub fits-true : (size : ℕ) (b : Block) → fits size b ≡ true → (b.used ≡ false) × (size < b.size)
fits-true size b h = (ground (arith, h), ground (arith, h))

kalloc_at-IsAlloc :
    (h : Heap) (m : Memory) (size a : ℕ) (bs : List Block)
    → Blocks m a bs (h.start + h.size)
    → HasRoom size bs
    → 0 < a
    → h.start + h.size < 2 ^ 64
    → IsAlloc h m size a bs (kalloc_at h m size (stop size a bs))
unfolding IsAlloc Blocks first_fit stop HasRoom
kalloc_at-IsAlloc h m size a [] blocks room pos lt =
    rw (kalloc_at_end h m size a blocks) (refl, blocks, (λ x p. refl), (λ ne. absurd (ne refl)))
kalloc_at-IsAlloc h m size a (b ∷ bs) blocks room pos lt = elim (Bool-cases (fits size b)) [
  | inl fit ↦
      let (free, larger) = fits-true size b fit in
      let enough : IsRoom b.size (round_even size) = rw fit at room in
      let below = Blocks-le m (a + b.size + 8) bs (h.start + h.size) blocks.3 in
      let head : read32 m a ≡ b.size = ground (arith, blocks.0, free) in
      let even = round_even-IsSize size b.size larger blocks.2 in
      let (pointer, (placed, zeros, same)) =
        kalloc_at-IsPlaced h m a b.size size (round_even size) refl head blocks.2 even enough pos
          below lt in
      let after =
        Blocks-cong m (kalloc_at h m size a).1 (a + b.size + 8) bs (h.start + h.size) blocks.3
          (λ x p q. same x (inr p)) in
      rw fit (
        pointer,
        Blocks-append (kalloc_at h m size a).1 a (place b.size (round_even size)) bs
            (a + b.size + 8) (h.start + h.size) placed after,
        (λ x p. same x (inl p)),
        (λ ne i p. ap (λ t. (kalloc_at h m size a).1 (t + i)) pointer ∙ zeros i p),
      )
  | inr no_fit ↦
      let next : HasRoom size bs = rw no_fit at room in
      let (pointer, after, same, zeros) =
        kalloc_at-IsAlloc h m size (a + b.size + 8) bs blocks.3 next (omega arith) lt in
      let k = (kalloc_at h m size (stop size (a + b.size + 8) bs)).1 in
      rw no_fit (
        pointer,
        (
          read32_cong m k a (λ x p q. same x (omega arith)) ∙ blocks.0,
          read32_cong m k (a + 4 + b.size) (λ x p q. same x (omega arith)) ∙ blocks.1,
          blocks.2,
          after,
        ),
        (λ x p. same x (omega arith)),
        zeros,
      )
]

-- On a heap of well-formed blocks from an address above 0 to one below 2 ^ 64, whose first free block
-- that is larger than the requested size either has that size, rounded up to an even number, or at
-- least 8 bytes more, `kalloc` ends with more fuel than there are blocks; it returns the pointer of the
-- first free block that is larger than the requested size, or 0 if there is none, so that a free block of
-- exactly this size is passed over; the memory holds the blocks of this choice, and has not
-- changed before the heap; and the allocated body is zero.
pub kalloc-first_fit :
    (h : Heap) (m : Memory) (size : ℕ) (bs : List Block) (fuel : ℕ)
    → Blocks m h.start bs (h.start + h.size)
    → HasRoom size bs
    → 0 < h.start
    → h.start + h.size < 2 ^ 64
    → length bs < fuel
    → (r : ℕ × Memory) × (kalloc fuel h m size ≡ some r) × IsAlloc h m size h.start bs r
unfolding kalloc
kalloc-first_fit h m size bs fuel blocks room pos lt enough = (
  kalloc_at h m size (stop size h.start bs),
  ap (Option.map (kalloc_at h m size)) (kalloc_scan_lem h m size h.start bs fuel blocks enough),
  kalloc_at-IsAlloc h m size h.start bs blocks room pos lt,
)
