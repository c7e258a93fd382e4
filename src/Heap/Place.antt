-- ===== src/Heap/Place.antt =====
-- What `kalloc` makes of the block that it takes.
use vardar_os.Prelude.{
  List, [], ap, arith, false, if◌then◌else◌, inl, inr, lt→ltb, refl, sym, true, ℕ, ◌+◌, ◌-◌, ◌<◌,
  ◌==◌, ◌^◌, ◌∙◌, ◌∷◌, ◌≡◌, ◌≤◌, ◌⊎◌,
}
use vardar_os.Memory.{Memory, read32, write32}
use vardar_os.Memory.Laws.{
  Apart, read32-write32, read32-write32-Apart, read32_cong, write32_outside,
}
use vardar_os.Utils.String.{memset}
use vardar_os.Utils.String.Copy.{memset_lem}
use vardar_os.Heap.Blocks.{Block, Blocks, IsSize}
use vardar_os.Heap.{Heap, kalloc_at, round_even}
use vardar_os.Heap.Split.{size_at_head, split_block_rest, split_block_whole, split_tags}

-- The blocks that an allocation of `r` bytes leaves of a block of `n` bytes: a used one, and a free
-- one with the rest.
unfoldable pub place : ℕ → ℕ → List Block
place n r =
    if n == r
    then record { size = n; used = true } ∷ []
    else record { size = r; used = true } ∷ record { size = n - r - 8; used = false } ∷ []

-- The rest is nothing, or enough for the two tags of a block.
abbrev pub IsRoom : ℕ → ℕ → Type 0
IsRoom n r = (n ≡ r) ⊎ (r + 8 ≤ n)

-- The changed memory `k`: the blocks `bs` in it, the zeros of the new body, and the rest of memory.
abbrev pub IsPlaced : Memory → Memory → ℕ → ℕ → ℕ → List Block → Type 0
IsPlaced m k a n r bs =
    Blocks k a bs (a + n + 8)
    × ((i : ℕ) → i < r → k (a + 4 + i) ≡ 0)
    × ((x : ℕ) → (x < a) ⊎ (a + n + 8 ≤ x) → k x ≡ m x)

memset-Apart : (m : Memory) (a r b : ℕ) → Apart a r b 4 → read32 (memset m a 0 r) b ≡ read32 m b
memset-Apart m a r b apart =
    read32_cong m (memset m a 0 r) b (λ x p q. ground (arith, apart, memset_lem r m a 0 x))

IsPlaced-whole :
    (m : Memory) (a n : ℕ)
    → IsSize n
    → IsPlaced m
        (memset (write32 (write32 m a (n + 1)) (a + 4 + n) (n + 1)) (a + 4) 0 n)
        a
        n
        n
        (record { size = n; used = true } ∷ [])
unfolding Blocks
IsPlaced-whole m a n size =
    let m1 = write32 m a (n + 1) in
    let m2 = write32 m1 (a + 4 + n) (n + 1) in
    let head = read32-write32 m a (n + 1) (omega arith) in
    let head2 = read32-write32-Apart m1 (a + 4 + n) a (n + 1) (inr (omega arith)) in
    let foot2 = read32-write32 m1 (a + 4 + n) (n + 1) (omega arith) in
    (
      (
        memset-Apart m2 (a + 4) n a (inr (omega arith)) ∙ head2 ∙ head,
        memset-Apart m2 (a + 4) n (a + 4 + n) (inl (omega arith)) ∙ foot2,
        size,
        refl,
      ),
      (λ i lt. ground (arith, memset_lem n m2 (a + 4) 0 (a + 4 + i))),
      (λ x out. ground (
        arith,
        memset_lem n m2 (a + 4) 0 x,
        write32_outside m1 (a + 4 + n) (n + 1) x,
        write32_outside m a (n + 1) x,
      )),
    )

IsPlaced-rest :
    (m : Memory) (a n r : ℕ)
    → IsSize n
    → IsSize r
    → r + 8 ≤ n
    → IsPlaced m
        (memset (split_tags m a n r) (a + 4) 0 r)
        a
        n
        r
        (record { size = r; used = true } ∷ record { size = n - r - 8; used = false } ∷ [])
unfolding Blocks split_tags
IsPlaced-rest m a n r size_n size_r room =
    let m1 = write32 m a (r + 1) in
    let m2 = write32 m1 (a + 4 + r) (r + 1) in
    let m3 = write32 m2 (a + r + 8) (n - r - 8) in
    let m4 = write32 m3 (a + 4 + n) (n - r - 8) in
    let head : read32 m4 a ≡ r + 1 =
      read32-write32-Apart m3 (a + 4 + n) a (n - r - 8) (inr (omega arith))
      ∙ read32-write32-Apart m2 (a + r + 8) a (n - r - 8) (inr (omega arith))
      ∙ read32-write32-Apart m1 (a + 4 + r) a (r + 1) (inr (omega arith))
      ∙ read32-write32 m a (r + 1) (omega arith) in
    let foot : read32 m4 (a + 4 + r) ≡ r + 1 =
      read32-write32-Apart m3 (a + 4 + n) (a + 4 + r) (n - r - 8) (inr (omega arith))
      ∙ read32-write32-Apart m2 (a + r + 8) (a + 4 + r) (n - r - 8) (inr (omega arith))
      ∙ read32-write32 m1 (a + 4 + r) (r + 1) (omega arith) in
    let rest_head : read32 m4 (a + r + 8) ≡ n - r - 8 =
      read32-write32-Apart m3 (a + 4 + n) (a + r + 8) (n - r - 8) (inr (omega arith))
      ∙ read32-write32 m2 (a + r + 8) (n - r - 8) (omega arith) in
    let rest_foot : read32 m4 (a + 4 + n) ≡ n - r - 8 =
      read32-write32 m3 (a + 4 + n) (n - r - 8) (omega arith) in
    let foot_at : a + r + 8 + 4 + (n - r - 8) ≡ a + 4 + n = omega arith in
    (
      (
        memset-Apart m4 (a + 4) r a (inr (omega arith)) ∙ head,
        memset-Apart m4 (a + 4) r (a + 4 + r) (inl (omega arith)) ∙ foot,
        size_r,
        (
          memset-Apart m4 (a + 4) r (a + r + 8) (inl (omega arith)) ∙ rest_head,
          ap (read32 (memset m4 (a + 4) 0 r)) foot_at
              ∙ memset-Apart m4 (a + 4) r (a + 4 + n) (inl (omega arith))
              ∙ rest_foot,
          (omega arith, omega arith),
          omega arith,
        ),
      ),
      (λ i lt. ground (arith, memset_lem r m4 (a + 4) 0 (a + 4 + i))),
      (λ x out. ground (
        arith,
        memset_lem r m4 (a + 4) 0 x,
        write32_outside m3 (a + 4 + n) (n - r - 8) x,
        write32_outside m2 (a + r + 8) (n - r - 8) x,
        write32_outside m1 (a + 4 + r) (r + 1) x,
        write32_outside m a (r + 1) x,
      )),
    )

pub place_whole : (n : ℕ) → place n n ≡ (record { size = n; used = true } ∷ [])
unfolding place
place_whole n = ground arith

pub place_rest :
    (n r : ℕ)
    → r + 8 ≤ n
    → place n r
      ≡ (record { size = r; used = true } ∷ record { size = n - r - 8; used = false } ∷ [])
unfolding place
place_rest n r room = ground (arith, room)

-- `kalloc` at a free block that the allocation leaves nothing or enough of.
pub kalloc_at-IsPlaced :
    (h : Heap) (m : Memory) (a n size r : ℕ)
    → round_even size ≡ r
    → read32 m a ≡ n
    → IsSize n
    → IsSize r
    → IsRoom n r
    → 0 < a
    → a + n + 8 ≤ h.start + h.size
    → h.start + h.size < 2 ^ 64
    → ((kalloc_at h m size a).0 ≡ a + 4) × IsPlaced m (kalloc_at h m size a).1 a n r (place n r)
unfolding kalloc_at
kalloc_at-IsPlaced h m a n size r even head size_n size_r (inl eq) pos fits lt =
    let below = lt→ltb a (h.start + h.size) (omega arith) in
    let e = even ∙ sym eq in
    let split =
      split_block_whole h m a n (size_at_head m a n n head (inl refl) size_n) size_n pos fits lt in
    rw (below, e, split, ← eq, place_whole n) (refl, IsPlaced-whole m a n size_n)
kalloc_at-IsPlaced h m a n size r even head size_n size_r (inr room) pos fits lt =
    let below = lt→ltb a (h.start + h.size) (omega arith) in
    let split =
      split_block_rest h m a n r (size_at_head m a n n head (inl refl) size_n) size_n size_r room
        pos fits lt in
    rw (below, even, split, place_rest n r room) (refl, IsPlaced-rest m a n r size_n size_r room)
