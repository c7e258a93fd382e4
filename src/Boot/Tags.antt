-- ===== src/Boot/Tags.antt =====
-- `stivale2_get_tag` on the list of tags.
use vardar_os.Prelude.{
  List, [], arith, if◌then◌else◌, length, some, suc, zero, ℕ, ◌+◌, ◌<◌, ◌==◌, ◌∷◌, ◌≡◌, ◌≢◌,
}
use vardar_os.Memory.{Memory, read64}
use vardar_os.Boot.{get_tag_from, stivale2_get_tag}

-- The tags from `a` on, by address and identifier, up to the pointer 0.
unfoldable pub IsTags : Memory → ℕ → List (ℕ × ℕ) → Type 0
IsTags m a [] = a ≡ 0
IsTags m a (tag ∷ tags) =
    (a ≢ 0) × (tag.0 ≡ a) × (read64 m a ≡ tag.1) × IsTags m (read64 m (a + 8)) tags

-- The address of the first tag with the identifier, or 0.
unfoldable pub first_tag : ℕ → List (ℕ × ℕ) → ℕ
first_tag id [] = 0
first_tag id (tag ∷ tags) = let rest = first_tag id tags in if tag.1 == id then tag.0 else rest

get_tag_from-first :
    (tags : List (ℕ × ℕ)) (fuel : ℕ) (m : Memory) (id a : ℕ)
    → IsTags m a tags
    → length tags < fuel
    → get_tag_from fuel m id a ≡ some (first_tag id tags)
unfolding get_tag_from IsTags first_tag
get_tag_from-first tags zero m id a is enough = absurd (omega (arith, enough))
get_tag_from-first [] (suc fuel) m id a is enough = ground (arith, is)
get_tag_from-first (tag ∷ tags) (suc fuel) m id a (ne, at, ident, is) enough =
    let ih = get_tag_from-first tags fuel m id (read64 m (a + 8)) is (omega (arith, enough)) in
    ground (arith, ne, at, ident, ih)

-- On a list of tags that ends, `stivale2_get_tag` returns, with more fuel than there are tags, the
-- first tag with the identifier, or NULL where none has it.
pub stivale2_get_tag-first :
    (tags : List (ℕ × ℕ)) (fuel : ℕ) (m : Memory) (stivale2_struct id : ℕ)
    → IsTags m (read64 m (stivale2_struct + 128)) tags
    → length tags < fuel
    → stivale2_get_tag fuel m stivale2_struct id ≡ some (first_tag id tags)
unfolding stivale2_get_tag
stivale2_get_tag-first tags fuel m stivale2_struct id is enough =
    get_tag_from-first tags fuel m id (read64 m (stivale2_struct + 128)) is enough
