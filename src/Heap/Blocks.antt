-- ===== src/Heap/Blocks.antt =====
-- The heap as a list of blocks: their boundary tags in memory, and the walk over them.
use mathlib.Core.Path.{subst}
use vardar_os.Prelude.{
  Bool, List, [], arith, bit_and, if◌then◌else◌, sym, ℕ, ◌%◌, ◌++◌, ◌+◌, ◌<◌, ◌==◌, ◌^◌, ◌∙◌, ◌∷◌,
  ◌≡◌, ◌≤◌,
}
use vardar_os.Bits.{bit_and_field, bit_and_low}
use vardar_os.Memory.{Memory, read32}
use vardar_os.Memory.Laws.{read32_cong}
use vardar_os.Heap.{size_mask}

pub record Block : Type 0 where
  pub size : ℕ
  pub used : Bool

abbrev pub tag : Block → ℕ
tag b = if b.used then b.size + 1 else b.size

-- A size that the mask of a tag keeps: even, and below 2 ^ 16.
abbrev pub IsSize : ℕ → Type 0
IsSize n = (n % 2 ≡ 0) × (n < 2 ^ 16)

-- The blocks lie one after the other in the memory from `a` to `e`, each between two equal tags.
unfoldable pub Blocks : Memory → ℕ → List Block → ℕ → Type 0
Blocks m a [] e = a ≡ e
Blocks m a (b ∷ bs) e =
    (read32 m a ≡ tag b)
    × (read32 m (a + 4 + b.size) ≡ tag b)
    × IsSize b.size
    × Blocks m (a + b.size + 8) bs e

pub Blocks-le : (m : Memory) (a : ℕ) (bs : List Block) (e : ℕ) → Blocks m a bs e → a ≤ e
unfolding Blocks
Blocks-le m a [] e h = omega (arith, h)
Blocks-le m a (b ∷ bs) e h = omega (arith, Blocks-le m (a + b.size + 8) bs e h.3)

pub Blocks-cong :
    (m m' : Memory) (a : ℕ) (bs : List Block) (e : ℕ)
    → Blocks m a bs e
    → ((x : ℕ) → a ≤ x → x < e → m' x ≡ m x)
    → Blocks m' a bs e
unfolding Blocks
Blocks-cong m m' a [] e h same = h
Blocks-cong m m' a (b ∷ bs) e h same =
    let le = Blocks-le m (a + b.size + 8) bs e h.3 in
    (
      read32_cong m m' a (λ x p q. same x (omega arith) (omega arith)) ∙ h.0,
      read32_cong m m' (a + 4 + b.size) (λ x p q. same x (omega arith) (omega arith)) ∙ h.1,
      h.2,
      Blocks-cong m m' (a + b.size + 8) bs e h.3 (λ x p q. same x (omega arith) q),
    )

pub Blocks-append :
    (m : Memory) (a : ℕ) (xs ys : List Block) (c e : ℕ)
    → Blocks m a xs c
    → Blocks m c ys e
    → Blocks m a (xs ++ ys) e
unfolding Blocks
Blocks-append m a [] ys c e h k = subst (λ t. Blocks m t ys e) (sym h) k
Blocks-append m a (b ∷ xs) ys c e h k =
    (h.0, h.1, h.2, Blocks-append m (a + b.size + 8) xs ys c e h.3 k)

-- The mask of a tag gives the size, and bit 0 the used bit.
pub size_mask-tag : (b : Block) → IsSize b.size → bit_and (tag b) size_mask ≡ b.size
size_mask-tag b h = ground (arith, h, bit_and_field 1 15 (tag b))

pub used_mask-tag : (b : Block) → IsSize b.size → (bit_and (tag b) 1 == 1) ≡ b.used
used_mask-tag b h = ground (arith, h, bit_and_low 1 (tag b))
