-- ===== src/Heap/Zipper.antt =====
-- The list of blocks seen from one block: those before it, the nearest first, and those behind it.
use mathlib.Core.Path.{subst}
use vardar_os.Prelude.{List, [], arith, false, inl, inr, sym, ℕ, ◌+◌, ◌<◌, ◌∙◌, ◌∷◌, ◌≡◌, ◌≤◌}
use vardar_os.Memory.{Memory, read32}
use vardar_os.Memory.Laws.{read32_cong}
use vardar_os.Heap.Blocks.{Block, Blocks, Blocks-cong, IsSize, tag}
use vardar_os.Heap.Merge.{IsFree}

-- The blocks `ps`, the nearest first, fill the memory from `s` up to `a`.
unfoldable pub Before : Memory → ℕ → List Block → ℕ → Type 0
Before m s [] a = s ≡ a
Before m s (p ∷ ps) a =
    (c : ℕ) × (c + p.size + 8 ≡ a)
    × (read32 m c ≡ tag p)
    × (read32 m (c + 4 + p.size) ≡ tag p)
    × IsSize p.size
    × Before m s ps c

-- The list of all blocks, from the first on.
unfoldable pub onto : List Block → List Block → List Block
onto [] bs = bs
onto (p ∷ ps) bs = onto ps (p ∷ bs)

-- The bytes that a list of blocks takes, tags included.
unfoldable pub extent : List Block → ℕ
extent [] = 0
extent (b ∷ bs) = b.size + 8 + extent bs

pub Before-le : (m : Memory) (s : ℕ) (ps : List Block) (a : ℕ) → Before m s ps a → s ≤ a
unfolding Before
Before-le m s [] a h = omega (arith, h)
Before-le m s (p ∷ ps) a (c, at, head, foot, size, rest) =
    omega (arith, at, Before-le m s ps c rest)

pub Before-cong :
    (m k : Memory) (s : ℕ) (ps : List Block) (a : ℕ)
    → Before m s ps a
    → ((x : ℕ) → s ≤ x → x < a → k x ≡ m x)
    → Before k s ps a
unfolding Before
Before-cong m k s [] a h same = h
Before-cong m k s (p ∷ ps) a (c, at, head, foot, size, rest) same =
    let le = Before-le m s ps c rest in
    (
      c,
      at,
      read32_cong m k c (λ x p q. same x (omega arith) (omega arith)) ∙ head,
      read32_cong m k (c + 4 + p.size) (λ x p q. same x (omega arith) (omega arith)) ∙ foot,
      size,
      Before-cong m k s ps c rest (λ x p q. same x p (omega arith)),
    )

pub Blocks-onto :
    (m : Memory) (s : ℕ) (ps : List Block) (a : ℕ) (bs : List Block) (e : ℕ)
    → Before m s ps a
    → Blocks m a bs e
    → Blocks m s (onto ps bs) e
unfolding Before onto Blocks
Blocks-onto m s [] a bs e before blocks = subst (λ t. Blocks m t bs e) (sym before) blocks
Blocks-onto m s (p ∷ ps) a bs e (c, at, head, foot, size, rest) blocks =
    Blocks-onto m s ps c (p ∷ bs) e rest
      (head, foot, size, subst (λ t. Blocks m t bs e) (sym at) blocks)

-- Seen from the block behind `ps`, which lies `extent ps` bytes from the start.
pub onto-Blocks :
    (m : Memory) (s : ℕ) (ps bs : List Block) (e : ℕ)
    → Blocks m s (onto ps bs) e
    → Before m s ps (s + extent ps) × Blocks m (s + extent ps) bs e
unfolding Before onto Blocks extent
onto-Blocks m s [] bs e blocks = (omega arith, subst (λ t. Blocks m t bs e) (omega arith) blocks)
onto-Blocks m s (p ∷ ps) bs e blocks =
    let (before, (head, foot, size, behind)) = onto-Blocks m s ps (p ∷ bs) e blocks in
    let at : s + extent ps + p.size + 8 ≡ s + (p.size + 8 + extent ps) = omega arith in
    ((s + extent ps, at, head, foot, size, before), subst (λ t. Blocks m t bs e) at behind)

-- A free block in place of what stood between `a` and the blocks `ys`.
pub IsFree-between :
    (m k : Memory) (s : ℕ) (ps : List Block) (a n : ℕ) (ys : List Block) (e : ℕ)
    → IsFree m k a n
    → Before m s ps a
    → Blocks m (a + n + 8) ys e
    → Before k s ps a × Blocks k a (record { size = n; used = false } ∷ ys) e
unfolding Blocks
IsFree-between m k s ps a n ys e ((head, foot, size, end), same) before blocks = (
  Before-cong m k s ps a before (λ x p q. same x (inl q)),
  (head, foot, size, Blocks-cong m k (a + n + 8) ys e blocks (λ x p q. same x (inr p))),
)
