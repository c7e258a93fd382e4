-- ===== src/Heap/Unique.antt =====
-- The tags in memory determine the list of blocks.
use mathlib.Core.Path.{ap₂, subst}
use vardar_os.Prelude.{List, [], ap, arith, bit_and, refl, sym, ℕ, ◌+◌, ◌==◌, ◌∙◌, ◌∷◌, ◌≡◌}
use vardar_os.Memory.{Memory}
use vardar_os.Heap.Blocks.{Block, Blocks, Blocks-le, IsSize, tag, used_mask-tag}

size-tag : (b c : Block) → IsSize b.size → IsSize c.size → tag b ≡ tag c → b.size ≡ c.size
size-tag b c size_b size_c e = ground (arith, size_b, size_c, e)

used-tag : (b c : Block) → IsSize b.size → IsSize c.size → tag b ≡ tag c → b.used ≡ c.used
used-tag b c size_b size_c e =
    sym (used_mask-tag b size_b) ∙ ap (λ t. bit_and t 1 == 1) e ∙ used_mask-tag c size_c

same_block : (b c : Block) → b.size ≡ c.size → b.used ≡ c.used → b ≡ c
same_block b c size used = ap₂ (λ n u. record { size = n; used = u }) size used

pub Blocks-unique :
    (m : Memory) (a : ℕ) (bs cs : List Block) (e : ℕ) → Blocks m a bs e → Blocks m a cs e → bs ≡ cs
unfolding Blocks
Blocks-unique m a [] [] e left right = refl
Blocks-unique m a [] (c ∷ cs) e left right =
    absurd (omega (arith, left, Blocks-le m (a + c.size + 8) cs e right.3))
Blocks-unique m a (b ∷ bs) [] e left right =
    absurd (omega (arith, right, Blocks-le m (a + b.size + 8) bs e left.3))
Blocks-unique m a (b ∷ bs) (c ∷ cs) e (head, foot, size, rest) (head', foot', size', rest') =
    let equal = sym head ∙ head' in
    let same = same_block b c (size-tag b c size size' equal) (used-tag b c size size' equal) in
    let at = subst (λ t. Blocks m (a + t.size + 8) cs e) (sym same) rest' in
    ap₂ (λ t ts. t ∷ ts) same (Blocks-unique m (a + b.size + 8) bs cs e rest at)
