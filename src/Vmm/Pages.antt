-- ===== src/Vmm/Pages.antt =====
-- Addresses in different pages have different entries in a tree of page tables.
use vardar_os.Prelude.{
  Bool-cases, arith, inl, inr, some, suc, sym, zero, ℕ, ◌%◌, ◌*◌, ◌+◌, ◌/◌, ◌==◌, ◌^◌, ◌∙◌, ◌≡◌,
  ◌≢◌,
}
use vardar_os.Pmm.{Pmm, frame_size}
use vardar_os.Vmm.{get_page, v_addr_index, vaddr_to_paddr, walk}
use vardar_os.Vmm.Entry.{get_page_table_lem, v_addr_index-lt, v_addr_index_lem}
use vardar_os.Vmm.Tables.{IsTables, entry_of}
use vardar_os.Vmm.Map.{IsMapped, get_page_lem, walk_of_get_page}

-- The bits of an address that choose its entry.
abbrev pub page_number : ℕ → ℕ
page_number vaddr = vaddr / 4096 % 2 ^ 36

-- The indices of two addresses are the same at the levels from 2 to `k + 1`.
unfoldable SameIndices : ℕ → ℕ → ℕ → Type 0
SameIndices zero v v' = Unit
SameIndices (suc k) v v' = (v_addr_index v (k + 2) ≡ v_addr_index v' (k + 2)) × SameIndices k v v'

-- Two walks that come to the same table went the same way.
walk-SameIndices :
    {s : Pmm} {level : ℕ → ℕ} (w : IsTables s level) (v v' p p' k q : ℕ)
    → level p ≡ suc k
    → level p' ≡ suc k
    → walk s.memory v (p * frame_size) k ≡ some (q * frame_size)
    → walk s.memory v' (p' * frame_size) k ≡ some (q * frame_size)
    → (p ≡ p') × SameIndices k v v'
unfolding walk SameIndices
walk-SameIndices w v v' p p' zero q e e' run run' = (ground (arith, run, run'), tt)
walk-SameIndices {s} w v v' p p' (suc k) q e e' run run' =
    let i = v_addr_index v (k + 2) in
    let i' = v_addr_index v' (k + 2) in
    let below = v_addr_index-lt v (k + 2) in
    let below' = v_addr_index-lt v' (k + 2) in
    let table = get_page_table_lem s.memory (p * frame_size) i w.valid.bytes in
    let table' = get_page_table_lem s.memory (p' * frame_size) i' w.valid.bytes in
    elim (Bool-cases (entry_of s p i % 2 == 1)) [
      | inl here ↦ elim (Bool-cases (entry_of s p' i' % 2 == 1)) [
        | inl here' ↦
            let (c, at, l) = w.child p i (omega (arith, e)) below (ground (arith, here)) in
            let (c', at', l') = w.child p' i' (omega (arith, e')) below' (ground (arith, here')) in
            let (same, rest) =
              walk-SameIndices w v v' c c' k q (omega (arith, l, e)) (omega (arith, l', e'))
                (ground (arith, table, at, w.inside c, here, l, e, run))
                (ground (arith, table', at', w.inside c', here', l', e', run')) in
            let (parent, index) =
              w.one_parent p i p' i' (omega (arith, e)) below (omega (arith, e')) below'
                (ground (arith, here)) (ground (arith, here')) (omega (arith, at, at', same)) in
            (parent, (index, rest))
        | inr gone ↦ absurd (ground (arith, table', gone, run'))
      ]
      | inr gone ↦ absurd (ground (arith, table, gone, run))
    ]

page_number_of :
    (v v' : ℕ)
    → SameIndices 3 v v'
    → v_addr_index v 1 ≡ v_addr_index v' 1
    → page_number v ≡ page_number v'
unfolding SameIndices
page_number_of v v' (four, (three, (two, last))) one = omega (
  arith,
  four,
  three,
  two,
  one,
  v_addr_index_lem v 4,
  v_addr_index_lem v 3,
  v_addr_index_lem v 2,
  v_addr_index_lem v 1,
  v_addr_index_lem v' 4,
  v_addr_index_lem v' 3,
  v_addr_index_lem v' 2,
  v_addr_index_lem v' 1,
)

-- An entry of the tree belongs to one page only.
pub get_page-page_number :
    {s : Pmm} {level : ℕ → ℕ} (w : IsTables s level) (root v v' : ℕ)
    → level root ≡ 4
    → get_page s.memory (root * frame_size) v ≢ 0
    → get_page s.memory (root * frame_size) v' ≡ get_page s.memory (root * frame_size) v
    → page_number v ≡ page_number v'
get_page-page_number w root v v' at_root ne same =
    let (q, run, l) = walk_of_get_page w root v at_root ne in
    let (q', run', l') = walk_of_get_page w root v' at_root (λ e. ne (sym same ∙ e)) in
    let at = get_page_lem w root v at_root q run in
    let at' = get_page_lem w root v' at_root q' run' in
    let below = v_addr_index-lt v 1 in
    let below' = v_addr_index-lt v' 1 in
    let table : q' ≡ q = omega (arith, at, at', same, below, below') in
    let index : v_addr_index v 1 ≡ v_addr_index v' 1 = omega (arith, at, at', same, table) in
    let (root_same, rest) =
      walk-SameIndices w v v' root root 3 q at_root at_root run (rw (← table) run') in
    page_number_of v v' rest index

-- A mapping leaves the translation of every other page that has an entry.
pub IsMapped-elsewhere :
    {s t : Pmm} (root vaddr paddr : ℕ) (m : IsMapped s root vaddr paddr t) (other : ℕ)
    → get_page s.memory (root * frame_size) other ≢ 0
    → page_number vaddr ≢ page_number other
    → vaddr_to_paddr t.memory (root * frame_size) other
      ≡ vaddr_to_paddr s.memory (root * frame_size) other
IsMapped-elsewhere root vaddr paddr m other ne apart = m.others other ne (λ e.
    apart (get_page-page_number m.tables root vaddr other m.at_root m.entry (m.kept other ne ∙ e)))
