-- ===== src/Vmm/Map.antt =====
-- `MapPage` and `UnmapPage` against the translation of addresses that `VAddrToPAddr` computes.
use vardar_os.Prelude.{
  Bool-cases, Option-cases, ap, arith, bit_or, inl, inr, some, suc, sym, true, zero, ℕ, ◌%◌, ◌*◌,
  ◌+◌, ◌-◌, ◌<◌, ◌==◌, ◌^◌, ◌∙◌, ◌≡◌, ◌≢◌, ◌≤◌,
}
use vardar_os.Pmm.{Pmm, frame_size}
use vardar_os.Vmm.{
  create_page, entry_at, get_page, map_page, store_entry, v_addr_index, vaddr_to_paddr, walk,
}
use vardar_os.Vmm.Entry.{frame_or_flags, get_page_table_lem, v_addr_index-lt, without_flags}
use vardar_os.Vmm.Tables.{IsTables, entry_of, walk-level}
use vardar_os.Vmm.Store.{
  entry_of-stored, free_ahead-stored, stored, stored-IsTables, stored-IsValid,
}
use vardar_os.Memory.Laws.{read64-lt}
use vardar_os.Pmm.Ahead.{free_ahead}
use vardar_os.Vmm.Growth.{Extends, IsFlags}
use vardar_os.Vmm.Create.{create_tables-Reaches, walk-Extends}

-- The state after a mapping of `vaddr`: a tree of tables again, which has an entry for `vaddr` and
-- translates it to `paddr`; the entries of all addresses stay, and those that have another entry are
-- translated as before.
pub record IsMapped (s : Pmm) (root vaddr paddr : ℕ) (t : Pmm) : Type 0 where
  pub level : ℕ → ℕ
  pub tables : IsTables t level
  pub at_root : level root ≡ 4
  pub translates : vaddr_to_paddr t.memory (root * frame_size) vaddr ≡ paddr
  pub entry : get_page t.memory (root * frame_size) vaddr ≢ 0
  pub kept :
      (other : ℕ)
      → get_page s.memory (root * frame_size) other ≢ 0
      → get_page t.memory (root * frame_size) other ≡ get_page s.memory (root * frame_size) other
  pub others :
      (other : ℕ)
      → get_page s.memory (root * frame_size) other ≢ 0
      → get_page s.memory (root * frame_size) other ≢ get_page t.memory (root * frame_size) vaddr
      → vaddr_to_paddr t.memory (root * frame_size) other
        ≡ vaddr_to_paddr s.memory (root * frame_size) other

-- A store to a table of level 1 changes no walk.
pub walk-stored :
    {s : Pmm} {level : ℕ → ℕ} (w : IsTables s level) (q index v vaddr p k r : ℕ)
    → level q ≡ 1
    → index < 512
    → v < 2 ^ 64
    → level p ≡ suc k
    → walk s.memory vaddr (p * frame_size) k ≡ some r
    → walk (stored s q index v).memory vaddr (p * frame_size) k ≡ some r
unfolding walk
walk-stored w q index v vaddr p zero r l h fits e run = run
walk-stored {s} w q index v vaddr p (suc k) r l h fits e run =
    let i = v_addr_index vaddr (k + 2) in
    let below = v_addr_index-lt vaddr (k + 2) in
    let old = get_page_table_lem s.memory (p * frame_size) i w.valid.bytes in
    let new =
      get_page_table_lem (stored s q index v).memory (p * frame_size) i
        (stored-IsValid q index v w.valid (w.off_bitmap q (omega arith)) h).bytes in
    let other : q ≢ p = λ same. ground (arith, same) in
    let kept = entry_of-stored s q index v p i h below fits in
    elim (Bool-cases (entry_of s p i % 2 == 1)) [
      | inl here ↦
          let (c, at, lc) = w.child p i (omega arith) below (ground arith) in
          let rest =
            walk-stored w q index v vaddr c k r l h fits (omega arith)
              (ground (arith, old, at, w.inside c)) in
          ground (arith, new, kept, other, at, w.inside c, rest)
      | inr gone ↦ absurd (ground (arith, old))
    ]

module _ {s : Pmm} {level : ℕ → ℕ} (w : IsTables s level) (root vaddr : ℕ)
    (at_root : level root ≡ 4) where
  -- Where the walk comes to page `q`, the entry and the translation are read there.
  pub get_page_lem :
      (q : ℕ)
      → walk s.memory vaddr (root * frame_size) 3 ≡ some (q * frame_size)
      → get_page s.memory (root * frame_size) vaddr
        ≡ entry_at (q * frame_size) (v_addr_index vaddr 1)
  unfolding get_page
  get_page_lem q run = rw (run, get_page)

  pub vaddr_to_paddr_lem :
      (q : ℕ)
      → walk s.memory vaddr (root * frame_size) 3 ≡ some (q * frame_size)
      → vaddr_to_paddr s.memory (root * frame_size) vaddr
        ≡ entry_of s q (v_addr_index vaddr 1) - entry_of s q (v_addr_index vaddr 1) % 512
  unfolding vaddr_to_paddr
  vaddr_to_paddr_lem q run =
      let e = entry_of s q (v_addr_index vaddr 1) in
      rw (run, vaddr_to_paddr) (without_flags e (read64-lt s.memory _ w.valid.bytes))

  -- A mapped entry comes from a walk to a table of level 1.
  pub walk_of_get_page :
      get_page s.memory (root * frame_size) vaddr ≢ 0
      → (q : ℕ) × (walk s.memory vaddr (root * frame_size) 3 ≡ some (q * frame_size))
        × (level q ≡ 1)
  unfolding get_page
  walk_of_get_page ne = elim (Option-cases (walk s.memory vaddr (root * frame_size) 3)) [
    | inl gone ↦ absurd (ne (rw (gone, get_page)))
    | inr (r, run) ↦ let (q, e, l) = walk-level w vaddr root 3 at_root run in (q, rw e at run, l)
  ]

pub entry_self :
    (c : Pmm) (q index v : ℕ) → index < 512 → v < 2 ^ 64 → entry_of (stored c q index v) q index ≡ v
entry_self c q index v h fits = ground (arith, entry_of-stored c q index v q index h h fits)

-- The translation of an address of another entry survives a store to a table of level 1.
pub others_kept :
    {s : Pmm} {level : ℕ → ℕ} (w : IsTables s level) (root vaddr v : ℕ) (at_root : level root ≡ 4)
    → v < 2 ^ 64
    → (q : ℕ) → level q ≡ 1
    → walk s.memory vaddr (root * frame_size) 3 ≡ some (q * frame_size)
    → IsTables (stored s q (v_addr_index vaddr 1) v) level
    → (other : ℕ) → get_page s.memory (root * frame_size) other ≢ 0
    → get_page s.memory (root * frame_size) other ≢ entry_at (q * frame_size) (v_addr_index vaddr 1)
    → vaddr_to_paddr (stored s q (v_addr_index vaddr 1) v).memory (root * frame_size) other
      ≡ vaddr_to_paddr s.memory (root * frame_size) other
others_kept {s} w root vaddr v at_root small q l run tables other ne apart =
    let (q', run', l') = walk_of_get_page w root other at_root ne in
    let index = v_addr_index vaddr 1 in
    let i' = v_addr_index other 1 in
    let below = v_addr_index-lt vaddr 1 in
    let found' =
      walk-stored w q index v other root 3 (q' * frame_size) l below small at_root run' in
    vaddr_to_paddr_lem tables root other at_root q' found'
    ∙ ap (λ (b : ℕ). b - b % 512)
        (ground (
          arith,
          entry_of-stored s q index v q' i' below (v_addr_index-lt other 1) small,
          get_page_lem w root other at_root q' run',
        ))
    ∙ sym (vaddr_to_paddr_lem w root other at_root q' run')

-- The store of `MapPage`, in a state `c` that `CreatePage` came to from `s`.
pub mapped :
    {s : Pmm} {level : ℕ → ℕ} (w : IsTables s level) (root vaddr frame flags : ℕ)
    → level root ≡ 4
    → frame * frame_size + flags < 2 ^ 64
    → IsFlags flags
    → {c : Pmm} {level' : ℕ → ℕ} (w' : IsTables c level') (x : Extends s level c level') → (q : ℕ)
    → level' q ≡ 1
    → walk c.memory vaddr (root * frame_size) 3 ≡ some (q * frame_size)
    → IsMapped s root vaddr
        (frame * frame_size)
        (stored c q (v_addr_index vaddr 1) (bit_or (frame * frame_size) flags))
mapped {s} {level} w root vaddr frame flags at_root fits flagged {c} {level'} w' x q l run =
    let index = v_addr_index vaddr 1 in
    let below = v_addr_index-lt vaddr 1 in
    let value = frame_or_flags frame flags flagged.0 in
    let v = bit_or (frame * frame_size) flags in
    let small : v < 2 ^ 64 = omega (arith, value) in
    let at_root' : level' root ≡ 4 = omega (arith, x.levels root) in
    let tables =
      stored-IsTables w' q index v (omega arith) below small (λ h. absurd (omega arith))
        (λ h. absurd (omega arith)) in
    let found = walk-stored w' q index v vaddr root 3 (q * frame_size) l below small at_root' run in
    record {
      level = level';
      tables = tables;
      at_root = at_root';
      translates = omega (
        arith,
        vaddr_to_paddr_lem tables root vaddr at_root' q found,
        ap (λ (b : ℕ). b - b % 512) (entry_self c q index v below small),
        value,
        flagged.0,
      );
      entry = λ e.
          omega
            (arith, e, get_page_lem tables root vaddr at_root' q found, w'.inside q (omega arith));
      kept = λ other ne.
          let (q', run', l') = walk_of_get_page w root other at_root ne in
          let kept = walk-Extends w x w'.valid.bytes other root 3 (q' * frame_size) at_root run' in
          let found' =
            walk-stored w' q index v other root 3 (q' * frame_size) l below small at_root' kept in
          get_page_lem tables root other at_root' q' found'
          ∙ sym (get_page_lem w root other at_root q' run');
      others = λ other ne apart.
          let (q', run', l') = walk_of_get_page w root other at_root ne in
          let i' = v_addr_index other 1 in
          let kept = walk-Extends w x w'.valid.bytes other root 3 (q' * frame_size) at_root run' in
          let found' =
            walk-stored w' q index v other root 3 (q' * frame_size) l below small at_root' kept in
          vaddr_to_paddr_lem tables root other at_root' q' found'
          ∙ ap (λ (b : ℕ). b - b % 512)
              (ground (
                arith,
                entry_of-stored c q index v q' i' below (v_addr_index-lt other 1) small,
                x.entries q' i',
                v_addr_index-lt other 1,
                get_page_lem w root other at_root q' run',
                get_page_lem tables root vaddr at_root' q found,
              ))
          ∙ sym (vaddr_to_paddr_lem w root other at_root q' run');
    }

-- In a tree of page tables with three free frames ahead, `MapPage` of an aligned frame succeeds.
-- Afterwards the tree is a tree of tables, `VAddrToPAddr` translates the address to the frame, and
-- translates as before each address that had another entry; at most three of the frames ahead are
-- used.
pub map_page-IsMapped :
    {s : Pmm} {level : ℕ → ℕ} (w : IsTables s level) (fuel root vaddr frame flags : ℕ)
    → level root ≡ 4
    → frame * frame_size + flags < 2 ^ 64
    → IsFlags flags
    → 3 ≤ free_ahead s
    → s.mem_map.num_entries < fuel
    → (t : Pmm) × (map_page fuel s (root * frame_size) vaddr (frame * frame_size) flags
        ≡ some (true, t))
      × IsMapped s root vaddr (frame * frame_size) t
      × (free_ahead s ≤ free_ahead t + 3)
      × (t.mem_map.num_entries ≡ s.mem_map.num_entries)
unfolding map_page create_page store_entry
map_page-IsMapped {s} w fuel root vaddr frame flags at_root fits flagged room f =
    let c = create_tables-Reaches 3 w fuel vaddr flags root flagged at_root room f in
    let table : 0 < c.level' c.page = omega (arith, c.at_level) in
    (
      stored c.state c.page (v_addr_index vaddr 1) (bit_or (frame * frame_size) flags),
      ground (arith, c.returns, c.tables.inside c.page, c.at_level),
      mapped w root vaddr frame flags at_root fits flagged c.tables c.extends c.page c.at_level
          c.leads,
      omega (
        arith,
        c.ahead,
        free_ahead-stored c.page (v_addr_index vaddr 1) (bit_or (frame * frame_size) flags)
            c.tables.valid (c.tables.off_bitmap c.page table) (v_addr_index-lt vaddr 1),
      ),
      c.extends.count,
    )
