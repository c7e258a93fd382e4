-- ===== src/Vmm/Create.antt =====
-- `GetOrCreatePageTable` and `CreatePage`: with enough free frames they come down to a table of
-- level 1, and the tree of tables only grows.
use vardar_os.Prelude.{
  Bool-cases, ap, arith, bit_or, inl, inr, refl, some, suc, zero, ℕ, ◌%◌, ◌*◌, ◌+◌, ◌<◌, ◌==◌, ◌^◌,
  ◌∙◌, ◌≡◌, ◌≢◌, ◌≤◌,
}
use vardar_os.Pmm.{Pmm, frame_size}
use vardar_os.Pmm.Valid.{IsValid}
use vardar_os.Pmm.Frame.{IsAllocated}
use vardar_os.Pmm.Ahead.{alloc_first_frame_ahead, free_ahead}
use vardar_os.Vmm.{
  create_tables, entry_at, get_or_create_page_table, get_page_table, link_table, v_addr_index, walk,
}
use vardar_os.Vmm.Entry.{
  frame_or_flags, get_page_flag-present, get_page_table_lem, v_addr_index-lt, without_flags,
}
use vardar_os.Vmm.Growth.{Extends, Extends-refl, Extends-trans, IsFlags, Reaches}
use vardar_os.Vmm.Tables.{IsTables, entry_of}
use vardar_os.Vmm.Store.{
  entry_of-stored, free_ahead-stored, stored, stored-IsTables, stored-IsValid,
}
use vardar_os.Vmm.Grow.{entry_of-table, fresh, unlinked, with_table, with_table-IsTables}
use vardar_os.Memory.Laws.{read64-lt}
use vardar_os.Memory.{IsBytes}

module _ {s : Pmm} {level : ℕ → ℕ} (w : IsTables s level) (fuel flags : ℕ) (flagged : IsFlags flags)
    (p index : ℕ) (below : index < 512) where
  -- Entry `index` of page `p` leads to page `q`.
  abbrev LeadsTo : Pmm → ℕ → Type 0
  LeadsTo t q = get_page_table t.memory (p * frame_size) index ≡ q * frame_size

  -- The frame that `AllocFirstFrame` returned, linked into entry `index` of page `p`.
  pub linked-Reaches :
      (l : ℕ)
      → 0 < l
      → level p ≡ l + 1
      → entry_of s p index % 2 ≢ 1
      → {frame : ℕ} {t : Pmm} → IsValid t
      → (a : IsAllocated s frame t) → free_ahead t + 1 ≡ free_ahead s
      → frame ≢ 0
      → Reaches LeadsTo s level l 1 (some (link_table (p * frame_size) index flags (frame, t)))
  unfolding link_table
  linked-Reaches l pos e absent {frame} {t} valid a ahead ne =
      let page = a.page in
      let new = fresh w a valid in
      let value : bit_or frame flags ≡ page * frame_size + flags =
        ap (λ (x : ℕ). bit_or x flags) a.at_page ∙ frame_or_flags page flags flagged.0 in
      let tables = with_table-IsTables w a valid l (ground (arith, a.at_page)) in
      let other : page ≢ p = λ same. ground (arith, new, same) in
      let small : bit_or frame flags < 2 ^ 64 =
        omega (arith, value, a.inside, w.valid.small, flagged.0) in
      record {
        page = page;
        state = stored t p index (bit_or frame flags);
        level' = with_table level page l;
        returns = ground (arith, a.at_page);
        tables =
            stored-IsTables tables p index (bit_or frame flags) (ground arith) below small
              (λ x y. (page, omega (arith, value, flagged.0), ground arith))
              (λ x y q i lq li here same.
                unlinked w a valid l q i lq li here (same ∙ omega (arith, value, flagged.0)));
        at_level = ground arith;
        leads = ground (
          arith,
          value,
          flagged,
          entry_of-stored t p index (bit_or frame flags) p index below below small,
          get_page_table_lem (stored t p index (bit_or frame flags)).memory (p * frame_size) index
              (stored-IsValid p index (bit_or frame flags) valid
                (tables.off_bitmap p (ground arith)) below).bytes,
        );
        extends = record {
          levels = λ q h. ground (arith, new);
          entries = λ q i h k o. ground (
            arith,
            entry_of-stored t p index (bit_or frame flags) q i below k small,
            entry_of-table w a valid q i h k,
            absent,
          );
          count = ground (arith, a.mem_map);
        };
        ahead = ground (
          arith,
          ahead,
          free_ahead-stored p index (bit_or frame flags) valid (tables.off_bitmap p (ground arith))
              below,
        );
      }

  -- With a free frame ahead, `GetOrCreatePageTable` reaches a table one level down, which
  -- `GetPageTable` then finds.
  pub get_or_create_page_table-Reaches :
      (l : ℕ)
      → 0 < l
      → level p ≡ l + 1
      → 1 ≤ free_ahead s
      → s.mem_map.num_entries < fuel
      → Reaches LeadsTo s level l 1 (get_or_create_page_table fuel s (p * frame_size) index flags)
  unfolding get_or_create_page_table
  get_or_create_page_table-Reaches l pos e room f =
      elim (Bool-cases (entry_of s p index % 2 == 1)) [
        | inl here ↦
            let (c, at, lc) = w.child p index (omega arith) below (ground arith) in
            record {
              page = c;
              state = s;
              level' = level;
              returns = ground (
                arith,
                get_page_flag-present (entry_of s p index),
                without_flags (entry_of s p index)
                    (read64-lt s.memory (entry_at (p * frame_size) index) w.valid.bytes),
                at,
              );
              tables = w;
              at_level = omega arith;
              leads =
                  ground
                    (arith, get_page_table_lem s.memory (p * frame_size) index w.valid.bytes, at);
              extends = Extends-refl s level;
              ahead = omega arith;
            }
        | inr gone ↦
            let (frame, t, run, valid, a, ahead, ne) =
              alloc_first_frame_ahead fuel s w.valid room f in
            let r = linked-Reaches l pos e (ground arith) valid a ahead ne in
            record {
              page = r.page;
              state = r.state;
              level' = r.level';
              returns = ground (arith, get_page_flag-present (entry_of s p index), run, r.returns);
              tables = r.tables;
              at_level = r.at_level;
              leads = r.leads;
              extends = r.extends;
              ahead = r.ahead;
            }
      ]

-- A walk that comes to a table still does in a state that extends the first.
pub walk-Extends :
    {s t : Pmm} {level level' : ℕ → ℕ} (w : IsTables s level) (x : Extends s level t level')
    (bytes : IsBytes t.memory) (vaddr p k r : ℕ)
    → level p ≡ suc k
    → walk s.memory vaddr (p * frame_size) k ≡ some r
    → walk t.memory vaddr (p * frame_size) k ≡ some r
unfolding walk
walk-Extends w x bytes vaddr p zero r e run = run
walk-Extends {s} {t} w x bytes vaddr p (suc k) r e run =
    let index = v_addr_index vaddr (k + 2) in
    let below = v_addr_index-lt vaddr (k + 2) in
    let old = get_page_table_lem s.memory (p * frame_size) index w.valid.bytes in
    let new = get_page_table_lem t.memory (p * frame_size) index bytes in
    elim (Bool-cases (entry_of s p index % 2 == 1)) [
      | inl here ↦
          let (c, at, l) = w.child p index (omega arith) below (ground arith) in
          let rest =
            walk-Extends w x bytes vaddr c k r (omega arith)
              (ground (arith, old, at, w.inside c)) in
          ground (arith, new, x.entries p index, at, w.inside c, rest)
      | inr gone ↦ absurd (ground (arith, old))
    ]

-- With a free frame ahead for each level to go down, `CreatePage` comes to a table of level 1, and a
-- walk then finds it.
pub create_tables-Reaches :
    (k : ℕ) {s : Pmm} {level : ℕ → ℕ} (w : IsTables s level) (fuel vaddr flags p : ℕ)
    → IsFlags flags
    → level p ≡ suc k
    → k ≤ free_ahead s
    → s.mem_map.num_entries < fuel
    → Reaches
        (λ t q. walk t.memory vaddr (p * frame_size) k ≡ some (q * frame_size))
        s
        level
        1
        k
        (create_tables fuel s vaddr flags (p * frame_size) k)
unfolding create_tables walk
create_tables-Reaches zero {s} {level} w fuel vaddr flags p flagged e room f = record {
  page = p;
  state = s;
  level' = level;
  returns = refl;
  tables = w;
  at_level = e;
  leads = refl;
  extends = Extends-refl s level;
  ahead = omega arith;
}
create_tables-Reaches (suc k) {s} {level} w fuel vaddr flags p flagged e room f =
    let index = v_addr_index vaddr (k + 2) in
    let below = v_addr_index-lt vaddr (k + 2) in
    let g =
      get_or_create_page_table-Reaches w fuel flags flagged p index below (suc k) (omega arith)
        (omega arith) (omega arith) f in
    let c =
      create_tables-Reaches k g.tables fuel vaddr flags g.page flagged g.at_level
        (omega (arith, g.ahead)) (omega (arith, g.extends.count)) in
    let kept = c.extends.entries p index in
    let old = get_page_table_lem g.state.memory (p * frame_size) index g.tables.valid.bytes in
    let new = get_page_table_lem c.state.memory (p * frame_size) index c.tables.valid.bytes in
    record {
      page = c.page;
      state = c.state;
      level' = c.level';
      returns = ground (arith, g.returns, g.tables.inside g.page, g.at_level, c.returns);
      tables = c.tables;
      at_level = c.at_level;
      leads = ground (
        arith,
        g.leads,
        g.tables.inside g.page,
        g.at_level,
        old,
        new,
        kept,
        g.extends.levels p,
        c.leads,
      );
      extends = Extends-trans g.extends c.extends;
      ahead = omega (arith, g.ahead, c.ahead);
    }
