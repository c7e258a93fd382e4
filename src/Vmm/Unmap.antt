-- ===== src/Vmm/Unmap.antt =====
-- `UnmapPage` and `RemapPage` against the translation of addresses.
use vardar_os.Prelude.{ap, arith, sym, true, ℕ, ◌%◌, ◌*◌, ◌-◌, ◌∙◌, ◌≡◌, ◌≢◌}
use vardar_os.Pmm.{Pmm, frame_size}
use vardar_os.Vmm.{get_page, unmap_page, v_addr_index}
use vardar_os.Vmm.Entry.{v_addr_index-lt}
use vardar_os.Vmm.Tables.{IsTables}
use vardar_os.Vmm.Store.{free_ahead-stored, stored, stored-IsTables}
use vardar_os.Vmm.Map.{
  IsMapped, entry_self, get_page_lem, others_kept, vaddr_to_paddr_lem, walk-stored,
  walk_of_get_page,
}
use vardar_os.Pmm.Ahead.{free_ahead}

-- `UnmapPage` of an address that the tables lead to an entry for succeeds, also where this entry is 0
-- already: the tree stays a tree of
-- tables, the address translates to 0, and each address of another entry as before. No free frame
-- is used.
pub unmap_page-IsMapped :
    {s : Pmm} {level : ℕ → ℕ} (w : IsTables s level) (root vaddr : ℕ)
    → level root ≡ 4
    → get_page s.memory (root * frame_size) vaddr ≢ 0
    → (t : Pmm) × (unmap_page s (root * frame_size) vaddr ≡ (true, t))
      × IsMapped s root vaddr 0 t
      × (free_ahead t ≡ free_ahead s)
unfolding unmap_page
unmap_page-IsMapped {s} {level} w root vaddr at_root ne =
    let (q, run, l) = walk_of_get_page w root vaddr at_root ne in
    let index = v_addr_index vaddr 1 in
    let below = v_addr_index-lt vaddr 1 in
    let entry = get_page_lem w root vaddr at_root q run in
    let tables =
      stored-IsTables w q index 0 (omega arith) below (omega arith) (λ h. absurd (omega arith))
        (λ h. absurd (omega arith)) in
    let found =
      walk-stored w q index 0 vaddr root 3 (q * frame_size) l below (omega arith) at_root run in
    (
      stored s q index 0,
      ground (arith, entry),
      record {
        level = level;
        tables = tables;
        at_root = at_root;
        translates = omega (
          arith,
          vaddr_to_paddr_lem tables root vaddr at_root q found,
          ap (λ (b : ℕ). b - b % 512) (entry_self s q index 0 below (omega arith)),
        );
        entry = λ e. omega (
          arith,
          e,
          get_page_lem tables root vaddr at_root q found,
          w.inside q (omega (arith, l)),
        );
        kept = λ other there.
            let (q', run', l') = walk_of_get_page w root other at_root there in
            get_page_lem tables root other at_root q' (
              walk-stored w q index 0 other root 3 (q' * frame_size) l below (omega arith) at_root
                run')
            ∙ sym (get_page_lem w root other at_root q' run');
        others = λ other there apart.
            others_kept w root vaddr 0 at_root (omega arith) q l run tables other there
              (λ e. apart (e ∙ sym (get_page_lem tables root vaddr at_root q found)));
      },
      free_ahead-stored q index 0 w.valid (w.off_bitmap q (omega arith)) below,
    )
