-- ===== src/Vmm/Present.antt =====
-- `MapPage` of an address whose tables are there already, and the addresses that share their tables.
use vardar_os.Prelude.{
  Bool-cases, arith, bit_or, inl, inr, refl, some, suc, sym, true, zero, ℕ, ◌%◌, ◌*◌, ◌+◌, ◌/◌, ◌<◌,
  ◌==◌, ◌^◌, ◌∙◌, ◌≡◌, ◌≢◌,
}
use vardar_os.Memory.{Memory}
use vardar_os.Memory.Laws.{read64-lt}
use vardar_os.Pmm.{Pmm, frame_size}
use vardar_os.Pmm.Ahead.{free_ahead}
use vardar_os.Vmm.{
  create_page, create_tables, entry_at, get_or_create_page_table, get_page, get_page_table,
  map_page, store_entry, v_addr_index, walk,
}
use vardar_os.Vmm.Entry.{
  get_page_flag-present, get_page_table_lem, v_addr_index-lt, v_addr_index_lem, without_flags,
}
use vardar_os.Vmm.Growth.{Extends-refl, IsFlags}
use vardar_os.Vmm.Store.{free_ahead-stored, stored}
use vardar_os.Vmm.Tables.{IsTables, entry_of}
use vardar_os.Vmm.Map.{IsMapped, get_page_lem, mapped, walk_of_get_page}

-- Where a walk comes to a table, `CreatePage` comes to it too and changes nothing.
create_tables-walk :
    (k : ℕ) {s : Pmm} {level : ℕ → ℕ} (w : IsTables s level) (fuel vaddr flags p r : ℕ)
    → level p ≡ suc k
    → walk s.memory vaddr (p * frame_size) k ≡ some r
    → create_tables fuel s vaddr flags (p * frame_size) k ≡ some (r, s)
unfolding create_tables walk get_or_create_page_table
create_tables-walk zero w fuel vaddr flags p r e run = ground (arith, run)
create_tables-walk (suc k) {s} w fuel vaddr flags p r e run =
    let index = v_addr_index vaddr (k + 2) in
    let below = v_addr_index-lt vaddr (k + 2) in
    let table = get_page_table_lem s.memory (p * frame_size) index w.valid.bytes in
    elim (Bool-cases (entry_of s p index % 2 == 1)) [
      | inl here ↦
          let (c, at, l) = w.child p index (omega (arith, e)) below (ground (arith, here)) in
          let rest =
            create_tables-walk k w fuel vaddr flags c r (omega (arith, l, e))
              (ground (arith, table, at, w.inside c, here, l, e, run)) in
          ground (
            arith,
            get_page_flag-present (entry_of s p index),
            without_flags (entry_of s p index)
                (read64-lt s.memory (entry_at (p * frame_size) index) w.valid.bytes),
            here,
            at,
            w.inside c,
            l,
            e,
            rest,
          )
      | inr gone ↦ absurd (ground (arith, table, gone, run))
    ]

-- `MapPage` of an address that has an entry takes no frame.
pub map_page-again :
    {s : Pmm} {level : ℕ → ℕ} (w : IsTables s level) (fuel root vaddr frame flags : ℕ)
    → level root ≡ 4
    → frame * frame_size + flags < 2 ^ 64
    → IsFlags flags
    → get_page s.memory (root * frame_size) vaddr ≢ 0
    → (t : Pmm) × (map_page fuel s (root * frame_size) vaddr (frame * frame_size) flags
        ≡ some (true, t))
      × IsMapped s root vaddr (frame * frame_size) t
      × (free_ahead t ≡ free_ahead s)
      × (t.mem_map.num_entries ≡ s.mem_map.num_entries)
unfolding map_page create_page store_entry
map_page-again {s} {level} w fuel root vaddr frame flags at_root fits flagged there =
    let (q, run, l) = walk_of_get_page w root vaddr at_root there in
    let index = v_addr_index vaddr 1 in
    let v = bit_or (frame * frame_size) flags in
    let found = create_tables-walk 3 w fuel vaddr flags root (q * frame_size) at_root run in
    (
      stored s q index v,
      ground (arith, found, w.inside q, l),
      mapped w root vaddr frame flags at_root fits flagged w (Extends-refl s level) q l run,
      free_ahead-stored q index v w.valid (w.off_bitmap q (omega arith)) (v_addr_index-lt vaddr 1),
      refl,
    )

-- Two addresses in the same 2 MB have the same indices above the lowest level.
v_addr_index_cong :
    (v v' k : ℕ)
    → v / 2 ^ 21 % 2 ^ 27 ≡ v' / 2 ^ 21 % 2 ^ 27
    → k < 3
    → v_addr_index v (k + 2) ≡ v_addr_index v' (k + 2)
v_addr_index_cong v v' zero same small =
    omega (arith, v_addr_index_lem v 2, v_addr_index_lem v' 2, same)
v_addr_index_cong v v' (suc zero) same small =
    omega (arith, v_addr_index_lem v 3, v_addr_index_lem v' 3, same)
v_addr_index_cong v v' (suc (suc zero)) same small =
    omega (arith, v_addr_index_lem v 4, v_addr_index_lem v' 4, same)
v_addr_index_cong v v' (suc (suc (suc k))) same small = absurd (omega (arith, small))

walk_cong :
    (m : Memory) (v v' table k : ℕ)
    → v / 2 ^ 21 % 2 ^ 27 ≡ v' / 2 ^ 21 % 2 ^ 27
    → k < 4
    → walk m v table k ≡ walk m v' table k
unfolding walk
walk_cong m v v' table zero same small = refl
walk_cong m v v' table (suc k) same small =
    let index = v_addr_index_cong v v' k same (omega (arith, small)) in
    rw
      (
        walk,
        index,
        walk_cong m v v' (get_page_table m table (v_addr_index v' (k + 2))) k same
            (omega (arith, small)),
      )
      refl

-- Where an address has an entry, all addresses in the same 2 MB have one.
pub get_page-same_tables :
    {s : Pmm} {level : ℕ → ℕ} (w : IsTables s level) (root v v' : ℕ)
    → level root ≡ 4
    → v / 2 ^ 21 % 2 ^ 27 ≡ v' / 2 ^ 21 % 2 ^ 27
    → get_page s.memory (root * frame_size) v ≢ 0
    → get_page s.memory (root * frame_size) v' ≢ 0
get_page-same_tables {s} w root v v' at_root same there gone =
    let (q, run, l) = walk_of_get_page w root v at_root there in
    let run' = walk_cong s.memory v' v (root * frame_size) 3 (sym same) (omega arith) ∙ run in
    omega (arith, gone, get_page_lem w root v' at_root q run', w.inside q (omega (arith, l)))
