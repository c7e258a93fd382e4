-- ===== src/Pmm/Usable.antt =====
-- The frames that are handed out after `InitPmm`.
use vardar_os.Prelude.{
  Bool, List, [], ap, arith, false, inl, inr, int_pattern, not, refl, some, sym, true, ℕ, ◌%◌, ◌*◌,
  ◌+◌, ◌/◌, ◌<◌, ◌^◌, ◌∙◌, ◌∷◌, ◌≡◌, ◌≢◌, ◌≤◌,
}
use vardar_os.Memory.{IsBytes}
use vardar_os.Pmm.{
  MmapEntry, Pmm, find_mem_entry_by_size, frame_size, init_pmm, page_is_used, release_entries,
  uppermost_usable_addr,
}
use vardar_os.Pmm.Init.{all_used, bitmap_bytes, init_pmm-found, is_released, page_is_used-all_used}
use vardar_os.Pmm.Ready.{
  AllBelow, IsKept, bitmap_bytes-covers, init_pmm-IsValid, release_entries-IsKept,
}
use vardar_os.Pmm.History.{FrameRun, FrameRun-IsShared, IsShared, holds}

-- Where usable entries start behind page 0, page 0 is not released.
is_released-zero :
    (entries : List MmapEntry) (num skipped i : ℕ)
    → num < 2 ^ 31
    → AllBelow num entries
    → is_released skipped i entries 0 ≡ false
unfolding is_released AllBelow
is_released-zero [] num skipped i small all = refl
is_released-zero (e ∷ entries) num skipped i small (below, word, all) =
    let rest = is_released-zero entries num skipped (i + 1) small all in
    elim below [
      | inl unusable ↦ ground (arith, unusable, rest)
      | inr (pos, le) ↦
          let first : int_pattern (e.base / frame_size) ≡ e.base / frame_size =
            ground (arith, le, small) in
          ground (arith, first, pos, rest)
    ]

-- On a map of memory with an entry for the bitmap, whose usable entries start between page 1 and the
-- last usable page, whose entry for the bitmap ends with the usable memory at the latest, and of
-- which no other usable entry has a page of the bitmap, if the usable memory ends below 2 ^ 43 and
-- the bytes that a bit for each page takes are no multiple of 4096: `InitPmm` succeeds, and over any
-- sequence of calls of `AllocFirstFrame` and `FreeFrame` from there, the first while the last used
-- page is not the last of all, the second for pages that are held, the bitmap stays valid, no page is
-- held twice, and every page that is held lies in a usable entry other than the one of the bitmap.
pub init_pmm-FrameRun :
    (s : Pmm) (entries : List MmapEntry) (k : ℕ) (e : MmapEntry)
    → IsBytes s.memory
    → s.mem_map.last_used ≡ 0
    → find_mem_entry_by_size entries 0 (bitmap_bytes entries) ≡ some (k, e)
    → uppermost_usable_addr entries < 2 ^ 43
    → uppermost_usable_addr entries / frame_size / 8 % 4096 ≢ 0
    → AllBelow (uppermost_usable_addr entries / frame_size) entries
    → e.base + bitmap_bytes entries ≤ uppermost_usable_addr entries + 1
    → ((x : ℕ)
        → x < bitmap_bytes entries
        → is_released k 0 entries ((e.base + x) / frame_size) ≡ false)
    → (t : Pmm) × (init_pmm s entries ≡ (true, t))
      × ((held : List ℕ) (u : Pmm)
          → FrameRun t held u
          → IsShared t held u × ((j : ℕ) → holds j held ≡ true → is_released k 0 entries j ≡ true))
unfolding IsKept
init_pmm-FrameRun s entries k e bytes fresh found small uneven all ends apart =
    let (t, runs, valid) =
      init_pmm-IsValid s entries k e bytes fresh found small uneven all ends apart in
    let t_is : release_entries (all_used s entries e) k 0 entries ≡ t =
      ap (λ (r : Bool × Pmm). r.1) (sym (init_pmm-found s entries k e found) ∙ runs) in
    let (even, covers) = bitmap_bytes-covers entries small uneven in
    let pages : (j : ℕ)
        → j < 8 * bitmap_bytes entries
        → page_is_used t j ≡ not (is_released k 0 entries j) =
      λ j lt.
        ap (λ u. page_is_used u j) (sym t_is) ∙ page_is_used-all_used s entries k e j bytes lt in
    let count : t.mem_map.num_entries ≡ uppermost_usable_addr entries / frame_size =
      ap (λ (u : Pmm). u.mem_map.num_entries) (sym t_is)
      ∙ (release_entries-IsKept entries (all_used s entries e)
          (uppermost_usable_addr entries / frame_size) k 0 (omega (arith, fresh, uneven)) all).0 in
    let zero_used : page_is_used t 0 ≡ true =
      pages 0 (omega (arith, covers))
      ∙ ap not (
          is_released-zero entries (uppermost_usable_addr entries / frame_size) k 0
            (omega (arith, small)) all) in
    (
      t,
      runs,
      λ held u run.
          let shared = FrameRun-IsShared t valid zero_used run in
          (
            shared,
            λ j at.
                let (inside, unused) = shared.unused_before j at in
                ground (arith, unused, pages j (omega (arith, inside, count, covers))),
          ),
    )
