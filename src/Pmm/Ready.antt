-- ===== src/Pmm/Ready.antt =====
-- `InitPmm` establishes the invariant of the bitmap.
use vardar_os.Pmm.Valid.{IsValid}
use vardar_os.Prelude.{
  Bool-cases, List, [], ap, arith, false, inl, inr, int_pattern, not, refl, some, suc, true, u32,
  zero, ℕ, ◌%◌, ◌&&◌, ◌*◌, ◌+◌, ◌-◌, ◌/◌, ◌<◌, ◌==◌, ◌^◌, ◌∙◌, ◌∷◌, ◌≡◌, ◌≢◌, ◌≤◌, ◌⊎◌,
}
use vardar_os.Pmm.{
  MemMap, MmapEntry, Pmm, find_mem_entry_by_size, frame_size, init_pmm, page_is_used,
  release_entries, release_entry, set_free_from, set_page_free, uppermost_usable_addr, usable_page,
}
use vardar_os.Utils.Misc.Laws.{round_up}
use vardar_os.Pmm.Init.{
  all_used, bitmap_bytes, init_pmm-found, is_released, memset-IsBytes, page_is_used-all_used,
  release_entries-IsBytes,
}
use vardar_os.Memory.{IsBytes}

-- Every usable entry starts behind page 0, and at most at page `num`.
unfoldable pub AllBelow : ℕ → List MmapEntry → Type 0
AllBelow num [] = Unit
AllBelow num (e ∷ entries) =
    ((e.kind ≢ usable_page) ⊎ ((0 < e.base / frame_size) × (e.base / frame_size ≤ num)))
    × (e.base < 2 ^ 64)
    × AllBelow num entries

set_free_from-mem_map : (n : ℕ) (s : Pmm) (i : ℕ) → (set_free_from s i n).mem_map ≡ s.mem_map
unfolding set_free_from set_page_free
set_free_from-mem_map zero s i = refl
set_free_from-mem_map (suc n) s i = set_free_from-mem_map n (set_page_free s i) (i + 1)

-- What releasing entries leaves of the map: all but the last used page, which stays below `num`.
unfoldable pub IsKept : ℕ → MemMap → MemMap → Type 0
IsKept num a b =
    (b.num_entries ≡ a.num_entries)
    × (b.bitmap_size ≡ a.bitmap_size)
    × (b.bitmap ≡ a.bitmap)
    × (b.last_used < num)

release_entry-IsKept :
    (s : Pmm) (e : MmapEntry) (num : ℕ)
    → s.mem_map.last_used < num
    → 0 < e.base / frame_size
    → e.base / frame_size ≤ num
    → e.base < 2 ^ 64
    → IsKept num s.mem_map (release_entry s e).mem_map
unfolding release_entry IsKept
release_entry-IsKept s e num lt pos le word =
    let same =
      set_free_from-mem_map
        (e.base / frame_size + e.length / frame_size - int_pattern (e.base / frame_size)) s
        (int_pattern (e.base / frame_size)) in
    elim (Bool-cases (s.mem_map.last_used == 0)) [
      | inl unset ↦ rw (same, unset) (refl, refl, refl, omega (arith, pos, le, word))
      | inr set ↦ rw (same, set) (refl, refl, refl, lt)
    ]

pub release_entries-IsKept :
    (entries : List MmapEntry) (s : Pmm) (num skipped i : ℕ)
    → s.mem_map.last_used < num
    → AllBelow num entries
    → IsKept num s.mem_map (release_entries s skipped i entries).mem_map
unfolding release_entries IsKept AllBelow
release_entries-IsKept [] s num skipped i lt all = (refl, refl, refl, lt)
release_entries-IsKept (e ∷ entries) s num skipped i lt (below, word, all) =
    elim (Bool-cases (e.kind == usable_page && not (i == skipped))) [
      | inl released ↦
          let (pos, le) : (0 < e.base / frame_size) × (e.base / frame_size ≤ num) = elim below [
            | inl unusable ↦ absurd (ground (arith, released, unusable))
            | inr range ↦ range
          ] in
          let (count, size, bitmap, last) = release_entry-IsKept s e num lt pos le word in
          let (count', size', bitmap', last') =
            release_entries-IsKept entries (release_entry s e) num skipped (i + 1) last all in
          rw (release_entries, released) (count' ∙ count, size' ∙ size, bitmap' ∙ bitmap, last')
      | inr other ↦
          rw (release_entries, other) (release_entries-IsKept entries s num skipped (i + 1) lt all)
    ]

-- The size of the bitmap against the number of pages: a multiple of 4096 bytes, and of more bits than
-- there are pages, unless the bytes needed for them are a multiple of 4096 already.
pub bitmap_bytes-covers :
    (entries : List MmapEntry)
    → uppermost_usable_addr entries < 2 ^ 43
    → uppermost_usable_addr entries / frame_size / 8 % 4096 ≢ 0
    → (bitmap_bytes entries % 4096 ≡ 0)
      × (uppermost_usable_addr entries / frame_size < 8 * bitmap_bytes entries)
bitmap_bytes-covers entries small uneven =
    let need = uppermost_usable_addr entries / frame_size / 8 in
    let (even, above, below) = round_up (u32 need) 12 (omega arith) (omega (arith, small)) in
    (omega (arith, even, above, below, small), omega (arith, even, above, below, small, uneven))

-- On a map of memory with an entry for the bitmap, whose usable entries start between page 1 and the
-- last usable page, whose entry for the bitmap ends with the usable memory at the latest, and of
-- which no other usable entry has a page of the bitmap, `InitPmm` establishes the invariant of the
-- bitmap, if the usable memory ends below 2 ^ 43 and the bytes that a bit for each page takes are no
-- multiple of 4096.
pub init_pmm-IsValid :
    (s : Pmm) (entries : List MmapEntry) (k : ℕ) (e : MmapEntry)
    → IsBytes s.memory
    → s.mem_map.last_used ≡ 0
    → find_mem_entry_by_size entries 0 (bitmap_bytes entries) ≡ some (k, e)
    → uppermost_usable_addr entries < 2 ^ 43
    → uppermost_usable_addr entries / frame_size / 8 % 4096 ≢ 0
    → AllBelow (uppermost_usable_addr entries / frame_size) entries
    → e.base + bitmap_bytes entries ≤ uppermost_usable_addr entries + 1
    → ((x : ℕ)
        → x < bitmap_bytes entries
        → is_released k 0 entries ((e.base + x) / frame_size) ≡ false)
    → (t : Pmm) × (init_pmm s entries ≡ (true, t)) × IsValid t
unfolding IsKept
init_pmm-IsValid s entries k e bytes fresh found small uneven all ends apart =
    let num = uppermost_usable_addr entries / frame_size in
    let start = all_used s entries e in
    let t = release_entries start k 0 entries in
    let (even, covers) = bitmap_bytes-covers entries small uneven in
    let (count, size, bitmap, last) =
      release_entries-IsKept entries start num k 0 (omega (arith, fresh, uneven)) all in
    let filled = memset-IsBytes (bitmap_bytes entries) s.memory e.base (2 ^ 32 - 1) bytes in
    (
      t,
      init_pmm-found s entries k e found,
      record {
        bytes = release_entries-IsBytes entries start k 0 filled;
        small = omega (arith, count, small);
        covers = omega (arith, count, size, covers);
        last_in = omega (arith, count, last);
        placed = omega (arith, bitmap, size, covers, ends);
        reserved = λ x lt.
            let in_size : x < bitmap_bytes entries = omega (arith, lt, size) in
            let page : (t.mem_map.bitmap + x) / frame_size ≡ (e.base + x) / frame_size =
              ap (λ (b : ℕ). (b + x) / frame_size) bitmap in
            ap (page_is_used t) page
            ∙ page_is_used-all_used s entries k e ((e.base + x) / frame_size) bytes
                (omega (arith, in_size, ends, covers))
            ∙ ap not (apart x in_size);
      },
    )
