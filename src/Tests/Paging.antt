-- ===== src/Tests/Paging.antt =====
-- Frames and page tables on twelve frames: the bitmap stands in page 1, and pages 0 to 2 are used.
use vardar_os.Prelude.{
  ap, arith, false, if◌then◌else◌, inl, inr, none, refl, some, sym, true, ℕ, ◌%◌, ◌*◌, ◌+◌, ◌-◌,
  ◌/◌, ◌<◌, ◌==◌, ◌∙◌, ◌≡◌, ◌≢◌, ◌≤◌, ◌⊎◌,
}
use vardar_os.Memory.{Memory, read64}
use vardar_os.Pmm.{
  Pmm, alloc_contiguous, alloc_first_frame, count_free, first_used, frame_size, page_is_used,
}
use vardar_os.Pmm.Valid.{IsValid}
use vardar_os.Vmm.Tables.{IsTables, entry_of}
use vardar_os.Pmm.Stuck.{NoRun, alloc_contiguous-none}
use vardar_os.Vmm.{
  create_tables, get_page, get_page_flag, get_page_table, map_multiple, map_page, unmap_page,
  v_addr_index, walk,
}
use vardar_os.Vmm.Map.{IsMapped, map_page-IsMapped}
use vardar_os.Memory.Laws.{read64_zero}
use vardar_os.Pmm.Ahead.{TakesAhead, alloc_first_frame_ahead, free_ahead}
use vardar_os.Pmm.Frame.{Allocates, alloc_first_frame_lem}
use vardar_os.Pmm.Contiguous.{IsChunk, alloc_contiguous-IsChunk}
use vardar_os.Vmm.Growth.{Reaches}
use vardar_os.Vmm.Create.{create_tables-Reaches}
use vardar_os.Vmm.Unmap.{unmap_page-IsMapped}
use vardar_os.Vmm.Multiple.{map_multiple-IsRange}
use vardar_os.Vmm.Range.{IsRange}

abbrev pub frames : ℕ → ℕ → Memory → Pmm
frames num_entries last_used m = record {
  mem_map = record {
    num_entries = num_entries;
    last_used = last_used;
    bitmap_size = 2;
    bitmap = 4096;
    mem_size = 0;
    max_blocks = 0;
    uppermost_addr = 0;
    used_blocks = 0;
  };
  memory = m;
}

abbrev pub bitmap_only : Memory
bitmap_only a = if a == 4096 then 7 else 0

abbrev pub booted : Pmm
booted = frames 12 2 bitmap_only

bitmap_page : (k : ℕ) → k < 2 → (4096 + k) / frame_size ≡ 1
bitmap_page k lt = omega (arith, lt)

pub booted-IsValid : IsValid booted
unfolding page_is_used
booted-IsValid = record {
  bytes = λ a. ground arith;
  small = omega arith;
  covers = omega arith;
  last_in = omega arith;
  placed = omega arith;
  reserved = λ k lt. ap (page_is_used booted) (bitmap_page k lt);
}

abbrev root_only : ℕ → ℕ
root_only p = if p == 2 then 4 else 0

root_only-is_root : (p : ℕ) → 0 < root_only p → p ≡ 2
root_only-is_root p h = ground arith

root_empty : (index : ℕ) → index < 512 → entry_of booted 2 index ≡ 0
root_empty index lt = read64_zero bitmap_only (8192 + 8 * index) (λ b p q. ground arith)

booted-IsTables : IsTables booted root_only
unfolding page_is_used
booted-IsTables = record {
  valid = booted-IsValid;
  used = λ p h. ap (page_is_used booted) (root_only-is_root p h);
  inside = λ p h. (omega (arith, root_only-is_root p h), omega (arith, root_only-is_root p h));
  off_bitmap = λ p h k lt. omega (arith, root_only-is_root p h, bitmap_page k lt);
  child = λ p index h lt odd. absurd (
      ground (
        arith,
        odd,
        root_empty index lt,
        root_only-is_root p,
        ap (λ t. entry_of booted t index) (root_only-is_root p (ground (arith, h))),
      ));
  one_parent = λ p index q other h lt h' lt' odd odd' same. absurd (
      ground (
        arith,
        odd,
        root_empty index lt,
        root_only-is_root p,
        ap (λ t. entry_of booted t index) (root_only-is_root p (ground (arith, h))),
      ));
}

booted-free_ahead : free_ahead booted ≡ 9
unfolding count_free page_is_used
booted-free_ahead = refl

map_page-IsMapped_example :
    (t : Pmm) × (map_page 20 booted (2 * 4096) 0x7f1234567000 (6 * 4096) 3 ≡ some (true, t))
    × IsMapped booted 2 0x7f1234567000 (6 * 4096) t
    × (free_ahead booted ≤ free_ahead t + 3)
    × (t.mem_map.num_entries ≡ booted.mem_map.num_entries)
map_page-IsMapped_example =
    map_page-IsMapped booted-IsTables 20 2 0x7f1234567000 6 3 refl (omega arith) (omega arith, refl)
      (omega (arith, booted-free_ahead)) (omega arith)

create_tables-Reaches_example :
    Reaches
      (λ t q. walk t.memory 0x7f1234567000 (2 * 4096) 3 ≡ some (q * 4096))
      booted
      root_only
      1
      3
      (create_tables 20 booted 0x7f1234567000 3 (2 * 4096) 3)
create_tables-Reaches_example =
    create_tables-Reaches 3 booted-IsTables 20 0x7f1234567000 3 2 (omega arith, refl) refl
      (omega (arith, booted-free_ahead)) (omega arith)

alloc_first_frame_lem_example : Allocates booted (alloc_first_frame 12 booted)
alloc_first_frame_lem_example =
    alloc_first_frame_lem 12 booted booted-IsValid (omega arith) (omega arith)

alloc_first_frame_ahead_example : TakesAhead booted (alloc_first_frame 13 booted)
alloc_first_frame_ahead_example =
    alloc_first_frame_ahead 13 booted booted-IsValid (omega (arith, booted-free_ahead))
      (omega arith)

three_pages : (j : ℕ) → 3 ≤ j → j < 6 → (j ≡ 3) ⊎ ((j ≡ 4) ⊎ (j ≡ 5))
three_pages j lo hi = ground arith

next_free : (j : ℕ) → 3 ≤ j → j < 6 → page_is_used booted j ≡ false
unfolding page_is_used
next_free j lo hi = elim (three_pages j lo hi) [
  | inl e ↦ ap (page_is_used booted) e
  | inr (inl e) ↦ ap (page_is_used booted) e
  | inr (inr e) ↦ ap (page_is_used booted) e
]

alloc_contiguous-IsChunk_example :
    (frame : ℕ) × (t : Pmm) × (alloc_contiguous 20 booted 5000 ≡ some (frame, t))
    × IsChunk booted 2 frame t
alloc_contiguous-IsChunk_example =
    alloc_contiguous-IsChunk 20 booted 5000 3 booted-IsValid (omega arith) (omega arith)
      (omega arith) next_free (omega arith)

-- Page tables in pages 2 to 5 for the first address, which leads to page 6.
abbrev tables_only : Memory
tables_only a =
    if a == 4096
    then 127
    else if a == 8192
    then 3
    else if a == 8193
    then 0x30
    else if a == 12288
    then 3
    else if a == 12289
    then 0x40
    else if a == 16384
    then 3
    else if a == 16385
    then 0x50
    else if a == 20480
    then 3
    else if a == 20481
    then 0x60
    else 0

abbrev paged : Pmm
paged = frames 12 6 tables_only

abbrev four_levels : ℕ → ℕ
four_levels p =
    if p == 2 then 4 else if p == 3 then 3 else if p == 4 then 2 else if p == 5 then 1 else 0

paged-IsValid : IsValid paged
unfolding page_is_used
paged-IsValid = record {
  bytes = λ a. ground arith;
  small = omega arith;
  covers = omega arith;
  last_in = omega arith;
  placed = omega arith;
  reserved = λ k lt. ap (page_is_used paged) (bitmap_page k lt);
}

four_pages : (p : ℕ) → 0 < four_levels p → (p ≡ 2) ⊎ ((p ≡ 3) ⊎ ((p ≡ 4) ⊎ (p ≡ 5)))
four_pages p h = ground arith

paged-used : (p : ℕ) → 0 < four_levels p → page_is_used paged p ≡ true
unfolding page_is_used
paged-used p h = elim (four_pages p h) [
  | inl e ↦ ap (page_is_used paged) e
  | inr (inl e) ↦ ap (page_is_used paged) e
  | inr (inr (inl e)) ↦ ap (page_is_used paged) e
  | inr (inr (inr e)) ↦ ap (page_is_used paged) e
]

-- Only entry 0 of a table is present, and it leads to the next page.
only_entry :
    (p index : ℕ) → 0 < four_levels p → index < 512 → entry_of paged p index % 2 ≡ 1 → index ≡ 0
unfolding read64
only_entry p index h lt odd = ground (arith, four_pages p h)

next_table :
    (p : ℕ)
    → 1 < four_levels p
    → entry_of paged p 0 - entry_of paged p 0 % 512 ≡ (p + 1) * frame_size
unfolding read64
next_table p h = elim (four_pages p (omega (arith, h))) [
  | inl e ↦ leads e refl
  | inr (inl e) ↦ leads e refl
  | inr (inr (inl e)) ↦ leads e refl
  | inr (inr (inr e)) ↦ absurd (ground (arith, h, e))
]
  where
    leads :
        {q : ℕ}
        → p ≡ q
        → entry_of paged q 0 - entry_of paged q 0 % 512 ≡ (q + 1) * frame_size
        → entry_of paged p 0 - entry_of paged p 0 % 512 ≡ (p + 1) * frame_size
    leads e at =
        ap (λ t. entry_of paged t 0 - entry_of paged t 0 % 512) e
        ∙ at
        ∙ ap (λ t. (t + 1) * frame_size) (sym e)

paged-IsTables : IsTables paged four_levels
paged-IsTables = record {
  valid = paged-IsValid;
  used = paged-used;
  inside = λ p h. (ground arith, ground arith);
  off_bitmap = λ p h k lt. ground (arith, four_pages p h, bitmap_page k lt);
  child = λ p index h lt odd.
      let e = only_entry p index (omega (arith, h)) lt odd in
      (
        p + 1,
        ap (λ t. entry_of paged p t - entry_of paged p t % 512) e ∙ next_table p h,
        ground arith,
      );
  one_parent = λ p index q other h lt h' lt' odd odd' same.
      let e = only_entry p index (omega (arith, h)) lt odd in
      let e' = only_entry q other (omega (arith, h')) lt' odd' in
      let at = ap (λ t. entry_of paged p t - entry_of paged p t % 512) e ∙ next_table p h in
      let at' = ap (λ t. entry_of paged q t - entry_of paged q t % 512) e' ∙ next_table q h' in
      (omega (arith, at, at', same), e ∙ sym e');
}

paged_entry_at : get_page paged.memory (2 * 4096) 0 ≡ 5 * 4096
unfolding get_page walk get_page_table get_page_flag read64 v_addr_index
paged_entry_at = refl

paged_entry : get_page paged.memory (2 * 4096) 0 ≢ 0
paged_entry e = omega (arith, e, paged_entry_at)

unmap_page-IsMapped_example :
    (t : Pmm) × (unmap_page paged (2 * 4096) 0 ≡ (true, t))
    × IsMapped paged 2 0 0 t
    × (free_ahead t ≡ free_ahead paged)
unmap_page-IsMapped_example = unmap_page-IsMapped paged-IsTables 2 0 refl paged_entry

-- Pages 0, 1, 3 and 4 are used, so that no two pages in a row are free.
abbrev crowded : Pmm
crowded = frames 4 3 (λ a. if a == 4096 then 27 else 0)

crowded-IsValid : IsValid crowded
unfolding page_is_used
crowded-IsValid = record {
  bytes = λ a. ground arith;
  small = omega arith;
  covers = omega arith;
  last_in = omega arith;
  placed = omega arith;
  reserved = λ k lt. ap (page_is_used crowded) (bitmap_page k lt);
}

five_pages : (h : ℕ) → h ≤ 4 → (h ≡ 0) ⊎ ((h ≡ 1) ⊎ ((h ≡ 2) ⊎ ((h ≡ 3) ⊎ (h ≡ 4))))
five_pages h le = ground arith

crowded-NoRun : NoRun crowded 1 crowded-IsValid
unfolding first_used page_is_used
crowded-NoRun h le = elim (five_pages h le) [
  | inl e ↦ (0, ap (λ t. first_used crowded t 2) e, omega arith)
  | inr (inl e) ↦ (1, ap (λ t. first_used crowded t 2) e, omega arith)
  | inr (inr (inl e)) ↦ (3, ap (λ t. first_used crowded t 2) e, omega arith)
  | inr (inr (inr (inl e))) ↦ (3, ap (λ t. first_used crowded t 2) e, omega arith)
  | inr (inr (inr (inr e))) ↦ (4, ap (λ t. first_used crowded t 2) e, omega arith)
]

free_before_last : page_is_used crowded (3 - 1) ≡ false
unfolding page_is_used
free_before_last = refl

alloc_contiguous-none_example : alloc_contiguous 1000000 crowded 1 ≡ none
alloc_contiguous-none_example =
    alloc_contiguous-none 1000000 crowded 1 crowded-IsValid (omega arith) free_before_last
      crowded-NoRun

map_multiple-IsRange_example :
    (t : Pmm) × (map_multiple 3 20 booted (2 * 4096) (7 * 4096) (9 * 4096 - 96) 0x7f1234567000 3
      ≡ some (true, t))
    × IsRange booted 2 7 0x7f1234567000 2 6 t
map_multiple-IsRange_example =
    map_multiple-IsRange booted-IsTables 2 3 20 2 7 (9 * 4096 - 96) 0x7f1234567000 3 6 refl
      (omega arith) (omega arith) (omega arith) (omega arith) (omega arith, refl) refl
      (omega (arith, booted-free_ahead)) (omega arith) (omega arith)
