-- ===== src/Vmm/Grow.antt =====
-- A fresh frame in the tree of tables: the tree is kept by the allocation, and by the entry that
-- links the frame in.
use mathlib.Core.Path.{subst}
use vardar_os.Prelude.{
  Bool-cases, arith, if◌then◌else◌, inl, inr, ℕ, ◌%◌, ◌*◌, ◌+◌, ◌-◌, ◌/◌, ◌<◌, ◌==◌, ◌≡◌, ◌≢◌, ◌≤◌,
  ◌⊎◌,
}
use vardar_os.Memory.Laws.{read64_cong, read64_zero}
use vardar_os.Pmm.{Pmm, frame_size}
use vardar_os.Pmm.Valid.{IsValid}
use vardar_os.Pmm.Frame.{IsAllocated}
use vardar_os.Vmm.{entry_at}
use vardar_os.Vmm.Tables.{IsTables, OffBitmap, entry_of}

-- `level` with the new table of level `l` in `page`.
abbrev pub with_table : (ℕ → ℕ) → ℕ → ℕ → ℕ → ℕ
with_table level page l q = if page == q then l else level q

module _ {s : Pmm} {level : ℕ → ℕ} {frame : ℕ} {t : Pmm} (w : IsTables s level)
    (a : IsAllocated s frame t) (valid : IsValid t) where
  -- The page was free, so it is no table of `s`.
  pub fresh : level a.page ≡ 0
  fresh = elim (split (level a.page)) [
    | inl zero_level ↦ zero_level
    | inr table ↦ absurd (ground (arith, w.used a.page table, a.was_free))
  ]
    where
      split : (l : ℕ) → (l ≡ 0) ⊎ (0 < l)
      split l = omega arith

  pub fresh-OffBitmap : OffBitmap s a.page
  fresh-OffBitmap k h e = ground (arith, w.valid.reserved k h, a.was_free, e)

  pub entry_of-table : (q i : ℕ) → 0 < level q → i < 512 → entry_of t q i ≡ entry_of s q i
  entry_of-table q i l h =
      let ne : a.page ≢ q = λ e. ground (arith, fresh, e) in
      read64_cong s.memory t.memory (entry_at (q * frame_size) i) (λ b x y.
        a.elsewhere b (ground (arith, a.at_page, ne))
          (bitmap_side (w.off_bitmap q l) b (omega arith)))
    where
      bitmap_side :
          {q : ℕ} (off : OffBitmap s q) (b : ℕ)
          → b / frame_size ≡ q
          → (b < s.mem_map.bitmap) ⊎ (s.mem_map.bitmap + s.mem_map.bitmap_size ≤ b)
      bitmap_side off b e = ground (arith, off (b - s.mem_map.bitmap))

  pub entry_of-fresh : (i : ℕ) → i < 512 → entry_of t a.page i ≡ 0
  entry_of-fresh i h =
      read64_zero t.memory (entry_at (a.page * frame_size) i)
        (λ b x y. a.zeroed b (omega (arith, a.at_page)) (omega (arith, a.at_page)))

  -- After the allocation, with the fresh page counted as a table of level `l`.
  pub with_table-IsTables : (l : ℕ) → 0 < a.page → IsTables t (with_table level a.page l)
  with_table-IsTables l pos = record {
    valid = valid;
    used = λ q h. ground (arith, a.bits q, w.used q, w.inside q, a.inside, w.valid.covers);
    inside = λ q h. ground (arith, a.mem_map, w.inside q, a.inside);
    off_bitmap = λ q h. elim (Bool-cases (a.page == q)) [
      | inl same ↦
          let e : a.page ≡ q = ground arith in
          simp a.mem_map (subst (OffBitmap s) e fresh-OffBitmap)
      | inr other ↦ simp a.mem_map (w.off_bitmap q (ground arith))
    ];
    child = λ q i h k here. grown_child q i h k here;
    one_parent = λ p i q j lp li lq lj op oq same.
        let hp = old_entry p i lp li op in
        let hq = old_entry q j lq lj oq in
        w.one_parent p i q j hp.0 li hq.0 lj (ground (arith, hp, op)) (ground (arith, hq, oq))
          (ground (arith, hp, hq, same));
  }
    where
      old_entry :
          (q i : ℕ)
          → 1 < with_table level a.page l q
          → i < 512
          → entry_of t q i % 2 ≡ 1
          → (1 < level q) × (entry_of t q i ≡ entry_of s q i)
      old_entry q i h k here = elim (Bool-cases (a.page == q)) [
        | inl same ↦
            let e : a.page ≡ q = ground arith in absurd (ground (arith, entry_of-fresh i k, e))
        | inr other ↦
            let l' : 1 < level q = ground arith in (l', entry_of-table q i (omega (arith, l')) k)
      ]

      grown_child :
          (q i : ℕ)
          → 1 < with_table level a.page l q
          → i < 512
          → entry_of t q i % 2 ≡ 1
          → (c : ℕ) × (entry_of t q i - entry_of t q i % 512 ≡ c * frame_size)
            × (with_table level a.page l c + 1 ≡ with_table level a.page l q)
      grown_child q i h k here = elim (Bool-cases (a.page == q)) [
        | inl same ↦
            let e : a.page ≡ q = ground arith in absurd (ground (arith, entry_of-fresh i k, e))
        | inr other ↦
            let l' : 1 < level q = ground arith in
            let (c, at, lc) = w.child q i l' k (ground (arith, entry_of-table q i)) in
            let ne : a.page ≢ c = λ e. ground (arith, fresh, e) in
            (c, ground (arith, entry_of-table q i, at), ground arith)
      ]

  -- No entry of a table leads to the fresh page yet.
  pub unlinked :
      (l q i : ℕ)
      → 1 < with_table level a.page l q
      → i < 512
      → entry_of t q i % 2 ≡ 1
      → entry_of t q i - entry_of t q i % 512 ≢ a.page * frame_size
  unlinked l q i h k here at = elim (Bool-cases (a.page == q)) [
    | inl same ↦ let e : a.page ≡ q = ground arith in absurd (ground (arith, entry_of-fresh i k, e))
    | inr other ↦
        let l' : 1 < level q = ground arith in
        let same = entry_of-table q i (omega (arith, l')) k in
        let (c, to, lc) = w.child q i l' k (ground (arith, same)) in
        let e : c ≡ a.page = omega (arith, to, at, same) in
        absurd (ground (arith, lc, l', fresh, e))
  ]
