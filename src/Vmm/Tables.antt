-- ===== src/Vmm/Tables.antt =====
-- The tree of page tables: which pages are tables, at which level, and where their entries lead.
use vardar_os.Prelude.{
  Bool-cases, arith, inl, inr, some, suc, true, zero, ℕ, ◌%◌, ◌*◌, ◌+◌, ◌-◌, ◌/◌, ◌<◌, ◌==◌, ◌≡◌,
  ◌≢◌,
}
use vardar_os.Memory.{read64}
use vardar_os.Pmm.{Pmm, frame_size, page_is_used}
use vardar_os.Pmm.Valid.{IsValid}
use vardar_os.Vmm.{entry_at, v_addr_index, walk}
use vardar_os.Vmm.Entry.{get_page_table_lem, v_addr_index-lt}

-- Entry `index` of the table in page `p`.
abbrev pub entry_of : Pmm → ℕ → ℕ → ℕ
entry_of s p index = read64 s.memory (entry_at (p * frame_size) index)

-- No byte of page `p` belongs to the bitmap.
abbrev pub OffBitmap : Pmm → ℕ → Type 0
OffBitmap s p = (k : ℕ) → k < s.mem_map.bitmap_size → (s.mem_map.bitmap + k) / frame_size ≢ p

-- `level p` is the level of the table in page `p`, and 0 where page `p` holds no table. Tables lie
-- in used pages of the count, off the bitmap, and a present entry of a table above level 1 leads to
-- a table one level down, which no other entry leads to.
pub record IsTables (s : Pmm) (level : ℕ → ℕ) : Type 0 where
  pub valid : IsValid s
  pub used : (p : ℕ) → 0 < level p → page_is_used s p ≡ true
  pub inside : (p : ℕ) → 0 < level p → (0 < p) × (p < s.mem_map.num_entries)
  pub off_bitmap : (p : ℕ) → 0 < level p → OffBitmap s p
  pub child :
      (p index : ℕ)
      → 1 < level p
      → index < 512
      → entry_of s p index % 2 ≡ 1
      → (c : ℕ) × (entry_of s p index - entry_of s p index % 512 ≡ c * frame_size)
        × (level c + 1 ≡ level p)
  pub one_parent :
      (p index q other : ℕ)
      → 1 < level p
      → index < 512
      → 1 < level q
      → other < 512
      → entry_of s p index % 2 ≡ 1
      → entry_of s q other % 2 ≡ 1
      → entry_of s p index - entry_of s p index % 512
        ≡ entry_of s q other - entry_of s q other % 512
      → (p ≡ q) × (index ≡ other)

-- A walk from a table of level `k + 1` comes down to a table of level 1, or meets no entry.
pub walk-level :
    {s : Pmm} {level : ℕ → ℕ} (w : IsTables s level) (vaddr p k : ℕ)
    → level p ≡ suc k
    → {r : ℕ} → walk s.memory vaddr (p * frame_size) k ≡ some r
    → (q : ℕ) × (r ≡ q * frame_size) × (level q ≡ 1)
unfolding walk
walk-level {s} w vaddr p zero e {r} run = (p, ground arith, e)
walk-level {s} {level} w vaddr p (suc k) e {r} run =
    let index = v_addr_index vaddr (k + 2) in
    let table = get_page_table_lem s.memory (p * frame_size) index w.valid.bytes in
    elim (Bool-cases (entry_of s p index % 2 == 1)) [
      | inl here ↦
          let (c, at, l) =
            w.child p index (omega arith) (v_addr_index-lt vaddr (k + 2)) (ground arith) in
          walk-level w vaddr c k (omega arith) (ground (arith, table, at, w.inside c))
      | inr gone ↦ absurd (ground (arith, table))
    ]
