-- ===== src/Vmm/Range.antt =====
-- The translation of a range of pages, page by page.
use vardar_os.Prelude.{
  add64, ap, arith, refl, suc, sym, zero, ℕ, ◌*◌, ◌+◌, ◌-◌, ◌<◌, ◌^◌, ◌∙◌, ◌≡◌, ◌≢◌, ◌≤◌,
}
use vardar_os.Pmm.{Pmm, frame_size}
use vardar_os.Pmm.Ahead.{free_ahead}
use vardar_os.Vmm.{get_page, vaddr_to_paddr}
use vardar_os.Vmm.Tables.{IsTables}
use vardar_os.Vmm.Map.{IsMapped}
use vardar_os.Vmm.Pages.{IsMapped-elsewhere, page_number}

-- The address at which page `i` behind page `frame` is mapped.
abbrev pub mapped_at : ℕ → ℕ → ℕ → ℕ
mapped_at frame offset i = add64 ((frame + i) * frame_size) offset

-- The state after a mapping of `n` pages from page `frame` on at `offset`: each of them is translated
-- to itself, and the pages that had an entry outside of them as before. At most `spent` frames are
-- used.
pub record IsRange (s : Pmm) (root frame offset n spent : ℕ) (t : Pmm) : Type 0 where
  pub level : ℕ → ℕ
  pub tables : IsTables t level
  pub at_root : level root ≡ 4
  pub translates :
      (i : ℕ)
      → i < n
      → vaddr_to_paddr t.memory (root * frame_size) (mapped_at frame offset i)
        ≡ (frame + i) * frame_size
  pub kept :
      (other : ℕ)
      → get_page s.memory (root * frame_size) other ≢ 0
      → get_page t.memory (root * frame_size) other ≢ 0
  pub others :
      (other : ℕ)
      → get_page s.memory (root * frame_size) other ≢ 0
      → ((i : ℕ) → i < n → page_number (mapped_at frame offset i) ≢ page_number other)
      → vaddr_to_paddr t.memory (root * frame_size) other
        ≡ vaddr_to_paddr s.memory (root * frame_size) other
  pub ahead : free_ahead s ≤ free_ahead t + spent
  pub count : t.mem_map.num_entries ≡ s.mem_map.num_entries

pub IsRange-none :
    {s : Pmm} {level : ℕ → ℕ} (w : IsTables s level) (root frame offset spent : ℕ)
    → level root ≡ 4
    → IsRange s root frame offset 0 spent s
IsRange-none {s} {level} w root frame offset spent at_root = record {
  level = level;
  tables = w;
  at_root = at_root;
  translates = λ i lt. absurd (omega (arith, lt));
  kept = λ other ne. ne;
  others = λ other ne out. refl;
  ahead = omega arith;
  count = refl;
}

-- The pages of a range have different numbers.
apart_pages :
    (frame offset i j : ℕ)
    → i < j
    → j - i < 2 ^ 36
    → page_number (mapped_at frame offset i) ≢ page_number (mapped_at frame offset j)
apart_pages frame offset i j lt near = omega arith

-- One page, and then the range behind it.
pub IsRange-next :
    {s t u : Pmm} (root frame offset n first spent : ℕ)
    → suc n < 2 ^ 36
    → IsMapped s root (mapped_at frame offset 0) ((frame + 0) * frame_size) t
    → free_ahead s ≤ free_ahead t + first
    → t.mem_map.num_entries ≡ s.mem_map.num_entries
    → IsRange t root (frame + 1) offset n spent u
    → IsRange s root frame offset (suc n) (first + spent) u
IsRange-next {u = u} root frame offset n first spent small m ahead count r = record {
  level = r.level;
  tables = r.tables;
  at_root = r.at_root;
  translates = translated;
  kept = λ other ne. r.kept other (λ e. ne (sym (m.kept other ne) ∙ e));
  others = λ other ne out.
      r.others other (λ e. ne (sym (m.kept other ne) ∙ e))
        (λ j below e'. out (suc j) (omega (arith, below)) (ap page_number (next_page j) ∙ e'))
      ∙ IsMapped-elsewhere root (mapped_at frame offset 0) ((frame + 0) * frame_size) m other ne
          (out 0 (omega arith));
  ahead = omega (arith, ahead, r.ahead);
  count = r.count ∙ count;
}
  where
    next_page : (j : ℕ) → mapped_at frame offset (suc j) ≡ mapped_at (frame + 1) offset j
    next_page j = omega arith

    translated :
        (i : ℕ)
        → i < suc n
        → vaddr_to_paddr u.memory (root * frame_size) (mapped_at frame offset i)
          ≡ (frame + i) * frame_size
    translated zero lt =
        r.others (mapped_at frame offset 0) m.entry (λ j below e.
          apart_pages frame offset 0 (suc j) (omega arith) (omega (arith, small, below))
            (sym e ∙ sym (ap page_number (next_page j))))
        ∙ m.translates
    translated (suc j) lt =
        ap (vaddr_to_paddr u.memory (root * frame_size)) (next_page j)
        ∙ r.translates j (omega (arith, lt))
        ∙ omega arith
