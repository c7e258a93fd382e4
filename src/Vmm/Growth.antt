-- ===== src/Vmm/Growth.antt =====
-- How the tree of page tables grows: which levels and entries stay, and what a call that goes down
-- the tree comes to.
use vardar_os.Prelude.{Option, arith, refl, some, ℕ, ◌%◌, ◌*◌, ◌+◌, ◌<◌, ◌∙◌, ◌≡◌, ◌≤◌, ◌⊎◌}
use vardar_os.Pmm.{Pmm, frame_size}
use vardar_os.Pmm.Ahead.{free_ahead}
use vardar_os.Vmm.Tables.{IsTables, entry_of}

-- The flags that the kernel passes: below 512, with `PRESENT`.
abbrev pub IsFlags : ℕ → Type 0
IsFlags flags = (flags < 512) × (flags % 2 ≡ 1)

-- From `s` to `t` the tables keep their levels, and keep their entries where these are present or
-- where the table is of level 1.
pub record Extends (s : Pmm) (level : ℕ → ℕ) (t : Pmm) (level' : ℕ → ℕ) : Type 0 where
  pub levels : (p : ℕ) → 0 < level p → level' p ≡ level p
  pub entries :
      (p i : ℕ)
      → 0 < level p
      → i < 512
      → (entry_of s p i % 2 ≡ 1) ⊎ (level p ≡ 1)
      → entry_of t p i ≡ entry_of s p i
  pub count : t.mem_map.num_entries ≡ s.mem_map.num_entries

pub Extends-refl : (s : Pmm) (level : ℕ → ℕ) → Extends s level s level
Extends-refl s level = record { levels = λ p h. refl; entries = λ p i h k o. refl; count = refl }

pub Extends-trans :
    {s t u : Pmm} {level level' level'' : ℕ → ℕ}
    → Extends s level t level'
    → Extends t level' u level''
    → Extends s level u level''
Extends-trans a b = record {
  levels = λ p h. ground (arith, a.levels p, b.levels p);
  entries = λ p i h k o. ground (arith, a.levels p, a.entries p i, b.entries p i);
  count = b.count ∙ a.count;
}

-- What a call returns that reaches the table in page `q`, of level `l`, with `spent` frames used.
pub record Reaches (Q : Pmm → ℕ → Type 0) (s : Pmm) (level : ℕ → ℕ) (l spent : ℕ)
    (result : Option (ℕ × Pmm)) : Type 0 where
  pub page : ℕ
  pub state : Pmm
  pub level' : ℕ → ℕ
  pub returns : result ≡ some (page * frame_size, state)
  pub tables : IsTables state level'
  pub at_level : level' page ≡ l
  pub leads : Q state page
  pub extends : Extends s level state level'
  pub ahead : free_ahead s ≤ free_ahead state + spent
