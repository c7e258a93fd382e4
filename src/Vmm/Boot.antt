-- ===== src/Vmm/Boot.antt =====
-- `InitPageTable`: the mappings that the kernel makes at boot.
pub mod Sequence
pub mod Whole
pub mod Memory
use mathlib.Core.Path.{subst}
use vardar_os.Prelude.{
  Bool, Option, arith, refl, some, true, ℕ, ◌%◌, ◌*◌, ◌+◌, ◌-◌, ◌/◌, ◌<◌, ◌^◌, ◌≡◌, ◌≤◌,
}
use vardar_os.Pmm.{Pmm, frame_size}
use vardar_os.Pmm.Ahead.{free_ahead}
use vardar_os.Vmm.{kernel_page, map_multiple}
use vardar_os.Vmm.Tables.{IsTables}
use vardar_os.Vmm.Range.{IsRange}
use vardar_os.Vmm.Multiple.{map_multiple-IsRange}

-- The pages from `base` up to `bound`, and the frames that their tables may take.
abbrev pub pages_between : ℕ → ℕ → ℕ
pages_between base bound = (bound - base + 4095) / 4096

abbrev pub frames_for : ℕ → ℕ → ℕ
frames_for base bound = 3 * ((pages_between base bound + 1022) / 512)

-- A tree of tables below `root` again, with at most `spent` frames used.
pub record Grown (s : Pmm) (root spent : ℕ) (t : Pmm) : Type 0 where
  pub level : ℕ → ℕ
  pub tables : IsTables t level
  pub at_root : level root ≡ 4
  pub ahead : free_ahead s ≤ free_ahead t + spent
  pub count : t.mem_map.num_entries ≡ s.mem_map.num_entries

-- A range that `MapMultiple` can map within `rounds` rounds.
abbrev pub IsMappable : ℕ → ℕ → ℕ → Type 0
IsMappable rounds base bound =
    (base % 4096 ≡ 0)
    × (base ≤ bound)
    × (bound + 4096 + 3 < 2 ^ 64)
    × (pages_between base bound < 2 ^ 36)
    × (pages_between base bound < rounds)

module _ (rounds fuel root : ℕ) where
  -- The call succeeds in every tree of tables with `spent` free frames ahead.
  unfoldable pub Maps : ℕ → (Pmm → Option (Bool × Pmm)) → Type 0
  Maps spent call =
      (s : Pmm) (level : ℕ → ℕ)
      → IsTables s level
      → level root ≡ 4
      → spent ≤ free_ahead s
      → s.mem_map.num_entries < fuel
      → (t : Pmm) × (call s ≡ some (true, t)) × Grown s root spent t

  pub map_multiple_between-IsRange :
      (base bound offset : ℕ) (s : Pmm) (level : ℕ → ℕ)
      → IsTables s level
      → level root ≡ 4
      → frames_for base bound ≤ free_ahead s
      → s.mem_map.num_entries < fuel
      → IsMappable rounds base bound
      → (t : Pmm) × (map_multiple rounds fuel s (root * frame_size) base bound offset kernel_page
          ≡ some (true, t))
        × IsRange s root (base / 4096) offset (pages_between base bound) (frames_for base bound) t
  map_multiple_between-IsRange base bound offset s level w at_root room f
        (aligned, up, fits, small, enough) =
      let frame = base / 4096 in
      let at : frame * frame_size ≡ base = omega (arith, aligned) in
      let r =
        map_multiple-IsRange w (pages_between base bound) rounds fuel root frame bound offset
          kernel_page (frames_for base bound) at_root (omega (arith, aligned, up))
          (omega (arith, aligned, up)) (omega (arith, aligned, up, fits)) small (omega arith, refl)
          refl room f enough in
      (
        r.0,
        subst
            (λ (b : ℕ).
              map_multiple rounds fuel s (root * frame_size) b bound offset kernel_page
              ≡ some (true, r.0))
            at r.1,
        r.2,
      )

  pub map_multiple-Maps :
      (base bound offset : ℕ)
      → IsMappable rounds base bound
      → Maps
          (frames_for base bound)
          (λ s. map_multiple rounds fuel s (root * frame_size) base bound offset kernel_page)
  unfolding Maps
  map_multiple-Maps base bound offset mappable s level w at_root room f =
      let (t, run, r) =
        map_multiple_between-IsRange base bound offset s level w at_root room f mappable in
      (
        t,
        run,
        record {
          level = r.level;
          tables = r.tables;
          at_root = r.at_root;
          ahead = r.ahead;
          count = r.count;
        },
      )
