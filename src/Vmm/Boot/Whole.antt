-- ===== src/Vmm/Boot/Whole.antt =====
-- `InitPageTable` as a whole: what the kernel's page table translates after it.
use mathlib.Core.Path.{subst}
use vardar_os.Prelude.{
  Option-cases, ap, arith, false, inl, inr, refl, some, sym, true, ℕ, ◌*◌, ◌+◌, ◌-◌, ◌<◌, ◌==◌, ◌^◌,
  ◌∙◌, ◌≡◌, ◌≢◌, ◌≤◌,
}
use vardar_os.Pmm.{Pmm, alloc_first_frame, frame_size}
use vardar_os.Pmm.Valid.{IsValid}
use vardar_os.Pmm.Frame.{IsAllocated}
use vardar_os.Vmm.{get_page, kernel_data, kernel_page, map_multiple, vaddr_to_paddr, walk}
use vardar_os.Vmm.Grow.{with_table, with_table-IsTables}
use vardar_os.Vmm.Tables.{IsTables, walk-level}
use vardar_os.Vmm.Map.{get_page_lem}
use vardar_os.Vmm.Kernel.{Vmm, four_gb, init_page_table, kernel_vaddr_to_paddr, map_kernel_pmrs}
use vardar_os.Pmm.Ahead.{alloc_first_frame_ahead, free_ahead}
use vardar_os.Vmm.Boot.{IsMappable, Maps, frames_for, map_multiple_between-IsRange}
use vardar_os.Vmm.Boot.Sequence.{
  AllMappable, AllMappableEntries, kernel_frames, map_kernel_pmrs-Maps,
}
use vardar_os.Vmm.Range.{IsRange, mapped_at}

-- An address that is translated has an entry.
translated-get_page :
    {s : Pmm} {level : ℕ → ℕ} (w : IsTables s level) (root vaddr : ℕ)
    → level root ≡ 4
    → vaddr_to_paddr s.memory (root * frame_size) vaddr ≢ 0
    → get_page s.memory (root * frame_size) vaddr ≢ 0
unfolding vaddr_to_paddr
translated-get_page {s} w root vaddr at_root ne gone =
    elim (Option-cases (walk s.memory vaddr (root * frame_size) 3)) [
      | inl stops ↦ absurd (ne (rw (vaddr_to_paddr, stops) refl))
      | inr (r, run) ↦
          let (q, e, l) = walk-level w vaddr root 3 at_root run in
          absurd (
            omega (
              arith,
              gone,
              get_page_lem w root vaddr at_root q (rw e at run),
              w.inside q (omega (arith, l)),
            ))
    ]

-- The root alone is a tree of tables.
root-IsTables :
    {s t : Pmm} {frame : ℕ} (valid : IsValid s) (valid' : IsValid t) (a : IsAllocated s frame t)
    → frame ≢ 0
    → IsTables t (with_table (λ q. 0) a.page 4)
root-IsTables {s} valid valid' a ne =
    with_table-IsTables none_yet a valid' 4 (ground (arith, a.at_page, ne))
  where
    none_yet : IsTables s (λ q. 0)
    none_yet = record {
      valid = valid;
      used = λ p h. absurd (omega (arith, h));
      inside = λ p h. absurd (omega (arith, h));
      off_bitmap = λ p h. absurd (omega (arith, h));
      child = λ p i h. absurd (omega (arith, h));
      one_parent = λ p i q j h. absurd (omega (arith, h));
    }

-- The four calls of `InitPageTable`, where each succeeds.
init_page_table_runs :
    (rounds fuel : ℕ) (k : Vmm) (root : ℕ) (s t u v : Pmm)
    → alloc_first_frame fuel k.pmm ≡ some (root, s)
    → root ≢ 0
    → map_kernel_pmrs rounds fuel (record k { kernel_root = root; pmm = s }) root s ≡ some (true, t)
    → map_multiple rounds fuel t root 0x1000 four_gb 0 kernel_page ≡ some (true, u)
    → map_multiple rounds fuel u root 0x1000 four_gb kernel_data kernel_page ≡ some (true, v)
    → init_page_table rounds fuel k ≡ some (true, record k { kernel_root = root; pmm = v })
unfolding init_page_table
init_page_table_runs rounds fuel k root s t u v alloc ne image low high =
    let nonzero : root == 0 ≡ false = ground (arith, ne) in
    rw (init_page_table, alloc, nonzero, image, low, high) refl

-- A page below 4 GB.
abbrev pub IsLowPage : ℕ → Type 0
IsLowPage a = (1 ≤ a) × (a < 2 ^ 20)

module _ {t u : Pmm} (root spent : ℕ) where
  low_page :
      (r : IsRange t root 1 0 1048575 spent u) (a : ℕ)
      → IsLowPage a
      → vaddr_to_paddr u.memory (root * frame_size) (a * frame_size) ≡ a * frame_size
  low_page r a (lo, hi) =
      let at : mapped_at 1 0 (a - 1) ≡ a * frame_size = omega (arith, lo, hi) in
      ap (vaddr_to_paddr u.memory (root * frame_size)) (sym at)
      ∙ r.translates (a - 1) (omega (arith, hi))
      ∙ omega (arith, lo)

  high_page :
      (r : IsRange t root 1 kernel_data 1048575 spent u) (a : ℕ)
      → IsLowPage a
      → vaddr_to_paddr u.memory (root * frame_size) (a * frame_size + kernel_data) ≡ a * frame_size
  high_page r a (lo, hi) =
      let at : mapped_at 1 kernel_data (a - 1) ≡ a * frame_size + kernel_data =
        omega (arith, lo, hi) in
      ap (vaddr_to_paddr u.memory (root * frame_size)) (sym at)
      ∙ r.translates (a - 1) (omega (arith, hi))
      ∙ omega (arith, lo)

-- The second range lies in other pages than the first.
low_page_kept :
    {t u v : Pmm} (root spent : ℕ) (r : IsRange t root 1 0 1048575 spent u)
    (r' : IsRange u root 1 kernel_data 1048575 spent v) (a : ℕ)
    → IsLowPage a
    → vaddr_to_paddr v.memory (root * frame_size) (a * frame_size) ≡ a * frame_size
low_page_kept root spent r r' a (lo, hi) =
    let there = low_page root spent r a (lo, hi) in
    r'.others (a * frame_size)
      (translated-get_page r.tables root (a * frame_size) r.at_root
        (λ e. omega (arith, there, e, lo)))
      (λ i lt e. omega (arith, lt, e, hi))
    ∙ there

-- The kernel's page table: a tree of tables, which translates each page below 4 GB, but page 0, to
-- itself, at its own address and behind `KERNEL_DATA`.
pub record IsBooted (k : Vmm) : Type 0 where
  pub root : ℕ
  pub level : ℕ → ℕ
  pub at : k.kernel_root ≡ root * frame_size
  pub tables : IsTables k.pmm level
  pub at_root : level root ≡ 4
  pub low : (a : ℕ) → IsLowPage a → kernel_vaddr_to_paddr k (a * frame_size) ≡ a * frame_size
  pub high :
      (a : ℕ)
      → IsLowPage a
      → kernel_vaddr_to_paddr k (a * frame_size + kernel_data) ≡ a * frame_size

-- The two last calls of `InitPageTable`.
record LastCalls (rounds fuel root : ℕ) (t : Pmm) : Type 0 where
  middle : Pmm
  state : Pmm
  level : ℕ → ℕ
  first :
      map_multiple rounds fuel t (root * frame_size) 0x1000 four_gb 0 kernel_page
      ≡ some (true, middle)
  second :
      map_multiple rounds fuel middle (root * frame_size) 0x1000 four_gb kernel_data kernel_page
      ≡ some (true, state)
  tables : IsTables state level
  at_root : level root ≡ 4
  low :
      (a : ℕ)
      → IsLowPage a
      → vaddr_to_paddr state.memory (root * frame_size) (a * frame_size) ≡ a * frame_size
  high :
      (a : ℕ)
      → IsLowPage a
      → vaddr_to_paddr state.memory (root * frame_size) (a * frame_size + kernel_data)
        ≡ a * frame_size

map_multiple-LastCalls :
    (rounds fuel root : ℕ) (t : Pmm) (level : ℕ → ℕ)
    → IsTables t level
    → level root ≡ 4
    → 2 * frames_for 0x1000 four_gb ≤ free_ahead t
    → t.mem_map.num_entries < fuel
    → IsMappable rounds 0x1000 four_gb
    → LastCalls rounds fuel root t
map_multiple-LastCalls rounds fuel root t level w at_root room f whole =
    let (u, run, r) =
      map_multiple_between-IsRange rounds fuel root 0x1000 four_gb 0 t level w at_root
        (omega (arith, room)) f whole in
    let (v, run', r') =
      map_multiple_between-IsRange rounds fuel root 0x1000 four_gb kernel_data u r.level r.tables
        r.at_root (omega (arith, room, r.ahead)) (omega (arith, f, r.count)) whole in
    record {
      middle = u;
      state = v;
      level = r'.level;
      first = run;
      second = run';
      tables = r'.tables;
      at_root = r'.at_root;
      low = λ a low. low_page_kept {v = v} root (frames_for 0x1000 four_gb) r r' a low;
      high = λ a low. high_page root (frames_for 0x1000 four_gb) r' a low;
    }

-- `InitPageTable` behind its call of `AllocFirstFrame`.
init_page_table_behind :
    (rounds fuel : ℕ) (k : Vmm) (frame : ℕ) (s : Pmm)
    → IsValid k.pmm
    → IsValid s
    → IsAllocated k.pmm frame s
    → frame ≢ 0
    → alloc_first_frame fuel k.pmm ≡ some (frame, s)
    → kernel_frames k + 2 * frames_for 0x1000 four_gb ≤ free_ahead s
    → s.mem_map.num_entries < fuel
    → IsMappable rounds 0x1000 four_gb
    → AllMappable rounds k.physical_base k.virtual_base k.pmrs
    → AllMappableEntries rounds k.mmap
    → (k' : Vmm) × (init_page_table rounds fuel k ≡ some (true, k')) × IsBooted k'
unfolding Maps kernel_vaddr_to_paddr
init_page_table_behind rounds fuel k frame s valid valid' a ne run room f whole image mmap =
    let (t, run_t, g) =
      map_kernel_pmrs-Maps rounds fuel a.page
        (record k { kernel_root = a.page * frame_size; pmm = s }) whole image mmap s
        (with_table (λ q. 0) a.page 4) (root-IsTables valid valid' a ne) (ground arith)
        (omega (arith, room)) f in
    let c =
      map_multiple-LastCalls rounds fuel a.page t g.level g.tables g.at_root
        (omega (arith, room, g.ahead)) (omega (arith, f, g.count)) whole in
    (
      record k { kernel_root = a.page * frame_size; pmm = c.state },
      init_page_table_runs rounds fuel k (a.page * frame_size) s t c.middle c.state
          (subst (λ (x : ℕ). alloc_first_frame fuel k.pmm ≡ some (x, s)) a.at_page run)
          (λ e. ne (a.at_page ∙ e)) run_t c.first c.second,
      record {
        root = a.page;
        level = c.level;
        at = refl;
        tables = c.tables;
        at_root = c.at_root;
        low = c.low;
        high = c.high;
      },
    )

-- From a valid bitmap, with a free frame ahead for the root and free frames for the tables, where the
-- boot structures that are mapped start at a page and end below the last address, `InitPageTable`
-- succeeds. The kernel's page table is then a tree of tables that translates each page below 4 GB, but
-- page 0, to itself, at its own address and behind `KERNEL_DATA`.
pub init_page_table-IsBooted :
    (rounds fuel : ℕ) (k : Vmm)
    → IsValid k.pmm
    → 1 + kernel_frames k + 2 * frames_for 0x1000 four_gb ≤ free_ahead k.pmm
    → k.pmm.mem_map.num_entries < fuel
    → 2 ^ 20 ≤ rounds
    → AllMappable rounds k.physical_base k.virtual_base k.pmrs
    → AllMappableEntries rounds k.mmap
    → (k' : Vmm) × (init_page_table rounds fuel k ≡ some (true, k')) × IsBooted k'
init_page_table-IsBooted rounds fuel k valid room f enough image mmap =
    let (frame, s, run, valid', a, ahead, ne) =
      alloc_first_frame_ahead fuel k.pmm valid (omega (arith, room)) f in
    init_page_table_behind rounds fuel k frame s valid valid' a ne run (omega (arith, room, ahead))
      (ground (arith, a.mem_map))
      (refl, omega arith, omega arith, omega arith, omega (arith, enough)) image mmap
