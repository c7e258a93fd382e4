-- ===== src/Pmm/Stuck.antt =====
-- A search of `AllocContiguous` that never ends: it tests for the last used page only at the head
-- of a run, and can step over it.
use vardar_os.Prelude.{
  arith, false, if◌then◌else◌, none, refl, some, suc, u64, zero, ℕ, ◌%◌, ◌+◌, ◌-◌, ◌<◌, ◌==◌, ◌≡◌,
  ◌≢◌, ◌≤◌,
}
use vardar_os.Pmm.{Pmm, alloc_contiguous, contiguous_loop, first_used, page_is_used, pages_of}
use vardar_os.Pmm.Valid.{IsValid}
use vardar_os.Pmm.Contiguous.{first_used-some}
use vardar_os.Pmm.Search.{mod_self, mod_small}

mod_past : (a n : ℕ) → a ≡ n + 1 → 1 < n → a % n ≡ 1
mod_past a n e h = rw e (grind arith)

module _ (s : Pmm) (pages : ℕ) (v : IsValid s) where
  abbrev pub n : ℕ
  n = s.mem_map.num_entries

  abbrev pub last : ℕ
  last = s.mem_map.last_used

  -- Every search for a chunk meets a used page, by page `n` at the latest.
  abbrev pub NoRun : Type 0
  NoRun = (h : ℕ) → h ≤ n → (k : ℕ) × (first_used s h (pages + 1) ≡ some k) × (k ≤ n)

  contiguous_loop_stuck :
      (fuel head : ℕ)
      → 2 ≤ last
      → page_is_used s (last - 1) ≡ false
      → NoRun
      → head ≤ n
      → head ≢ last
      → contiguous_loop fuel s pages head ≡ none
  unfolding contiguous_loop
  contiguous_loop_stuck zero head two free_before stuck le ne = refl
  contiguous_loop_stuck (suc fuel) head two free_before stuck le ne =
      let (k, found, at) = stuck head le in
      let used = first_used-some s head (pages + 1) k found in
      let next : u64 (k + 1) % n ≡ (if k + 1 == n then 0 else if k == n then 1 else k + 1) =
        ground (
          arith,
          v.small,
          v.last_in,
          mod_small (k + 1) n,
          mod_self (k + 1) n,
          mod_past (k + 1) n,
        ) in
      let rest =
        contiguous_loop_stuck fuel (u64 (k + 1) % n) two free_before stuck
          (omega (arith, v.last_in)) (ground (arith, next)) in
      ground (arith, found, rest)

-- With no run of free pages long enough on a valid bitmap, page `num_entries` used or never
-- passed, and the page just below the last used one free, `AllocContiguous` never returns: no
-- amount of fuel is enough.
pub alloc_contiguous-none :
    (fuel : ℕ) (s : Pmm) (size : ℕ)
    → (v : IsValid s) → 2 ≤ s.mem_map.last_used
    → page_is_used s (s.mem_map.last_used - 1) ≡ false
    → NoRun s (pages_of size) v
    → alloc_contiguous fuel s size ≡ none
unfolding alloc_contiguous
alloc_contiguous-none fuel s size v two free_before stuck =
    let start : u64 (s.mem_map.last_used + 1) ≡ s.mem_map.last_used + 1 =
      omega (arith, v.last_in, v.small) in
    rw start (
      contiguous_loop_stuck s (pages_of size) v fuel (s.mem_map.last_used + 1) two free_before stuck
        (omega (arith, v.last_in)) (omega arith))
