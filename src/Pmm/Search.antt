-- ===== src/Pmm/Search.antt =====
-- The cyclic search of `AllocFirstFrame`: it ends, and stops at a free page if it passes one.
use native.Mathlib.Nat.{mod-eq_of_lt}
use vardar_os.Prelude.{
  Bool-cases, Option, arith, false, if◌then◌else◌, inl, inr, int_pattern, none, some, suc, true,
  zero, ℕ, ◌%◌, ◌+◌, ◌-◌, ◌<◌, ◌==◌, ◌^◌, ◌≡◌, ◌≢◌, ◌≤◌, ◌⊎◌,
}
use vardar_os.Pmm.{Pmm, find_free, page_is_used}

pub mod_small : (a n : ℕ) → a < n → a % n ≡ a
mod_small a n h = mod-eq_of_lt h

pub mod_self : (a n : ℕ) → a ≡ n → a % n ≡ 0
mod_self a n e = rw e (grind arith)

pub next_index :
    (i n : ℕ) → i < n → n < 2 ^ 31 → int_pattern ((i + 1) % n) ≡ (if i + 1 == n then 0 else i + 1)
next_index i n h small = ground (arith, mod_small (i + 1) n, mod_self (i + 1) n)

module _ (s : Pmm) where
  abbrev pub n : ℕ
  n = s.mem_map.num_entries

  abbrev pub last : ℕ
  last = s.mem_map.last_used

  -- The pages from `i` up to `last`, going round at the end.
  abbrev pub Ahead : ℕ → ℕ → Type 0
  Ahead i j = ((i ≤ j) × (j < last)) ⊎ ((last < i) × (((i ≤ j) × (j < n)) ⊎ (j < last)))

  abbrev pub Outcome : ℕ → Option ℕ → Type 0
  Outcome i none = (j : ℕ) → Ahead i j → page_is_used s j ≡ true
  Outcome i (some k) = (page_is_used s k ≡ false) × (k < n) × (k ≢ last)

  -- `d` rounds lead from `i` to `last`.
  abbrev pub Rounds : ℕ → ℕ → Type 0
  Rounds i d = (i + d ≡ last) ⊎ ((i + d ≡ last + n) × (last < i))

  Outcome-next :
      (i : ℕ) (r : Option ℕ)
      → i < n
      → last < n
      → page_is_used s i ≡ true
      → Outcome (if i + 1 == n then 0 else i + 1) r
      → Outcome i r
  Outcome-next i none h l used rest = λ j a. ground (arith, rest j)
  Outcome-next i (some k) h l used rest = rest

  pub find_free_lem :
      (fuel i d : ℕ)
      → n < 2 ^ 31
      → last < n
      → i < n
      → Rounds i d
      → d < fuel
      → (r : Option ℕ) × (find_free fuel s i ≡ some r) × Outcome i r
  unfolding find_free
  find_free_lem zero i d small l h r f = absurd (omega arith)
  find_free_lem (suc fuel) i d small l h r f =
      let i' : ℕ = if i + 1 == n then 0 else i + 1 in
      elim (Bool-cases (i == last)) [
        | inl end ↦ (none, ground arith, λ j a. ground arith)
        | inr go ↦ elim (Bool-cases (page_is_used s i)) [
          | inr unused ↦ (some i, ground arith, ground arith)
          | inl used ↦
              let (o, run, out) =
                find_free_lem fuel i' (d - 1) small l (ground arith) (ground arith)
                  (ground arith) in
              (o, ground (arith, next_index i n h small, run), Outcome-next i o h l used out)
        ]
      ]
