-- ===== src/Acpi/Lookup.antt =====
-- `find_apic_from_gsi` and the lookups of interrupt source overrides.
use native.Mathlib.Nat.{zero-add, zero-add}
use mathlib.Core.Path.{subst}
use mathlib.Core.Option.{some_inj}
use vardar_os.Prelude.{
  Bool-cases, List, Option, [], ap, arith, get_elem?, inl, inr, leb, none, refl, some, suc, zero, ℕ,
  ◌&&◌, ◌+◌, ◌<◌, ◌∙◌, ◌∷◌, ◌≡◌, ◌≤◌, ◌⊎◌,
}
use vardar_os.Acpi.Smp.{IoApicRecord, SmpInfo, find_apic_from_gsi, find_apic_loop}

-- Every I/O APIC of the list whose base is at most `gsi` has a base of at most `bound`.
abbrev pub IsBound : List IoApicRecord → ℕ → ℕ → Type 0
IsBound rs gsi bound =
    (j : ℕ) (r : IoApicRecord) → get_elem? rs j ≡ some r → r.gsib ≤ gsi → r.gsib ≤ bound

-- The index of an I/O APIC whose base is the largest one that is at most `gsi`, or none where there
-- is no such base.
unfoldable pub IsBest : List IoApicRecord → ℕ → Option ℕ → Type 0
IsBest rs gsi none = (j : ℕ) (r : IoApicRecord) → get_elem? rs j ≡ some r → gsi < r.gsib
IsBest rs gsi (some i) =
    (r : IoApicRecord) × (get_elem? rs i ≡ some r) × (r.gsib ≤ gsi) × IsBound rs gsi r.gsib

-- What the loop comes to: the index that it had, or a better one.
Outcome : List IoApicRecord → ℕ → ℕ → Option ℕ → ℕ → Option ℕ → Type 0
Outcome rs i gsi apic_ind max_gsib result =
    ((result ≡ apic_ind)
      × ((j : ℕ) (r : IoApicRecord) → get_elem? rs j ≡ some r → r.gsib ≤ gsi → r.gsib < max_gsib))
    ⊎ ((j : ℕ) × (r : IoApicRecord) × (get_elem? rs j ≡ some r)
        × (result ≡ some (i + j))
        × (r.gsib ≤ gsi)
        × (max_gsib ≤ r.gsib)
        × IsBound rs gsi r.gsib)

at_cons :
    {A : Type 0} (P : A → Type 0) (x : A) (xs : List A)
    → P x
    → ((j : ℕ) (a : A) → get_elem? xs j ≡ some a → P a)
    → (j : ℕ) (a : A) → get_elem? (x ∷ xs) j ≡ some a
    → P a
at_cons P x xs here later zero a e = subst P (some_inj.0 e) here
at_cons P x xs here later (suc j) a e = later j a e

find_apic_loop-Outcome :
    (rs : List IoApicRecord) (i gsi : ℕ) (apic_ind : Option ℕ) (max_gsib : ℕ)
    → Outcome rs i gsi apic_ind max_gsib (find_apic_loop rs i gsi apic_ind max_gsib)
unfolding find_apic_loop Outcome
find_apic_loop-Outcome [] i gsi apic_ind max_gsib = inl (refl, λ j r e. absurd (ground (arith, e)))
find_apic_loop-Outcome (x ∷ rs) i gsi apic_ind max_gsib =
    elim (Bool-cases (leb x.gsib gsi && leb max_gsib x.gsib)) [
      | inl better ↦ rw better (elim (find_apic_loop-Outcome rs (i + 1) gsi (some i) x.gsib) [
        | inl (e, less) ↦ inr (
          0,
          x,
          refl,
          e ∙ ap some (omega arith),
          ground (arith, better),
          ground (arith, better),
          at_cons (λ r. r.gsib ≤ gsi → r.gsib ≤ x.gsib) x rs (λ h. omega arith)
              (λ j r at h. omega (arith, less j r at h)),
        )
        | inr (j, r, at, e, le, ge, bound) ↦ inr (
          suc j,
          r,
          at,
          e ∙ ap some (omega arith),
          le,
          ground (arith, better, ge),
          at_cons (λ r'. r'.gsib ≤ gsi → r'.gsib ≤ r.gsib) x rs (λ h. ge) bound,
        )
      ])
      | inr worse ↦ rw worse (elim (find_apic_loop-Outcome rs (i + 1) gsi apic_ind max_gsib) [
        | inl (e, less) ↦ inl (
          e,
          at_cons (λ r. r.gsib ≤ gsi → r.gsib < max_gsib) x rs (λ h. ground (arith, worse, h)) less,
        )
        | inr (j, r, at, e, le, ge, bound) ↦ inr (
          suc j,
          r,
          at,
          e ∙ ap some (omega arith),
          le,
          ge,
          at_cons (λ r'. r'.gsib ≤ gsi → r'.gsib ≤ r.gsib) x rs (λ h. ground (arith, worse, h, ge))
              bound,
        )
      ])
    ]

-- `find_apic_from_gsi` returns the index of an I/O APIC whose base is the largest one that is at most
-- the GSI, the GSI itself included, or -1 where every base is above it.
pub find_apic_from_gsi-IsBest :
    (s : SmpInfo) (gsi : ℕ) → IsBest s.io_apics gsi (find_apic_from_gsi s gsi)
unfolding IsBest find_apic_from_gsi Outcome
find_apic_from_gsi-IsBest s gsi = elim (find_apic_loop-Outcome s.io_apics 0 gsi none 0) [
  | inl (e, less) ↦ rw e (λ j r at. ground (arith, less j r at))
  | inr (j, r, at, e, le, ge, bound) ↦ rw (e ∙ ap some (zero-add j)) (r, at, le, bound)
]
