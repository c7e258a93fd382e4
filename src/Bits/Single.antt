-- ===== src/Bits/Single.antt =====
-- One bit of a number, and the bits of `|`, `&`, `~` and `1 << i`.
use vardar_os.Prelude.{
  ap, arith, bit_and, bit_or, if◌then◌else◌, max, min, refl, suc, sym, zero, ℕ, ◌%◌, ◌-◌, ◌/◌, ◌<◌,
  ◌==◌, ◌>>>◌, ◌^◌, ◌∙◌, ◌≡◌,
}
use native.Mathlib.Nat.{pow-suc, one-le-pow}
use vardar_os.Bits.Step.{bit_and_step, bit_or_step}
use vardar_os.Bits.Pow.{div_pow-suc}

-- Bit `i` of `n`.
unfoldable pub bit_at : ℕ → ℕ → ℕ
bit_at n zero = n % 2
bit_at n (suc i) = bit_at (n / 2) i

pub bit_at-lt : (n i : ℕ) → bit_at n i < 2
unfolding bit_at
bit_at-lt n zero = omega arith
bit_at-lt n (suc i) = bit_at-lt (n / 2) i

pub bit_at-shift : (n i : ℕ) → bit_at n i ≡ n >>> i % 2
unfolding bit_at
bit_at-shift n zero = ground arith
bit_at-shift n (suc i) = bit_at-shift (n / 2) i ∙ ap (λ (t : ℕ). t % 2) (sym (div_pow-suc n i))

pub bit_at-zero : (i : ℕ) → bit_at 0 i ≡ 0
unfolding bit_at
bit_at-zero zero = refl
bit_at-zero (suc i) = bit_at-zero i

pub bit_at-bit_or : (a b i : ℕ) → bit_at (bit_or a b) i ≡ max (bit_at a i) (bit_at b i)
unfolding bit_at
bit_at-bit_or a b zero = omega (arith, bit_or_step a b)
bit_at-bit_or a b (suc i) = ap (λ (t : ℕ). bit_at t i) (halve a b) ∙ bit_at-bit_or (a / 2) (b / 2) i
  where
    halve : (a b : ℕ) → bit_or a b / 2 ≡ bit_or (a / 2) (b / 2)
    halve a b = omega (arith, bit_or_step a b)

pub bit_at-bit_and : (a b i : ℕ) → bit_at (bit_and a b) i ≡ min (bit_at a i) (bit_at b i)
unfolding bit_at
bit_at-bit_and a b zero = omega (arith, bit_and_step a b)
bit_at-bit_and a b (suc i) =
    ap (λ (t : ℕ). bit_at t i) (halve a b) ∙ bit_at-bit_and (a / 2) (b / 2) i
  where
    halve : (a b : ℕ) → bit_and a b / 2 ≡ bit_and (a / 2) (b / 2)
    halve a b = omega (arith, bit_and_step a b)

pub bit_at_pow : (i j : ℕ) → bit_at (2 ^ i) j ≡ (if i == j then 1 else 0)
unfolding bit_at
bit_at_pow zero zero = refl
bit_at_pow zero (suc j) = ground (arith, bit_at-zero j)
bit_at_pow (suc i) zero = grind (arith, pow-suc 2 i)
bit_at_pow (suc i) (suc j) = ap (λ (t : ℕ). bit_at t j) (halve i) ∙ ground (arith, bit_at_pow i j)
  where
    halve : (i : ℕ) → 2 ^ suc i / 2 ≡ 2 ^ i
    halve i = omega (arith, pow-suc 2 i)

-- Within the width, the complement turns each bit round.
pub bit_at_complement : (w n i : ℕ) → n < 2 ^ w → i < w → bit_at (2 ^ w - 1 - n) i ≡ 1 - bit_at n i
unfolding bit_at
bit_at_complement zero n i h lt = absurd (omega arith)
bit_at_complement (suc w) n zero h lt = omega (arith, pow-suc 2 w, one-le-pow w 2 (omega arith))
bit_at_complement (suc w) n (suc i) h lt =
    ap (λ (t : ℕ). bit_at t i) (omega (arith, pow-suc 2 w, one-le-pow w 2 (omega arith)))
    ∙ bit_at_complement w (n / 2) i (omega (arith, pow-suc 2 w)) (omega arith)
