-- ===== src/Bits/Step.antt =====
-- The native operations stand for `bitwise`, a recursion on the binary digits with fuel. One
-- equation for the lowest digit, without the fuel.
use Prim.Native.Nat.{digits, bitwise, bit_and-bitwise, bit_or-bitwise}
use vardar_os.Prelude.{
  ℕ, zero, suc, ◌+◌, ◌*◌, ◌/◌, ◌%◌, ◌≤◌, min, max, bit_and, bit_or, ◌≡◌, refl, inl, inr, ◌⊎◌, ◌∙◌,
  ap, arith,
}

split_le : (a n : ℕ) → a ≤ suc n → (a ≤ n) ⊎ (a ≡ suc n)
split_le a n h = omega arith

module _ (z : ℕ → ℕ) (f : ℕ → ℕ → ℕ) where
  -- One more round of fuel changes nothing once there is enough.
  digits-suc : (n a b : ℕ) → a ≤ n → digits z f (suc n) a b ≡ digits z f n a b
  digits-suc zero zero b h = refl
  digits-suc zero (suc a) b h = absurd (omega arith)
  digits-suc (suc n) zero b h = refl
  digits-suc (suc n) (suc a) b h =
      ap (λ (t : ℕ). t * 2 + f (suc a % 2) (b % 2)) (digits-suc n (suc a / 2) (b / 2) (omega arith))

  digits_exact : (n a b : ℕ) → a ≤ n → digits z f n a b ≡ digits z f a a b
  digits_exact zero zero b h = refl
  digits_exact zero (suc a) b h = absurd (omega arith)
  digits_exact (suc n) a b h = elim (split_le a n h) [
    | inl low ↦ digits-suc n a b low ∙ digits_exact n a b low
    | inr top ↦ rw top
  ]

  lowest_digit :
      (a b : ℕ)
      → bitwise z f (suc a) b ≡ bitwise z f (suc a / 2) (b / 2) * 2 + f (suc a % 2) (b % 2)
  lowest_digit a b =
      ap (λ (t : ℕ). t * 2 + f (suc a % 2) (b % 2))
        (digits_exact a (suc a / 2) (b / 2) (omega arith))

pub bit_or_step : (a b : ℕ) → bit_or a b ≡ bit_or (a / 2) (b / 2) * 2 + max (a % 2) (b % 2)
bit_or_step zero b = omega (arith, bit_or-bitwise 0 b, bit_or-bitwise 0 (b / 2))
bit_or_step (suc a) b = omega (
  arith,
  bit_or-bitwise (suc a) b,
  bit_or-bitwise (suc a / 2) (b / 2),
  lowest_digit (λ y. y) max a b,
)

pub bit_and_step : (a b : ℕ) → bit_and a b ≡ bit_and (a / 2) (b / 2) * 2 + min (a % 2) (b % 2)
bit_and_step zero b = omega (arith, bit_and-bitwise 0 b, bit_and-bitwise 0 (b / 2))
bit_and_step (suc a) b = omega (
  arith,
  bit_and-bitwise (suc a) b,
  bit_and-bitwise (suc a / 2) (b / 2),
  lowest_digit (λ y. 0) min a b,
)
