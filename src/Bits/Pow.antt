-- ===== src/Bits/Pow.antt =====
-- Halving and powers of two.
use native.Mathlib.Nat.{
  pow-suc, mul_comm, div-div-eq-div-mul, div-add-mod, one-le-pow, zero-add, one-mul, pow-zero,
  suc-add,
}
use vardar_os.Prelude.{
  ap, arith, suc, sym, zero, ℕ, ◌%◌, ◌*◌, ◌+◌, ◌-◌, ◌/◌, ◌<◌, ◌^◌, ◌∙◌, ◌≡◌, ◌≤◌,
}

pub double_field : (q k : ℕ) → q * 2 ^ suc k ≡ 2 * (q * 2 ^ k)
double_field q k = omega (arith, ap (λ (t : ℕ). q * t) (pow-suc 2 k))

pub div_pow-suc : (a k : ℕ) → a / 2 ^ suc k ≡ a / 2 / 2 ^ k
div_pow-suc a k =
    ap (λ (t : ℕ). a / t) (pow-suc 2 k ∙ mul_comm (2 ^ k) 2) ∙ sym (div-div-eq-div-mul a 2 (2 ^ k))

pub mod_pow-suc : (a k : ℕ) → a % 2 ^ suc k ≡ a / 2 % 2 ^ k * 2 + a % 2
mod_pow-suc a k = omega (
  arith,
  pow-suc 2 k,
  ap (λ (t : ℕ). t * 2 ^ suc k) (div_pow-suc a k),
  double_field (a / 2 / 2 ^ k) k,
  div-add-mod a (2 ^ suc k),
  div-add-mod (a / 2) (2 ^ k),
)

pub pow_add : (b k j : ℕ) → b ^ (k + j) ≡ b ^ k * b ^ j
pow_add b zero j =
    ap (λ (t : ℕ). b ^ t) (zero-add j)
    ∙ sym (one-mul (b ^ j))
    ∙ ap (λ (t : ℕ). t * b ^ j) (sym (pow-zero b))
pow_add b (suc k) j = omega (
  arith,
  ap (λ (t : ℕ). b ^ t) (suc-add k j),
  pow-suc b (k + j),
  ap (λ (t : ℕ). t * b) (pow_add b k j),
  ap (λ (t : ℕ). t * b ^ j) (pow-suc b k),
)

pub pow_le : (n d : ℕ) → 2 ^ n ≤ 2 ^ (n + d)
pow_le n d = grind (arith, pow_add 2 n d, one-le-pow d 2)

pub pow_lt : (n w : ℕ) → n < w → 2 ^ n < 2 ^ w
pow_lt n w h =
    let e : suc n + (w - suc n) ≡ w = omega arith in
    omega (
      arith,
      ap (λ (t : ℕ). 2 ^ t) e,
      pow_le (suc n) (w - suc n),
      pow-suc 2 n,
      one-le-pow n 2 (omega arith),
    )
