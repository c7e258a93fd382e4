-- ===== src/Bits.antt =====
-- `|`, `&` and shifts on machine words as arithmetic: disjoint fields, low and high masks, and
-- the single bits of a word.
mod Step
pub mod Pow
pub mod Single
use mathlib.Core.Path.{ap₂}
use Prim.Native.Nat.{bit_and-bitwise}
use Step.{bit_or_step, bit_and_step}
use Pow.{double_field, div_pow-suc, mod_pow-suc}
use native.Mathlib.Nat.{pow-suc, one-le-pow}
use vardar_os.Prelude.{
  ap, arith, bit_and, bit_or, refl, suc, zero, ℕ, ◌%◌, ◌*◌, ◌+◌, ◌-◌, ◌/◌, ◌<<<◌, ◌<◌, ◌^◌, ◌≡◌,
  ◌≤◌,
}

pub bit_and-zero : (a : ℕ) → bit_and a 0 ≡ 0
bit_and-zero a = below a a (omega arith)
  where
    below : (n a : ℕ) → a ≤ n → bit_and a 0 ≡ 0
    below n zero h = refl
    below zero (suc a) h = absurd (omega arith)
    below (suc n) (suc a) h =
        omega (arith, bit_and_step (suc a) 0, below n (suc a / 2) (omega arith))

pub bit_or-zero : (a : ℕ) → bit_or a 0 ≡ a
bit_or-zero a = below a a (omega arith)
  where
    below : (n a : ℕ) → a ≤ n → bit_or a 0 ≡ a
    below n zero h = refl
    below zero (suc a) h = absurd (omega arith)
    below (suc n) (suc a) h =
        omega (arith, bit_or_step (suc a) 0, below n (suc a / 2) (omega arith))

halved_field : (q k : ℕ) → q * 2 ^ suc k / 2 ≡ q * 2 ^ k
halved_field q k = omega (arith, double_field q k)

halved_mask : (k : ℕ) → (2 ^ suc k - 1) / 2 ≡ 2 ^ k - 1
halved_mask k = omega (arith, pow-suc 2 k, one-le-pow k 2 (omega arith))

-- `(q << k) | r` is a sum when `r` fits in `k` bits.
pub bit_or_fields : (k q r : ℕ) → r < 2 ^ k → bit_or (q <<< k) r ≡ q <<< k + r
bit_or_fields zero q r fits = ground (arith, bit_or-zero q)
bit_or_fields (suc k) q r fits = ground (
  arith,
  bit_or_step (q * 2 ^ suc k) r,
  double_field q k,
  pow-suc 2 k,
  bit_or_fields k q (r / 2) (omega (arith, pow-suc 2 k)),
)

-- An or with a number whose lowest `k` bits are 0 leaves the lowest `k` bits.
pub bit_or_low : (k a q : ℕ) → bit_or a (q <<< k) % 2 ^ k ≡ a % 2 ^ k
bit_or_low zero a q = omega arith
bit_or_low (suc k) a q =
    let upper = bit_or (a / 2) (q * 2 ^ k) in
    let step : bit_or a (q * 2 ^ suc k) ≡ upper * 2 + a % 2 = omega (
      arith,
      bit_or_step a (q * 2 ^ suc k),
      ap (λ (t : ℕ). bit_or (a / 2) t) (halved_field q k),
      double_field q k,
    ) in
    let half : bit_or a (q * 2 ^ suc k) / 2 ≡ upper = omega (arith, step) in
    omega (
      arith,
      mod_pow-suc (bit_or a (q * 2 ^ suc k)) k,
      mod_pow-suc a k,
      step,
      ap (λ (t : ℕ). t % 2 ^ k) half,
      bit_or_low k (a / 2) q,
    )

-- A mask whose lowest `k` bits are 0 leaves the upper bits of `a` under the rest of the mask.
pub bit_and_high : (k m a : ℕ) → bit_and a (m <<< k) ≡ bit_and (a / 2 ^ k) m <<< k
bit_and_high zero m a = ground arith
bit_and_high (suc k) m a =
    let halved : a / 2 ^ suc k ≡ a / 2 / 2 ^ k = div_pow-suc a k in
    rw halved (
      omega (
        arith,
        bit_and_step a (m * 2 ^ suc k),
        double_field m k,
        double_field (bit_and (a / 2 / 2 ^ k) m) k,
        ap (λ (t : ℕ). bit_and (a / 2) t) (halved_field m k),
        bit_and_high k m (a / 2),
      ))

-- A mask of the `k` lowest bits is the remainder by `2 ^ k`.
pub bit_and_low : (k a : ℕ) → bit_and a (2 ^ k - 1) ≡ a % 2 ^ k
bit_and_low zero a = omega (arith, bit_and-zero a)
bit_and_low (suc k) a = omega (
  arith,
  pow-suc 2 k,
  one-le-pow k 2 (omega arith),
  bit_and_step a (2 ^ suc k - 1),
  ap (λ (t : ℕ). bit_and (a / 2) t) (halved_mask k),
  bit_and_low k (a / 2),
  mod_pow-suc a k,
)

-- A mask of `j` ones above `k` zeros keeps `j` bits in their place.
pub bit_and_field : (k j a : ℕ) → bit_and a ((2 ^ j - 1) <<< k) ≡ (a / 2 ^ k % 2 ^ j) <<< k
bit_and_field k j a = rw (bit_and_high, bit_and_low)

pub bit_and-le : (a b : ℕ) → bit_and a b ≤ a
bit_and-le a b = below a a b (omega arith)
  where
    below : (n a b : ℕ) → a ≤ n → bit_and a b ≤ a
    below n zero b h = omega (arith, bit_and_step 0 b, bit_and-bitwise 0 b)
    below zero (suc a) b h = absurd (omega arith)
    below (suc n) (suc a) b h =
        omega (arith, bit_and_step (suc a) b, below n (suc a / 2) (b / 2) (omega arith))

pub bit_or-lt : (w a b : ℕ) → a < 2 ^ w → b < 2 ^ w → bit_or a b < 2 ^ w
bit_or-lt zero a b h k =
    let e : a ≡ 0 = omega arith in let e' : b ≡ 0 = omega arith in omega (arith, ap₂ bit_or e e')
bit_or-lt (suc w) a b h k = omega (
  arith,
  pow-suc 2 w,
  bit_or_step a b,
  bit_or-lt w (a / 2) (b / 2) (omega (arith, pow-suc 2 w)) (omega (arith, pow-suc 2 w)),
)
