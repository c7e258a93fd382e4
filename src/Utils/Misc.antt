-- ===== src/Utils/Misc.antt =====
-- src/kernel/utils/misc.c. A word passed by pointer is taken and returned by value.
pub mod Laws
use vardar_os.Prelude.{
  Bool, Option, add64, bit_and, bit_or, complement64, false, if◌then◌else◌, length, ltb, none, some,
  sub64, suc, true, zero, ℕ, ◌%◌, ◌+◌, ◌-◌, ◌/◌, ◌==◌, ◌>>>◌, ◌^◌,
}
use vardar_os.Prelude.Int.{negsuc, pos, ℤ}
use vardar_os.Memory.{Memory, write8}

-- `*num |= (1 << n)`. The 1 is an `int`: shifting it by 31 sets the sign bit, which the widening
-- to 64 bits spreads over the upper half, and C leaves a shift by 32 or more undefined (`none`).
unfoldable pub set_nth_bit : ℕ → ℕ → Option ℕ
set_nth_bit num n =
    if ltb n 31
    then some (bit_or num (2 ^ n))
    else if n == 31
    then some (bit_or num (2 ^ 64 - 2 ^ 31))
    else none

-- `*num &= ~(1UL << n)`.
unfoldable pub clear_nth_bit : ℕ → ℕ → Option ℕ
clear_nth_bit num n = if ltb n 64 then some (bit_and num (complement64 (2 ^ n))) else none

unfoldable pub get_nth_bit : ℕ → ℕ → Option ℕ
get_nth_bit num n = if ltb n 64 then some (bit_and (num >>> n) 1) else none

-- The mask `~(multiple - 1)` is a `uint32_t`, so its upper 32 bits are 0 when it meets the sum.
unfoldable pub round_to_nearest_multiple : ℕ → ℕ → ℕ
round_to_nearest_multiple num multiple =
    bit_and (sub64 (add64 num multiple) 1) (2 ^ 32 - 1 - (multiple - 1))

-- The loop of `Reverse`; each round narrows `end - start` by two.
unfoldable pub reverse_loop : ℕ → Memory → ℕ → ℕ → ℕ → Memory
unfolding write8
reverse_loop zero m str start end = m
reverse_loop (suc fuel) m str start end =
    let rest =
      reverse_loop fuel
        (write8 (write8 m (str + start) (m (str + end))) (str + end) (m (str + start))) str
        (start + 1) (end - 1) in
    if ltb start end then rest else m

-- For a length of 0 the C code has an `end` of -1; here it is 0, and no round is made either way.
unfoldable pub reverse : Memory → ℕ → ℕ → Memory
unfolding reverse_loop
reverse m str length = reverse_loop length m str 0 (length - 1)

-- The digits of `Itoa`, lowest first, from index `i`: the memory and the index after the last.
-- The test `rem > 9` of the source never holds, and is kept.
unfoldable pub itoa_loop : ℕ → Memory → ℕ → ℕ → ℕ → Option (ℕ × Memory)
unfolding write8
itoa_loop zero m buff i n = none
itoa_loop (suc fuel) m buff i n =
    let rem = n % 10 in
    let digit = if ltb 9 rem then rem - 10 + b'a' else rem + b'0' in
    let rest = itoa_loop fuel (write8 m (buff + i) digit) buff (i + 1) (n / 10) in
    if n == 0 then some (i, m) else rest

abbrev magnitude : ℤ → ℕ
magnitude (pos n) = n
magnitude (negsuc n) = suc n

abbrev is_negative : ℤ → Bool
is_negative (pos n) = false
is_negative (negsuc n) = true

-- `Itoa`; `-n` overflows for the least `int`, which the callers must not pass.
unfoldable pub itoa : ℕ → Memory → ℤ → ℕ → Option Memory
unfolding write8 itoa_loop reverse
itoa fuel m n buff =
    if magnitude n == 0
    then some (write8 (write8 m buff b'0') (buff + 1) 0)
    else elim (itoa_loop fuel m buff 0 (magnitude n)) [
      | none ↦ none
      | some (i, m') ↦
          let j = if is_negative n then i + 1 else i in
          let signed = if is_negative n then write8 m' (buff + i) b'-' else m' in
          some (reverse (write8 signed (buff + j) 0) buff j)
    ]
