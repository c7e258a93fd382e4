-- ===== src/Utils/Printf/Convert.antt =====
-- The digits that `Convert` writes, read back as a number.
use native.Mathlib.Nat.{div-lt_iff_lt-mul, pow-le-pow_left, div-add-mod, pow-suc, pow-zero}
use mathlib.Core.Path.{subst}
use vardar_os.Utils.String.Compare.{IsString, IsString-cong}
use vardar_os.Memory.{Memory, write8}
use vardar_os.Prelude.{
  Bool-cases, List, [], ap, arith, get_or, if◌then◌else◌, inl, inr, length, ltb, refl, some, suc,
  zero, ℕ, ◌%◌, ◌*◌, ◌+◌, ◌-◌, ◌/◌, ◌<◌, ◌==◌, ◌^◌, ◌∙◌, ◌∷◌, ◌≡◌, ◌≢◌, ◌≤◌, ◌⊎◌,
}
use vardar_os.Utils.Printf.{convert, convert_loop, hex_digits}

-- The number that a digit stands for.
abbrev pub digit_value : ℕ → ℕ
digit_value c = if ltb c 58 then c - 48 else c - 55

-- The number that a string of digits stands for, the highest first.
unfoldable pub value : ℕ → List ℕ → ℕ
value base [] = 0
value base (c ∷ s) = digit_value c * base ^ length s + value base s

-- Each character is that of a digit below the base.
unfoldable pub IsDigits : ℕ → List ℕ → Type 0
IsDigits base [] = Unit
IsDigits base (c ∷ s) = (d : ℕ) × (d < base) × (c ≡ get_or hex_digits d 0) × IsDigits base s

-- The characters stand for the numbers from `k` on.
unfoldable Digits : ℕ → List ℕ → Type 0
Digits k [] = Unit
Digits k (c ∷ s) = (digit_value c ≡ k) × (0 < c) × (c < 256) × Digits (k + 1) s

get_or-Digits :
    (k : ℕ) (xs : List ℕ) (i : ℕ)
    → Digits k xs
    → i < length xs
    → (digit_value (get_or xs i 0) ≡ k + i) × (0 < get_or xs i 0) × (get_or xs i 0 < 256)
unfolding Digits
get_or-Digits k [] i digits lt = absurd (omega (arith, lt))
get_or-Digits k (c ∷ xs) zero (digit, pos, byte, digits) lt = (digit ∙ omega arith, pos, byte)
get_or-Digits k (c ∷ xs) (suc i) (digit, pos, byte, digits) lt =
    let (rest, pos', byte') = get_or-Digits (k + 1) xs i digits (omega (arith, lt)) in
    (rest ∙ omega arith, pos', byte')

hex_digits-Digits : Digits 0 hex_digits
unfolding Digits
hex_digits-Digits = ground arith

hex_digit-lem :
    (d : ℕ)
    → d < 16
    → (digit_value (get_or hex_digits d 0) ≡ d)
      × (0 < get_or hex_digits d 0)
      × (get_or hex_digits d 0 < 256)
hex_digit-lem d lt =
    let (digit, pos, byte) = get_or-Digits 0 hex_digits d hex_digits-Digits lt in
    (digit ∙ omega arith, pos, byte)

value-step : (num base p : ℕ) → 0 < base → num / base * (p * base) + num % base * p ≡ num * p
value-step num base p pos = omega (arith, ap (λ (t : ℕ). t * p) (div-add-mod num base))

-- The loop writes the digits of `num` before the string at `ptr`.
IsConverted : Memory → Memory → ℕ → ℕ → ℕ → ℕ → List ℕ → ℕ → Type 0
IsConverted m k base num d ptr s p =
    (t : List ℕ) × IsString k p t
    × IsDigits base t
    × (value base t ≡ num * base ^ length s + value base s)
    × (ptr ≤ p + d)
    × (p < ptr)
    × (p + length t ≡ ptr + length s)
    × ((x : ℕ) → (x + d < ptr) ⊎ (ptr ≤ x) → k x ≡ m x)

write8_same : (m : Memory) (a v : ℕ) → v < 256 → write8 m a v a ≡ v
unfolding write8
write8_same m a v lt = ground (arith, lt)

write8_other : (m : Memory) (a v x : ℕ) → x ≢ a → write8 m a v x ≡ m x
unfolding write8
write8_other m a v x ne = ground (arith, ne)

-- One more digit in front of the string.
digit_IsString :
    (m : Memory) (ptr c : ℕ) (s : List ℕ)
    → 0 < ptr
    → 0 < c
    → c < 256
    → IsString m ptr s
    → IsString (write8 m (ptr - 1) c) (ptr - 1) (c ∷ s)
digit_IsString m ptr c s room pos byte str = (
  write8_same m (ptr - 1) c byte,
  (λ e. omega (arith, e, pos)),
  IsString-cong s m (write8 m (ptr - 1) c) (ptr - 1 + 1)
      (subst (λ t. IsString m t s) (omega arith) str)
      (λ x le below. write8_other m (ptr - 1) c x (λ e. omega (arith, le, e))),
)

fuel_left : (n base d : ℕ) → 0 < n → n < base ^ d → 0 < d
fuel_left n base zero pos lt = absurd (omega (arith, pos, lt, pow-zero base))
fuel_left n base (suc d) pos lt = omega arith

div_below : (n base d : ℕ) → 0 < base → n < base ^ suc d → n / base < base ^ d
div_below n base d pos lt =
    (div-lt_iff_lt-mul {k = base} {x = n} {y = base ^ d} pos).1 (omega (arith, lt, pow-suc base d))

convert_loop-IsConverted :
    (d : ℕ) (m : Memory) (ptr num base : ℕ) (s : List ℕ)
    → 1 < base
    → base ≤ 16
    → num < base ^ d
    → 0 < d
    → d ≤ ptr
    → IsString m ptr s
    → IsDigits base s
    → (p : ℕ) × (k : Memory) × (convert_loop d m ptr num base ≡ some (p, k))
      × IsConverted m k base num d ptr s p
unfolding convert_loop IsConverted value IsDigits
convert_loop-IsConverted zero m ptr num base s big small lt pos room str digits =
    absurd (omega (arith, pos))
convert_loop-IsConverted (suc d) m ptr num base s big small lt pos room str digits =
    let c = get_or hex_digits (num % base) 0 in
    let m1 = write8 m (ptr - 1) c in
    let (digit, pos_c, byte_c) = hex_digit-lem (num % base) (omega (arith, big, small)) in
    let str1 = digit_IsString m ptr c s (omega arith) pos_c byte_c str in
    let digits1 : IsDigits base (c ∷ s) = (num % base, omega (arith, big), refl, digits) in
    let step = value-step num base (base ^ length s) (omega arith) in
    elim (Bool-cases (num / base == 0)) [
      | inl last ↦
          let zero_rest : num / base ≡ 0 = ground (arith, last) in
          let none_left = ap (λ (t : ℕ). t * (base ^ length s * base)) zero_rest in
          let total : value base (c ∷ s) ≡ num * base ^ length s + value base s =
            omega (arith, ap (λ (t : ℕ). t * base ^ length s) digit, step, none_left) in
          (
            ptr - 1,
            m1,
            rw last refl,
            (
              c ∷ s,
              str1,
              digits1,
              total,
              omega arith,
              omega arith,
              omega arith,
              (λ x out. write8_other m (ptr - 1) c x (λ e. ground (arith, out, e))),
            ),
          )
      | inr more ↦
          let some_rest : 0 < num / base = ground (arith, more) in
          let below : num / base < base ^ d = div_below num base d (omega arith) lt in
          let some_fuel = fuel_left (num / base) base d some_rest below in
          let (p, k, run, (t, str_t, digits_t, val, le, lt_p, len, same)) =
            convert_loop-IsConverted d m1 (ptr - 1) (num / base) base (c ∷ s) big small below
              some_fuel (omega arith) str1 digits1 in
          let total : value base t ≡ num * base ^ length s + value base s = omega (
            arith,
            val,
            ap (λ (t : ℕ). t * base ^ length s) digit,
            step,
            ap (λ (t : ℕ). num / base * t) (pow-suc base (length s)),
          ) in
          (
            p,
            k,
            rw more run,
            (
              t,
              str_t,
              digits_t,
              total,
              omega arith,
              omega arith,
              omega arith,
              (λ x out.
                  same x (ground (arith, out))
                  ∙ write8_other m (ptr - 1) c x (λ e. ground (arith, out, e))),
            ),
          )
    ]

-- More fuel does not change the result.
convert_loop_more :
    (f g : ℕ) (m : Memory) (ptr num base : ℕ) (r : ℕ × Memory)
    → convert_loop f m ptr num base ≡ some r
    → f ≤ g
    → convert_loop g m ptr num base ≡ some r
unfolding convert_loop
convert_loop_more zero g m ptr num base r done le = ground (arith, done)
convert_loop_more (suc f) zero m ptr num base r done le = absurd (omega (arith, le))
convert_loop_more (suc f) (suc g) m ptr num base r done le =
    let c = get_or hex_digits (num % base) 0 in
    let ih = convert_loop_more f g (write8 m (ptr - 1) c) (ptr - 1) (num / base) base r in
    ground (arith, done, ih, le)

-- `Convert` of a 64-bit number to base 8, 10, 16 or one between, within its buffer of 32 characters:
-- it returns a pointer into the buffer, at least 9 characters behind its start, to a string of
-- digits that stands for the number and ends with the buffer, and changes no byte outside it.
pub convert-value :
    (m : Memory) (buffer num base : ℕ)
    → 8 ≤ base
    → base ≤ 16
    → num < 2 ^ 64
    → (p : ℕ) × (k : Memory) × (s : List ℕ) × (convert m buffer num base ≡ some (p, k))
      × IsString k p s
      × IsDigits base s
      × (value base s ≡ num)
      × (buffer + 9 ≤ p)
      × (p + length s ≡ buffer + 31)
      × ((x : ℕ) → (x < buffer) ⊎ (buffer + 32 ≤ x) → k x ≡ m x)
unfolding convert IsConverted value IsDigits
convert-value m buffer num base big small lt =
    let m1 = write8 m (buffer + 31) 0 in
    let enough : num < base ^ 22 = omega (arith, lt, pow-le-pow_left big 22) in
    let (p, k, run, (s, str, digits, val, le, below, len, same)) =
      convert_loop-IsConverted 22 m1 (buffer + 31) num base [] (omega arith) small enough
        (omega arith) (omega arith) (write8_same m (buffer + 31) 0 (omega arith)) tt in
    (
      p,
      k,
      s,
      convert_loop_more 22 64 m1 (buffer + 31) num base (p, k) run (omega arith),
      str,
      digits,
      omega (arith, val, ap (λ (t : ℕ). num * t) (pow-zero base)),
      omega arith,
      omega arith,
      (λ x out.
          same x (ground (arith, out))
          ∙ write8_other m (buffer + 31) 0 x (λ e. ground (arith, out, e))),
    )
