-- ===== src/Ustar/Size.antt =====
-- The size of an entry of a ustar archive and the step to the next one.
use mathlib.Core.Option
use native.Mathlib.Nat.{pow-suc, div-div-eq-div-mul, div-le_self, div-eq_of_lt}
use vardar_os.Prelude.{
  some, true, ltb, leb, if◌then◌else◌, ap, arith, suc, sym, zero, ℕ, ◌%◌, ◌*◌, ◌+◌, ◌-◌, ◌/◌, ◌<◌,
  ◌^◌, ◌∙◌, ◌≡◌, ◌≤◌,
}
use vardar_os.Memory.{Memory}
use vardar_os.Ustar.{oct2bin_step, next_entry, oct2bin, oct2bin_loop}

-- The `size` bytes at `str` are the octal digits of `v`, the highest first.
unfoldable pub IsOctal : Memory → ℕ → ℕ → ℕ → Type 0
IsOctal m str size v = (i : ℕ) → i < size → m (str + i) ≡ 48 + v / 8 ^ (size - 1 - i) % 8

div_pow-suc_8 : (v k : ℕ) → v / 8 ^ suc k ≡ v / 8 ^ k / 8
div_pow-suc_8 v k = ap (λ (t : ℕ). v / t) (pow-suc 8 k) ∙ sym (div-div-eq-div-mul v (8 ^ k) 8)

digit_at :
    (m : Memory) (c size v : ℕ)
    → IsOctal m c size v
    → (i a k : ℕ) → i < size
    → c + i ≡ a
    → size - 1 - i ≡ k
    → m a ≡ 48 + v / 8 ^ k % 8
unfolding IsOctal
digit_at m c size v digits i a k lt_i eq_a eq_k =
    ap m (sym eq_a) ∙ digits i lt_i ∙ ap (λ (t : ℕ). 48 + v / 8 ^ t % 8) eq_k

-- A round where the int is `w / 8` and the character the last digit of `w`.
oct2bin_step_lem : (w n c : ℕ) → w < 2 ^ 31 → n ≡ w / 8 → c ≡ 48 + w % 8 → oct2bin_step n c ≡ some w
unfolding oct2bin_step
oct2bin_step_lem w n c lt at digit =
    let times : 8 * ((n + 2 ^ 31) % 2 ^ 32) ≡ 2 ^ 34 + w / 8 * 8 = omega (arith, at, lt) in
    let ascii : (if ltb c 128 then c + 208 else c - 48) ≡ 256 + w % 8 = ground (arith, digit) in
    let low : leb (2 ^ 34 - 2 ^ 31) (2 ^ 34 + w / 8 * 8) ≡ true = ground arith in
    let high : ltb (2 ^ 34 + w / 8 * 8) (2 ^ 34 + 2 ^ 31) ≡ true = ground (arith, lt) in
    let sum : 2 ^ 34 + w / 8 * 8 - (2 ^ 34 - 2 ^ 31) + (256 + w % 8) ≡ 2 ^ 31 + 256 + w =
      omega arith in
    let above : leb 256 (2 ^ 31 + 256 + w) ≡ true = ground arith in
    let under : ltb (2 ^ 31 + 256 + w) (2 ^ 32 + 256) ≡ true = ground (arith, lt) in
    rw (times, ascii, sum, low, high, above, under) (ap some (omega (arith, lt)))

oct2bin_loop_lem :
    (m : Memory) (c size v : ℕ)
    → IsOctal m c size v
    → v < 2 ^ 31
    → oct2bin_loop m c size (v / 8 ^ size) ≡ some v
unfolding oct2bin_loop IsOctal Option.bind
oct2bin_loop_lem m c zero v digits lt = ap some (omega arith)
oct2bin_loop_lem m c (suc size) v digits lt =
    let digit : m c ≡ 48 + v / 8 ^ size % 8 =
      digit_at m c (suc size) v digits 0 c size (omega arith) (omega arith) (omega arith) in
    let below : v / 8 ^ size < 2 ^ 31 = omega (arith, lt, div-le_self v (8 ^ size)) in
    let step : oct2bin_step (v / 8 ^ suc size) (m c) ≡ some (v / 8 ^ size) =
      oct2bin_step_lem (v / 8 ^ size) (v / 8 ^ suc size) (m c) below (div_pow-suc_8 v size) digit in
    let rest : IsOctal m (c + 1) size v = λ i lt_i.
      digit_at m c (suc size) v digits (suc i) (c + 1 + i) (size - 1 - i) (omega (arith, lt_i))
        (omega arith) (omega arith) in
    rw (oct2bin_loop, step) (oct2bin_loop_lem m (c + 1) size v rest lt)

-- If a field of `size` bytes holds the octal digits of a number below 8 ^ size and 2 ^ 31, the
-- highest digit first, then `oct2bin` returns the number.
pub oct2bin-IsOctal :
    (m : Memory) (str size v : ℕ)
    → IsOctal m str size v
    → v < 8 ^ size
    → v < 2 ^ 31
    → oct2bin m str size ≡ some v
unfolding oct2bin
oct2bin-IsOctal m str size v digits lt lt32 =
    ap (oct2bin_loop m str size) (sym (div-eq_of_lt lt)) ∙ oct2bin_loop_lem m str size v digits lt32

-- After an entry of `len` bytes, above 0, the step to the next entry ends within the contents of the
-- file, which begin 512 bytes after the entry.
pub next_entry-in_contents :
    (ustar_ptr len : ℕ)
    → 0 < len
    → (ustar_ptr + 512 ≤ next_entry ustar_ptr len)
      × (next_entry ustar_ptr len < ustar_ptr + 512 + len)
unfolding next_entry
next_entry-in_contents ustar_ptr len lt = ground (arith, lt)
