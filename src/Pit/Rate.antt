-- ===== src/Pit/Rate.antt =====
-- The rate that the interval timer is set to.
use mathlib.Core.Path.{subst}
use vardar_os.Bits.{bit_or_fields}
use native.Mathlib.Nat.{div-lt_iff_lt-mul, mul_comm, div-add-mod, mod-lt}
use vardar_os.Prelude.{
  List, [], ap, arith, bit_or, false, if◌then◌else◌, refl, some, sym, u16, u8, ℕ, ◌%◌, ◌&&◌, ◌*◌,
  ◌+◌, ◌/◌, ◌<<<◌, ◌<◌, ◌==◌, ◌>>>◌, ◌∙◌, ◌∷◌, ◌≡◌, ◌≢◌, ◌≤◌,
}
use vardar_os.Interrupts.{Command, out}
use vardar_os.Pit.{default_pit_hz, pit_chan0_data, pit_command, send_pit_command, set_pit_periodic}

-- What the timer divides its clock by after the commands: the two bytes that follow the command for
-- channel 0 with access to both bytes, in mode 2.
unfoldable pub divisor : List Command → ℕ
divisor (out p c ∷ out q lower ∷ out r upper ∷ []) =
    if p == pit_command && c == 0x34 && q == pit_chan0_data && r == pit_chan0_data
    then bit_or (upper <<< 8) lower
    else 0
divisor cs = 0

-- For a rate from 19 to 1193180 ticks a second `set_pit_periodic` sets a divisor above 0, the largest
-- whose product with the rate is at most the 1193180 ticks of the clock.
pub set_pit_periodic-divisor :
    (hz : ℕ)
    → 19 ≤ hz
    → hz ≤ default_pit_hz
    → (cs : List Command) × (set_pit_periodic hz ≡ some cs)
      × (0 < divisor cs)
      × (divisor cs * hz ≤ default_pit_hz)
      × (default_pit_hz < (divisor cs + 1) * hz)
unfolding set_pit_periodic send_pit_command divisor
set_pit_periodic-divisor hz low high =
    let q = default_pit_hz / hz in
    let whole = div-add-mod default_pit_hz hz in
    let rest : default_pit_hz % hz < hz = mod-lt default_pit_hz (omega (arith, low)) in
    let below : q < 65536 =
      (div-lt_iff_lt-mul {k = hz} {x = default_pit_hz} {y = 65536} (omega (arith, low))).1
        (omega (arith, low)) in
    let product : hz * q ≡ q * hz = mul_comm hz q in
    let some_left : q ≢ 0 =
      λ e. omega (arith, product, whole, rest, high, ap (λ (t : ℕ). t * hz) e) in
    let bytes : bit_or ((u8 (u16 q >>> 8)) <<< 8) (u8 (u16 q)) ≡ q =
      bit_or_fields 8 (u8 (u16 q >>> 8)) (u8 (u16 q)) (omega arith) ∙ omega (arith, below) in
    let nonzero : (hz == 0) ≡ false = ground (arith, low) in
    let fits : q * hz ≤ default_pit_hz = omega (arith, product, whole) in
    let tight : default_pit_hz < (q + 1) * hz = omega (arith, product, whole, rest) in
    rw nonzero (
      _,
      refl,
      subst (λ (t : ℕ). 0 < t) (sym bytes) (omega (arith, some_left)),
      subst (λ (t : ℕ). t * hz ≤ default_pit_hz) (sym bytes) fits,
      subst (λ (t : ℕ). default_pit_hz < (t + 1) * hz) (sym bytes) tight,
    )
