-- ===== src/Lapic/Timer.antt =====
-- `lapic_timer_init` of src/kernel/hal/lapic.c: the timer of the local APIC, measured against the
-- interval timer. The device after the wait of 100 interrupts is given; `sti`, `cli` and the handler
-- that counts the interrupts are not modelled.
use vardar_os.Prelude.{
  List, Option, arith, sub32, u16, u32, ℕ, ◌%◌, ◌*◌, ◌-◌, ◌/◌, ◌<◌, ◌^◌, ◌↔◌, ◌≡◌, ◌≤◌,
}
use vardar_os.Interrupts.{Command}
use vardar_os.IoApic.{Mmio}
use vardar_os.Pit.{set_pit_periodic}
use vardar_os.Lapic.{LvtEntry, get_lapic_id, lapic_read, lapic_write, lvt_dword}

abbrev pub lapic_timer_reg : ℕ
lapic_timer_reg = 0x320

abbrev pub lapic_init_count_reg : ℕ
lapic_init_count_reg = 0x380

abbrev pub lapic_current_count_reg : ℕ
lapic_current_count_reg = 0x390

abbrev pub lapic_divide_config_reg : ℕ
lapic_divide_config_reg = 0x3E0

-- The fields of a word of the local vector table; bit 31, of no field, is kept with the reserved
-- ones.
unfoldable pub lvt_of : ℕ → LvtEntry
lvt_of d = record {
  vector = d % 2 ^ 8;
  delivery_mode = d / 2 ^ 8 % 2 ^ 3;
  reserved0 = d / 2 ^ 11 % 2;
  delivery_status = d / 2 ^ 12 % 2;
  pin_polarity = d / 2 ^ 13 % 2;
  remote_irr_flag = d / 2 ^ 14 % 2;
  trigger_mode = d / 2 ^ 15 % 2;
  mask = d / 2 ^ 16 % 2;
  timer_mode = d / 2 ^ 17 % 2 ^ 2;
  reserved1 = d / 2 ^ 19 % 2 ^ 13;
}

-- The entry that is written back: fixed delivery, masked, one shot.
unfoldable pub timer_entry : ℕ → ℕ → LvtEntry
timer_entry dword vector = record (lvt_of dword) {
  vector = vector;
  delivery_mode = 0;
  mask = 1;
  timer_mode = 0;
}

-- The frequency from the two counts, and the `uint16_t` that it is stored in.
unfoldable pub timer_hz : ℕ → ℕ → ℕ
timer_hz init_lapic_count final_lapic_count =
    let total_lapic_tics = u32 (sub32 init_lapic_count final_lapic_count * 8) in
    u16 (u32 (total_lapic_tics / 100 * 1000))

module _ {S : Type 0} (dev : Mmio S) (base : ℕ) where
  -- The device, the commands to the interval timer, and the entry of LAPIC_TIMER_HZs: its index and
  -- its value. `waited` is what 100 interrupts make of the device.
  unfoldable pub lapic_timer_init : (S → S) → S → ℕ → S × Option (List Command) × ℕ × ℕ
  lapic_timer_init waited m vector =
      let entry = lvt_dword (timer_entry (lapic_read dev base m lapic_timer_reg) vector) in
      let m1 = lapic_write dev base m lapic_timer_reg entry in
      let m2 = lapic_write dev base m1 lapic_divide_config_reg 2 in
      let m3 = lapic_write dev base m2 lapic_init_count_reg 0xFFFFFFFF in
      let init_lapic_count = lapic_read dev base m3 lapic_current_count_reg in
      let m4 = waited m3 in
      let final_lapic_count = lapic_read dev base m4 lapic_current_count_reg in
      (
        m4,
        set_pit_periodic 1000,
        get_lapic_id dev base m4,
        timer_hz init_lapic_count final_lapic_count,
      )

-- Where the counter, which counts down once in 8 ticks, went down by `n`, at most 2 ^ 29 / 10 so that
-- nothing wraps around in 32 bits, the stored frequency is 1000 for each 100 ticks, modulo 2 ^ 16; it
-- is that frequency exactly if the frequency is below 65536.
pub timer_hz-wraps :
    (start n : ℕ)
    → start < 2 ^ 32
    → n ≤ start
    → n * 10 ≤ 2 ^ 29
    → (timer_hz start (start - n) ≡ n * 8 / 100 * 1000 % 2 ^ 16)
      × ((timer_hz start (start - n) ≡ n * 8 / 100 * 1000) ↔ (n * 8 / 100 * 1000 < 2 ^ 16))
unfolding timer_hz
timer_hz-wraps start n lt le small = (
  omega (arith, lt, le, small),
  ((λ e. omega (arith, e, lt, le, small)), (λ b. omega (arith, b, lt, le, small))),
)
