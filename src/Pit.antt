-- ===== src/Pit.antt =====
-- src/kernel/hal/pit.c: the interval timer. What it writes to its ports is a list of commands, and a
-- byte that it reads is given.
pub mod Rate
use vardar_os.Prelude.{
  List, Option, [], bit_or, if◌then◌else◌, none, some, u16, u8, ℕ, ◌*◌, ◌+◌, ◌/◌, ◌<<<◌, ◌==◌,
  ◌>>>◌, ◌^◌, ◌∷◌,
}
use vardar_os.Interrupts.{Command, out}

abbrev pub default_pit_hz : ℕ
default_pit_hz = 1193180

abbrev pub pit_chan0_data : ℕ
pit_chan0_data = 0x40

abbrev pub pit_command : ℕ
pit_command = 0x43

-- `pit_command_t`, from bit 0 upwards.
pub record PitCommand : Type 0 where
  pub binary_mode : ℕ
  pub operating_mode : ℕ
  pub access_mode : ℕ
  pub channel : ℕ

-- `send_pit_command`.
unfoldable pub send_pit_command : PitCommand → Command
send_pit_command c =
    out pit_command
      (c.binary_mode + 2 * c.operating_mode + 2 ^ 4 * c.access_mode + 2 ^ 6 * c.channel)

-- `set_pit_periodic`; a rate of 0 is a division by zero.
unfoldable pub set_pit_periodic : ℕ → Option (List Command)
set_pit_periodic hz =
    let reset_value = u16 (default_pit_hz / hz) in
    let reset_com : PitCommand = record {
      binary_mode = 0;
      operating_mode = 2;
      access_mode = 3;
      channel = 0;
    } in
    if hz == 0
    then none
    else some (
        send_pit_command reset_com
        ∷ out pit_chan0_data (u8 reset_value)
        ∷ out pit_chan0_data (u8 (reset_value >>> 8))
        ∷ [])

-- `read_pit_count`: the command, and the count of the two bytes that are read behind it.
unfoldable pub read_pit_count : ℕ → ℕ → Command × ℕ
read_pit_count lower upper = (
  send_pit_command (record { binary_mode = 0; operating_mode = 0; access_mode = 0; channel = 0 }),
  bit_or lower (upper <<< 8),
)
