-- ===== src/Lapic.antt =====
-- src/kernel/hal/lapic.c and lapic.h: the registers of the local APIC of the running core.
pub mod Timer
use vardar_os.Prelude.{
  Bool, Option, add64, bit_and, bit_or, if_null, if◌then◌else◌, none, not, some, suc, u8, zero, ℕ,
  ◌&&◌, ◌*◌, ◌+◌, ◌<<<◌, ◌==◌, ◌>>>◌, ◌^◌,
}
use vardar_os.Acpi.Smp.{NmiRecord, SmpInfo, get_nmi_record}
use vardar_os.IoApic.{Mmio, get_pin_polarity, get_trigger_mode}

abbrev pub lapic_id_reg : ℕ
lapic_id_reg = 0x020

abbrev pub lapic_version_reg : ℕ
lapic_version_reg = 0x030

abbrev pub lapic_eoi_reg : ℕ
lapic_eoi_reg = 0x0B0

abbrev pub lapic_spurious_int_reg : ℕ
lapic_spurious_int_reg = 0x0F0

abbrev pub lapic_icr0_reg : ℕ
lapic_icr0_reg = 0x300

abbrev pub lapic_icr1_reg : ℕ
lapic_icr1_reg = 0x310

abbrev pub lapic_lint0_reg : ℕ
lapic_lint0_reg = 0x350

abbrev pub lapic_lint1_reg : ℕ
lapic_lint1_reg = 0x360

-- `lvt_entry_t`, from bit 0 upwards; 12 reserved bits at its end.
pub record LvtEntry : Type 0 where
  pub vector : ℕ
  pub delivery_mode : ℕ
  pub reserved0 : ℕ
  pub delivery_status : ℕ
  pub pin_polarity : ℕ
  pub remote_irr_flag : ℕ
  pub trigger_mode : ℕ
  pub mask : ℕ
  pub timer_mode : ℕ
  pub reserved1 : ℕ

unfoldable pub lvt_dword : LvtEntry → ℕ
lvt_dword e =
    e.vector
    + 2 ^ 8 * e.delivery_mode
    + 2 ^ 11 * e.reserved0
    + 2 ^ 12 * e.delivery_status
    + 2 ^ 13 * e.pin_polarity
    + 2 ^ 14 * e.remote_irr_flag
    + 2 ^ 15 * e.trigger_mode
    + 2 ^ 16 * e.mask
    + 2 ^ 17 * e.timer_mode
    + 2 ^ 19 * e.reserved1

-- The entry that `enable_nmi` builds on what stood in its variable.
unfoldable pub nmi_entry : LvtEntry → NmiRecord → LvtEntry
nmi_entry uninit r = record uninit {
  vector = 0xFF;
  mask = 0;
  delivery_mode = 4;
  pin_polarity = get_pin_polarity r.flags;
  trigger_mode = get_trigger_mode r.flags;
}

-- `base` is the static LAPIC_BASE.
module _ {S : Type 0} (dev : Mmio S) (base : ℕ) where
  unfoldable pub lapic_write : S → ℕ → ℕ → S
  lapic_write m lapic_reg val = dev.store m (add64 base lapic_reg) val

  unfoldable pub lapic_read : S → ℕ → ℕ
  lapic_read m lapic_reg = dev.load m (add64 base lapic_reg)

  unfoldable pub get_lapic_id : S → ℕ
  unfolding lapic_read
  get_lapic_id m = u8 (lapic_read m lapic_id_reg >>> 24)

  unfoldable pub get_lapic_version : S → ℕ
  unfolding lapic_read
  get_lapic_version m = u8 (lapic_read m lapic_version_reg)

  unfoldable pub enable_nmi : LvtEntry → S → NmiRecord → S
  unfolding lapic_write
  enable_nmi uninit m r =
      let lint_reg = if r.lint then lapic_lint0_reg else lapic_lint1_reg in
      if not (get_lapic_id m == r.acpi_processor_id) && not (r.acpi_processor_id == 0xFF)
      then m
      else lapic_write m lint_reg (lvt_dword (nmi_entry uninit r))

  -- The loop of `enable_lapic` over the records of NMIs, from index `i`: a uint8_t when it is passed.
  unfoldable pub enable_nmis : ℕ → LvtEntry → NmiRecord → SmpInfo → S → ℕ → Option S
  enable_nmis zero uninit stray s m i = none
  enable_nmis (suc fuel) uninit stray s m i =
      if_null (some m) (λ r. enable_nmis fuel uninit stray s (enable_nmi uninit m r) (i + 1))
        (get_nmi_record s stray (u8 i))

  -- `enable_lapic`, after LAPIC_BASE has been set to the address in SMP_INFO.
  unfoldable pub enable_lapic : ℕ → LvtEntry → NmiRecord → SmpInfo → S → Option S
  enable_lapic fuel uninit stray s m =
      if_null none
        (λ m1. some (
          lapic_write m1 lapic_spurious_int_reg
            (bit_or (lapic_read m1 lapic_spurious_int_reg) (1 <<< 8))))
        (enable_nmis fuel uninit stray s m 0)

  unfoldable pub disable_lapic : S → S
  disable_lapic m =
      lapic_write m lapic_spurious_int_reg (bit_or (lapic_read m lapic_spurious_int_reg) (0 <<< 8))

  unfoldable pub eoi_is_broadcast : S → Bool
  eoi_is_broadcast m = bit_and (lapic_read m lapic_spurious_int_reg) (1 <<< 12) == 0

  unfoldable pub set_eoi_broadcast : S → Bool → S
  set_eoi_broadcast m enabled =
      let same = if enabled then eoi_is_broadcast m else not (eoi_is_broadcast m) in
      let bit = if enabled then 0 else 1 in
      if same
      then m
      else lapic_write m lapic_spurious_int_reg
          (bit_or (lapic_read m lapic_spurious_int_reg) (bit <<< 12))

  -- The upper word first.
  unfoldable pub send_ipi : S → ℕ → ℕ → S
  send_ipi m lower upper = lapic_write (lapic_write m lapic_icr1_reg upper) lapic_icr0_reg lower

  -- `end_of_interrupt` of io_apic.c.
  unfoldable pub end_of_interrupt : S → S
  end_of_interrupt m = lapic_write m lapic_eoi_reg 0
