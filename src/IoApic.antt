-- ===== src/IoApic.antt =====
-- src/kernel/hal/io_apic.c and io_apic.h: the I/O APICs, the redirection entry of each global
-- system interrupt (GSI), and the attributes of each vector. The device registers are a parameter:
-- `S` is the state of the machine, with loads and stores of 32-bit registers.
pub mod Entry
pub mod Mask
pub mod Routes
pub mod Register
use mathlib.Core.Option
use vardar_os.Prelude.{
  Bool, Option, add32, bit_and, bit_or, if◌then◌else◌, leb, none, some, sub32, suc, u32, u8, zero,
  ℕ, ◌%◌, ◌&&◌, ◌*◌, ◌+◌, ◌/◌, ◌<<<◌, ◌==◌, ◌^◌,
}
use vardar_os.Acpi.Smp.{SmpInfo}

-- Volatile accesses to a memory-mapped register. A load leaves the state as it is.
pub record Mmio (S : Type 0) : Type 0 where
  pub load : S → ℕ → ℕ
  pub store : S → ℕ → ℕ → S

-- The bit fields of `ioredtbl_t`, from bit 0 upwards.
pub record Ioredtbl : Type 0 where
  pub vector : ℕ
  pub delivery_mode : ℕ
  pub destination_mode : ℕ
  pub delivery_status : ℕ
  pub polarity : ℕ
  pub remote_irr_pending : ℕ
  pub trigger_mode : ℕ
  pub mask : ℕ
  pub reserved : ℕ
  pub destination : ℕ

-- The other member of the union, and the union read from 64 bits. Bits 17 to 55 are reserved: 15
-- of them are in the lower word.
unfoldable pub lower_dword : Ioredtbl → ℕ
lower_dword e =
    e.vector
    + 2 ^ 8 * e.delivery_mode
    + 2 ^ 11 * e.destination_mode
    + 2 ^ 12 * e.delivery_status
    + 2 ^ 13 * e.polarity
    + 2 ^ 14 * e.remote_irr_pending
    + 2 ^ 15 * e.trigger_mode
    + 2 ^ 16 * e.mask
    + 2 ^ 17 * (e.reserved % 2 ^ 15)

unfoldable pub upper_dword : Ioredtbl → ℕ
upper_dword e = e.reserved / 2 ^ 15 + 2 ^ 24 * e.destination

unfoldable pub ioredtbl_of : ℕ → Ioredtbl
ioredtbl_of raw = record {
  vector = raw % 2 ^ 8;
  delivery_mode = raw / 2 ^ 8 % 2 ^ 3;
  destination_mode = raw / 2 ^ 11 % 2;
  delivery_status = raw / 2 ^ 12 % 2;
  polarity = raw / 2 ^ 13 % 2;
  remote_irr_pending = raw / 2 ^ 14 % 2;
  trigger_mode = raw / 2 ^ 15 % 2;
  mask = raw / 2 ^ 16 % 2;
  reserved = raw / 2 ^ 17 % 2 ^ 39;
  destination = raw / 2 ^ 56 % 2 ^ 8;
}

-- `ioapic_t`; `present` and the pointers to the two registers first.
pub record IoApic : Type 0 where
  pub present : Bool
  pub ioregsel : ℕ
  pub iowin : ℕ
  pub min_gsi : ℕ
  pub num_pins : ℕ
  pub has_eoi : Bool
  pub apic_id : ℕ

-- `int_attr_t`.
pub record IntAttr : Type 0 where
  pub attrs : Ioredtbl
  pub gsi : ℕ
  pub irq : ℕ
  pub ioapic_ind : ℕ

abbrev pub active_high : ℕ
active_high = 0

abbrev pub active_low : ℕ
active_low = 1

abbrev pub edge_sensitive : ℕ
edge_sensitive = 0

abbrev pub level_sensitive : ℕ
level_sensitive = 1

abbrev pub icr_fixed : ℕ
icr_fixed = 0

abbrev pub icr_smi : ℕ
icr_smi = 2

abbrev pub icr_nmi : ℕ
icr_nmi = 4

-- The machine with the statics IOAPICS and VECTOR_ATTRS, by their indices, SMP_INFO and the id of
-- the boot processor's local APIC.
pub record Ints (S : Type 0) : Type 0 where
  pub machine : S
  pub ioapics : ℕ → IoApic
  pub vector_attrs : ℕ → IntAttr
  pub smp_info : SmpInfo
  pub bsp_lapic_id : ℕ

unfoldable pub get_pin_polarity : ℕ → ℕ
get_pin_polarity flags = if bit_and flags 2 == 0 then active_low else active_high

unfoldable pub get_trigger_mode : ℕ → ℕ
get_trigger_mode flags = if bit_and flags 8 == 0 then edge_sensitive else level_sensitive

-- The loop of `ioapic_from_gsi` over the `n` entries from `i`; the upper bound of a range is a
-- uint32_t.
unfoldable pub ioapic_from : (ℕ → IoApic) → ℕ → ℕ → ℕ → Option IoApic
ioapic_from t zero i gsi = none
ioapic_from t (suc n) i gsi =
    let io = t i in
    if io.present && leb io.min_gsi gsi && leb gsi (sub32 (add32 io.min_gsi io.num_pins) 1)
    then some io
    else ioapic_from t n (i + 1) gsi

abbrev pub max_ioapics : ℕ
max_ioapics = 16

unfoldable pub ioapic_from_gsi : (ℕ → IoApic) → ℕ → Option IoApic
ioapic_from_gsi t gsi = ioapic_from t max_ioapics 0 gsi

module _ {S : Type 0} (dev : Mmio S) where
  -- The offset is a uint8_t.
  unfoldable pub ioapic_write : IoApic → S → ℕ → ℕ → S
  ioapic_write io m offset val = dev.store (dev.store m io.ioregsel (u8 offset)) io.iowin val

  unfoldable pub ioapic_read : IoApic → S → ℕ → ℕ × S
  ioapic_read io m offset =
      let m1 = dev.store m io.ioregsel (u8 offset) in (dev.load m1 io.iowin, m1)

  unfoldable pub ioapic_write_entry : IoApic → S → ℕ → Ioredtbl → S
  ioapic_write_entry io m gsi entry =
      let pin = sub32 gsi io.min_gsi in
      let m1 = ioapic_write io m (0x10 + pin * 2) (lower_dword entry) in
      ioapic_write io m1 (0x11 + pin * 2) (upper_dword entry)

  -- The second word is shifted by 31, as a uint32_t.
  unfoldable pub ioapic_read_entry : IoApic → S → ℕ → Ioredtbl × S
  ioapic_read_entry io m gsi =
      let pin = sub32 gsi io.min_gsi in
      let (lower, m1) = ioapic_read io m (0x10 + pin * 2) in
      let (upper, m2) = ioapic_read io m1 (0x11 + pin * 2) in
      (ioredtbl_of (bit_or lower (u32 (upper <<< 31))), m2)
