-- ===== src/Acpi.antt =====
-- src/kernel/acpi/acpi.c: the root tables that the firmware leaves in memory, their checksums, and
-- the search for a table by its signature.
pub mod Smp
pub mod Madt
pub mod Checksum
pub mod Lookup
use vardar_os.Prelude.{
  Bool, Option, bit_and, if◌then◌else◌, leb, ltb, none, some, sub64, suc, zero, ℕ, ◌&&◌, ◌*◌, ◌+◌,
  ◌-◌, ◌/◌, ◌==◌, ◌^◌,
}
use vardar_os.Prelude.Int.{is_zero}
use vardar_os.Memory.{Memory, read32, read64}
use vardar_os.Utils.String.{strncmp}

-- The offsets of the fields of `RsdpDescriptor`, packed, and of `length` in `SdtHeader`.
abbrev pub rsdp_revision : ℕ
rsdp_revision = 15

abbrev pub rsdp_rsdt_addr : ℕ
rsdp_rsdt_addr = 16

abbrev pub rsdp_xsdt_addr : ℕ
rsdp_xsdt_addr = 24

abbrev pub sdt_length : ℕ
sdt_length = 4

abbrev pub sdt_header_size : ℕ
sdt_header_size = 36

-- The statics RSDP_TABLE and SDT_HEAD: the revision and the two addresses, and then the length,
-- the array of addresses and the width of the table in use.
pub record Acpi : Type 0 where
  pub revision : ℕ
  pub rsdt_addr : ℕ
  pub xsdt_addr : ℕ
  pub length : ℕ
  pub next : ℕ
  pub uses_xsdt : Bool

-- The loops over the bytes of a table: the sum of `n` bytes from `a`, on from `checksum`.
unfoldable pub add_bytes : Memory → ℕ → ℕ → ℕ → ℕ
add_bytes m a zero checksum = checksum
add_bytes m a (suc n) checksum = add_bytes m (a + 1) n (checksum + m a)

-- The length is an int: one of 2 ^ 31 or more is negative, and no byte is summed.
unfoldable pub validate_sdt_checksum : Memory → ℕ → ℕ → Bool
validate_sdt_checksum m sdt len =
    bit_and (add_bytes m sdt (if ltb len (2 ^ 31) then len else 0) 0) 0xff == 0

-- The code sums the bytes of its own copy of the table.
unfoldable pub validate_rsdp_checksum : Memory → ℕ → Bool
validate_rsdp_checksum m rsdp =
    let v1_sum = add_bytes m rsdp 20 0 in
    let v1_valid = bit_and v1_sum 0xff == 0 in
    let v2_valid = bit_and (add_bytes m (rsdp + 20) 16 v1_sum) 0xff == 0 in
    if m (rsdp + rsdp_revision) == 0 then v1_valid else v1_valid && v2_valid

unfoldable pub init_rsdp : Memory → Acpi → ℕ → Bool × Acpi
init_rsdp m s rsdp = (
  validate_rsdp_checksum m rsdp,
  record s {
    revision = m (rsdp + rsdp_revision);
    rsdt_addr = read32 m (rsdp + rsdp_rsdt_addr);
    xsdt_addr = read64 m (rsdp + rsdp_xsdt_addr);
  },
)

unfoldable pub init_sdt : Memory → Acpi → Bool × Acpi
init_sdt m s =
    let uses_xsdt = leb 2 s.revision in
    let table = if uses_xsdt then s.xsdt_addr else s.rsdt_addr in
    (
      validate_sdt_checksum m table (read32 m (table + sdt_length)),
      record s {
        uses_xsdt = uses_xsdt;
        length = read32 m (table + sdt_length);
        next = table + sdt_header_size;
      },
    )

-- `InitAcpi`: 2 ^ 32 - 1 is -1. A failed checksum of the second table changes nothing.
unfoldable pub init_acpi : Memory → Acpi → ℕ → ℕ × Acpi
init_acpi m s rsdp =
    let (valid, s1) = init_rsdp m s rsdp in
    let (validated, s2) = init_sdt m s1 in if valid then (0, s2) else (2 ^ 32 - 1, s1)

-- The address of entry `i` of the table in use.
unfoldable pub sdt_entry : Memory → Acpi → ℕ → ℕ
sdt_entry m s i = if s.uses_xsdt then read64 m (s.next + 8 * i) else read32 m (s.next + 4 * i)

-- The loop of `FindTable`, for `n` entries from `i`. The static holds the table under a header that
-- the length is read from.
unfoldable pub find_table_loop : Memory → Acpi → ℕ → ℕ → ℕ → Option ℕ
find_table_loop m s table_id i zero = none
find_table_loop m s table_id i (suc n) =
    let sdt = sdt_entry m s i in
    if is_zero (strncmp m sdt table_id 4)
      && validate_sdt_checksum m sdt (read32 m (sdt + sdt_length))
    then some sdt
    else find_table_loop m s table_id (i + 1) n

-- A length below that of the header wraps around, as a size_t, and is converted to an int.
unfoldable pub find_table : Memory → Acpi → ℕ → Option ℕ
find_table m s table_id =
    let entry_size = if s.uses_xsdt then 8 else 4 in
    find_table_loop m s table_id 0 (sub64 s.length sdt_header_size / entry_size)
