-- ===== src/Acpi/Smp.antt =====
-- src/kernel/acpi/madt.c and madt.h: the records that the MADT holds, the static SMP_INFO, and the
-- lookups in it. The arrays that SMP_INFO points to are lists; a pointer to an entry is the entry,
-- and `none` is NULL.
use vardar_os.Prelude.{
  Bool, List, Option, [], get_elem?, get_or, if◌then◌else◌, leb, length, ltb, none, some, sub64, ℕ,
  ◌&&◌, ◌+◌, ◌==◌, ◌∷◌,
}

-- `ProcessorLocalApic`, without its header.
pub record ProcessorLocalApic : Type 0 where
  pub acpi_processor_id : ℕ
  pub apic_id : ℕ
  pub flags : ℕ

pub record IoApicRecord : Type 0 where
  pub io_apic_id : ℕ
  pub io_apic_addr : ℕ
  pub gsib : ℕ

pub record IntSourceOverrideRecord : Type 0 where
  pub bus_source : ℕ
  pub irq_source : ℕ
  pub gsi : ℕ
  pub flags : ℕ

pub record NmiSourceRecord : Type 0 where
  pub nmi_source : ℕ
  pub flags : ℕ
  pub gsi : ℕ

pub record NmiRecord : Type 0 where
  pub acpi_processor_id : ℕ
  pub flags : ℕ
  pub lint : Bool

-- `smp_info_t`: a count and its array are one list.
pub record SmpInfo : Type 0 where
  pub io_apics : List IoApicRecord
  pub lapics : List ProcessorLocalApic
  pub isos : List IntSourceOverrideRecord
  pub nmi_sources : List NmiSourceRecord
  pub nmis : List NmiRecord
  pub lapic_addr : ℕ

-- The initial value of SMP_INFO.
abbrev pub empty_smp_info : SmpInfo
empty_smp_info = record {
  io_apics = [];
  lapics = [];
  isos = [];
  nmi_sources = [];
  nmis = [];
  lapic_addr = 0xFEE00000;
}

-- `get_io_apic` and `get_lapic`.
unfoldable pub get_io_apic : SmpInfo → ℕ → Option IoApicRecord
get_io_apic s idx = get_elem? s.io_apics idx

unfoldable pub get_lapic : SmpInfo → ℕ → Option ProcessorLocalApic
get_lapic s idx = get_elem? s.lapics idx

-- The loop of `find_apic_from_gsi` from entry `i`. `none` is the index -1. `max_gsib` is an int, but
-- is compared as a uint32_t.
unfoldable pub find_apic_loop : List IoApicRecord → ℕ → ℕ → Option ℕ → ℕ → Option ℕ
find_apic_loop [] i gsi apic_ind max_gsib = apic_ind
find_apic_loop (r ∷ rs) i gsi apic_ind max_gsib =
    if leb r.gsib gsi && leb max_gsib r.gsib
    then find_apic_loop rs (i + 1) gsi (some i) r.gsib
    else find_apic_loop rs (i + 1) gsi apic_ind max_gsib

unfoldable pub find_apic_from_gsi : SmpInfo → ℕ → Option ℕ
find_apic_from_gsi s gsi = find_apic_loop s.io_apics 0 gsi none 0

unfoldable pub gsi_from_irq_loop : List IntSourceOverrideRecord → ℕ → ℕ
gsi_from_irq_loop [] irq = irq
gsi_from_irq_loop (r ∷ rs) irq = if r.irq_source == irq then r.gsi else gsi_from_irq_loop rs irq

unfoldable pub gsi_from_irq : SmpInfo → ℕ → ℕ
gsi_from_irq s irq = gsi_from_irq_loop s.isos irq

unfoldable pub find_iso : List IntSourceOverrideRecord → ℕ → Option IntSourceOverrideRecord
find_iso [] gsi = none
find_iso (r ∷ rs) gsi = if r.gsi == gsi then some r else find_iso rs gsi

unfoldable pub gsi_get_iso : SmpInfo → ℕ → Option IntSourceOverrideRecord
gsi_get_iso s gsi = find_iso s.isos gsi

unfoldable pub get_iso_from_irq : SmpInfo → ℕ → Option IntSourceOverrideRecord
get_iso_from_irq s irq = gsi_get_iso s (gsi_from_irq s irq)

unfoldable pub find_nmi_source : List NmiSourceRecord → ℕ → Option NmiSourceRecord
find_nmi_source [] gsi = none
find_nmi_source (r ∷ rs) gsi = if r.gsi == gsi then some r else find_nmi_source rs gsi

unfoldable pub gsi_get_nmi_source : SmpInfo → ℕ → Option NmiSourceRecord
gsi_get_nmi_source s gsi = find_nmi_source s.nmi_sources gsi

-- `get_nmi_record`: `num_nmis - 1` wraps around when there is no record. What the code then reads
-- past the records is the argument `stray`.
unfoldable pub get_nmi_record : SmpInfo → NmiRecord → ℕ → Option NmiRecord
get_nmi_record s stray idx =
    if ltb (sub64 (length s.nmis) 1) idx then none else some (get_or s.nmis idx stray)
