-- ===== src/Acpi/Madt.antt =====
-- `ParseMadt` of src/kernel/acpi/madt.c: the records of the MADT, one after the other, into
-- SMP_INFO. The five frames that the arrays take are taken from the physical memory manager; the
-- arrays themselves are lists, without the limit of a frame.
use vardar_os.Prelude.{
  Option, [], if_null, if◌then◌else◌, ltb, none, not, some, suc, zero, ℕ, ◌++◌, ◌+◌, ◌==◌, ◌∷◌,
}
use vardar_os.Memory.{Memory, read16, read32, read64}
use vardar_os.Pmm.{Pmm, alloc_first_frame}
use vardar_os.IoApic.{Ints, Ioredtbl, Mmio}
use vardar_os.IoApic.Register.{register_ioapic}
use vardar_os.Acpi.Smp.{
  IntSourceOverrideRecord, IoApicRecord, NmiRecord, NmiSourceRecord, ProcessorLocalApic,
}

abbrev pub madt_records_offset : ℕ
madt_records_offset = 0x2C

-- The packed records at an address, after their header of two bytes.
unfoldable pub lapic_at : Memory → ℕ → ProcessorLocalApic
lapic_at m a = record {
  acpi_processor_id = m (a + 2);
  apic_id = m (a + 3);
  flags = read32 m (a + 4);
}

unfoldable pub io_apic_at : Memory → ℕ → IoApicRecord
io_apic_at m a = record {
  io_apic_id = m (a + 2);
  io_apic_addr = read32 m (a + 4);
  gsib = read32 m (a + 8);
}

unfoldable pub iso_at : Memory → ℕ → IntSourceOverrideRecord
iso_at m a = record {
  bus_source = m (a + 2);
  irq_source = m (a + 3);
  gsi = read32 m (a + 4);
  flags = read16 m (a + 8);
}

unfoldable pub nmi_source_at : Memory → ℕ → NmiSourceRecord
nmi_source_at m a = record {
  nmi_source = m (a + 2);
  flags = read16 m (a + 4);
  gsi = read32 m (a + 6);
}

unfoldable pub nmi_at : Memory → ℕ → NmiRecord
nmi_at m a = record {
  acpi_processor_id = m (a + 2);
  flags = read16 m (a + 3);
  lint = not (m (a + 5) == 0);
}

module _ {S : Type 0} (dev : Mmio S) (uninit : Ioredtbl) where
  -- The switch on the type of the record at `a`. SMP_INFO stands in the state of the interrupts.
  unfoldable pub parse_record : Memory → ℕ → Ints S → Ints S
  parse_record m a k =
      let s = k.smp_info in
      let with_io_apic = record k {
        smp_info = record s { io_apics = s.io_apics ++ (io_apic_at m a ∷ []) };
      } in
      if m a == 0
      then record k { smp_info = record s { lapics = s.lapics ++ (lapic_at m a ∷ []) } }
      else if m a == 1
      then register_ioapic dev uninit with_io_apic (io_apic_at m a)
      else if m a == 2
      then record k { smp_info = record s { isos = s.isos ++ (iso_at m a ∷ []) } }
      else if m a == 3
      then record k {
        smp_info = record s { nmi_sources = s.nmi_sources ++ (nmi_source_at m a ∷ []) };
      }
      else if m a == 4
      then record k { smp_info = record s { nmis = s.nmis ++ (nmi_at m a ∷ []) } }
      else if m a == 5
      then record k { smp_info = record s { lapic_addr = read64 m (a + 4) } }
      else k

  -- The loop, at the record with offset `i`; a record of length 0 is met again and again.
  unfoldable pub parse_records : ℕ → Memory → ℕ → ℕ → ℕ → Ints S → Option (Ints S)
  parse_records zero m madt madt_len i k = none
  parse_records (suc fuel) m madt madt_len i k =
      let a = madt + madt_records_offset + i in
      let rest = parse_records fuel m madt madt_len (i + m (a + 1)) (parse_record m a k) in
      if ltb (madt_records_offset + i) madt_len then rest else some k

  -- `n` calls of `AllocFirstFrame`.
  unfoldable pub take_frames : ℕ → ℕ → Pmm → Option Pmm
  take_frames fuel zero s = some s
  take_frames fuel (suc n) s =
      if_null none (λ (page, s1). take_frames fuel n s1) (alloc_first_frame fuel s)

  -- `madt` is the table that `FindTable` has found, in the memory that the manager of frames keeps.
  unfoldable pub parse_madt : ℕ → ℕ → Ints S → Pmm → Option (Ints S × Pmm)
  parse_madt fuel madt k s =
      if_null none
        (λ s1.
          if_null none (λ k1. some (k1, s1))
            (parse_records fuel s1.memory madt (read32 s.memory (madt + 4)) 0 k))
        (take_frames fuel 5 s)
