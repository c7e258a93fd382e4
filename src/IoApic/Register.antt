-- ===== src/IoApic/Register.antt =====
-- `register_ioapic` and `initialize_ioapic_ints` of io_apic.c: a new I/O APIC and the first entry of
-- each of its GSIs.
use vardar_os.Prelude.{
  add64, bit_and, false, if_null, if◌then◌else◌, leb, ltb, sub32, suc, true, u8, zero, ℕ, ◌%◌, ◌+◌,
  ◌<<<◌, ◌==◌, ◌>>>◌, ◌^◌,
}
use vardar_os.Acpi.Smp.{
  IntSourceOverrideRecord, IoApicRecord, NmiSourceRecord, SmpInfo, gsi_get_iso, gsi_get_nmi_source,
}
use vardar_os.IoApic.{
  IntAttr, Ints, IoApic, Ioredtbl, Mmio, active_high, edge_sensitive, get_pin_polarity,
  get_trigger_mode, icr_fixed, icr_nmi, ioapic_read, ioapic_write_entry, level_sensitive,
}

-- The fields that the chain of conditions sets for a GSI other than 0. The vector is a uint8_t.
unfoldable pub first_entry : SmpInfo → Ioredtbl → ℕ → Ioredtbl
first_entry smp_info uninit gsi =
    let with_isa = record uninit {
      vector = u8 (gsi + 0x20);
      delivery_mode = icr_fixed;
      polarity = active_high;
      trigger_mode = edge_sensitive;
      mask = 1;
    } in
    let with_iso = λ (r : IntSourceOverrideRecord). record uninit {
      vector = u8 (r.irq_source + 0x20);
      delivery_mode = icr_fixed;
      polarity = get_pin_polarity r.flags;
      trigger_mode = get_trigger_mode r.flags;
      mask = 1;
    } in
    let with_nmi = λ (r : NmiSourceRecord). record uninit {
      vector = u8 (gsi + 0x20);
      delivery_mode = icr_nmi;
      polarity = get_pin_polarity r.flags;
      trigger_mode = get_trigger_mode r.flags;
      mask = 0;
    } in
    let with_pci = record uninit {
      vector = u8 (gsi + 0x20);
      delivery_mode = icr_fixed;
      polarity = active_high;
      trigger_mode = level_sensitive;
      mask = 1;
    } in
    if ltb gsi 16
    then with_isa
    else if_null (if_null with_pci with_nmi (gsi_get_nmi_source smp_info gsi)) with_iso
        (gsi_get_iso smp_info gsi)

module _ {S : Type 0} (dev : Mmio S) where
  -- The body of the loop. The entry in VECTOR_ATTRS has not got its destination yet. The variable
  -- is a new one in each round; the model gives it the same stray contents.
  unfoldable pub init_gsi : IoApic → Ioredtbl → ℕ → Ints S → Ints S
  init_gsi io uninit gsi k =
      let entry = record (first_entry k.smp_info uninit gsi) { destination_mode = 0 } in
      let attr : IntAttr = record {
        attrs = entry;
        gsi = gsi;
        irq = sub32 entry.vector 0x20 % 2 ^ 8;
        ioapic_ind = io.apic_id;
      } in
      if gsi == 0 then k else record k {
        vector_attrs = λ v. if v == entry.vector then attr else k.vector_attrs v;
        machine =
            ioapic_write_entry dev io k.machine gsi (record entry { destination = k.bsp_lapic_id });
      }

  -- `n` rounds, from `gsi`.
  unfoldable pub init_gsis : IoApic → Ioredtbl → ℕ → ℕ → Ints S → Ints S
  init_gsis io uninit zero gsi k = k
  init_gsis io uninit (suc n) gsi k = init_gsis io uninit n (gsi + 1) (init_gsi io uninit gsi k)

  unfoldable pub initialize_ioapic_ints : IoApic → Ioredtbl → Ints S → Ints S
  initialize_ioapic_ints io uninit k = init_gsis io uninit io.num_pins io.min_gsi k

  -- `num_pins` is a uint8_t.
  unfoldable pub register_ioapic : Ioredtbl → Ints S → IoApicRecord → Ints S
  register_ioapic uninit k r =
      let new : IoApic = record {
        present = true;
        ioregsel = r.io_apic_addr;
        iowin = add64 r.io_apic_addr 0x10;
        min_gsi = r.gsib;
        num_pins = 0;
        has_eoi = false;
        apic_id = 0;
      } in
      let (id_reg, m1) = ioapic_read dev new k.machine 0 in
      let (ver_reg, m2) = ioapic_read dev new m1 1 in
      let io = record new {
        apic_id = bit_and id_reg (0xf <<< 24) >>> 24;
        num_pins = u8 ((bit_and ver_reg (0xff <<< 16) >>> 16) + 1);
        has_eoi = leb 0x20 (bit_and ver_reg 0xff);
      } in
      initialize_ioapic_ints io uninit
        (record k { machine = m2; ioapics = λ i. if i == io.apic_id then io else k.ioapics i })
