-- ===== src/IoApic/Routes.antt =====
-- The operations of io_apic.c on the entry of one GSI. Each returns its result and the state; NULL
-- from `ioapic_from_gsi` is its first case.
use mathlib.Core.Option
use vardar_os.Prelude.{
  Bool, Option, false, if_null, if◌then◌else◌, ltb, not, true, ℕ, ◌&&◌, ◌==◌, ◌||◌,
}
use vardar_os.Acpi.Smp.{gsi_from_irq}
use vardar_os.IoApic.{
  Ints, Ioredtbl, Mmio, active_high, edge_sensitive, icr_fixed, icr_nmi, icr_smi, ioapic_from_gsi,
  ioapic_read_entry, ioapic_write_entry, level_sensitive,
}

module _ {S : Type 0} (dev : Mmio S) where
  -- An operation that reads the entry of a GSI, decides, and writes it when a field changes. The
  -- four setters of the source differ in `allowed` and in the field.
  unfoldable pub update_entry :
      (Ioredtbl → Bool) → (Ioredtbl → Bool) → (Ioredtbl → Ioredtbl) → Ints S → ℕ → Bool × Ints S
  update_entry allowed changes change k gsi =
      if_null (false, k)
        (λ io.
          let (entry, m1) = ioapic_read_entry dev io k.machine gsi in
          if not (allowed entry)
          then (false, record k { machine = m1 })
          else if changes entry
          then (true, record k { machine = ioapic_write_entry dev io m1 gsi (change entry) })
          else (true, record k { machine = m1 }))
        (ioapic_from_gsi k.ioapics gsi)

  abbrev always : Ioredtbl → Bool
  always entry = true

  unfoldable pub ioapic_set_gsi_mask : Ints S → ℕ → ℕ → Bool × Ints S
  unfolding update_entry
  ioapic_set_gsi_mask k gsi masked =
      update_entry always (λ e. not (e.mask == masked)) (λ e. record e { mask = masked }) k gsi

  -- `vector < 256` holds of every uint8_t. VECTOR_ATTRS gets the GSI when the vector changes.
  unfoldable pub ioapic_set_gsi_vector : Ints S → ℕ → ℕ → Bool × Ints S
  ioapic_set_gsi_vector k gsi vector =
      if_null (false, k)
        (λ io.
          let (entry, m1) = ioapic_read_entry dev io k.machine gsi in
          let a = k.vector_attrs vector in
          if not (ltb 15 vector && ltb vector 256)
          then (false, k)
          else if entry.vector == vector
          then (true, record k { machine = m1 })
          else (
            true,
            record k {
              machine = ioapic_write_entry dev io m1 gsi (record entry { vector = vector });
              vector_attrs = λ v. if v == vector then record a { gsi = gsi } else k.vector_attrs v;
            },
          ))
        (ioapic_from_gsi k.ioapics gsi)

  -- NMIs and SMIs are edge-sensitive.
  unfoldable pub trigger_allowed : ℕ → Ioredtbl → Bool
  trigger_allowed trigger_mode e = not (
      (e.delivery_mode == icr_nmi || e.delivery_mode == icr_smi)
      && not (trigger_mode == edge_sensitive))

  unfoldable pub ioapic_set_gsi_trigger_mode : Ints S → ℕ → ℕ → Bool × Ints S
  unfolding update_entry
  ioapic_set_gsi_trigger_mode k gsi trigger_mode =
      if gsi == 0 && not (trigger_mode == level_sensitive)
      then (false, k)
      else update_entry (trigger_allowed trigger_mode) (λ e. not (e.trigger_mode == trigger_mode))
          (λ e. record e { trigger_mode = trigger_mode }) k gsi

  unfoldable pub ioapic_set_gsi_polarity : Ints S → ℕ → ℕ → Bool × Ints S
  unfolding update_entry
  ioapic_set_gsi_polarity k gsi polarity =
      update_entry (λ e. not (e.delivery_mode == icr_smi && not (polarity == active_high)))
        (λ e. not (e.polarity == polarity)) (λ e. record e { polarity = polarity }) k gsi

  unfoldable pub ioapic_reroute_gsi : Ints S → ℕ → ℕ → Bool × Ints S
  unfolding update_entry
  ioapic_reroute_gsi k gsi lapic_id =
      update_entry always (λ e. not (e.destination == lapic_id))
        (λ e. record e { destination = lapic_id }) k gsi

  -- The entry that `ioapic_route_irq` writes.
  unfoldable pub routed : ℕ → ℕ → ℕ → Ioredtbl → Ioredtbl
  routed rec_lapic_id vector masked e = record e {
    vector = vector;
    polarity = active_high;
    delivery_mode = icr_fixed;
    trigger_mode = edge_sensitive;
    destination = rec_lapic_id;
    mask = masked;
  }

  unfoldable pub ioapic_route_irq : Ints S → ℕ → ℕ → ℕ → ℕ → Bool × Ints S
  ioapic_route_irq k irq rec_lapic_id vector masked =
      let gsi = gsi_from_irq k.smp_info irq in
      if_null (false, k)
        (λ io.
          let (entry, m1) = ioapic_read_entry dev io k.machine gsi in
          (
            true,
            record k {
              machine = ioapic_write_entry dev io m1 gsi (routed rec_lapic_id vector masked entry);
            },
          ))
        (ioapic_from_gsi k.ioapics gsi)

  unfoldable pub ioapic_route_irq_to_bsp : Ints S → ℕ → ℕ → ℕ → Bool × Ints S
  ioapic_route_irq_to_bsp k irq vector masked = ioapic_route_irq k irq k.bsp_lapic_id vector masked

  -- The fields that the code does not set are those of `uninit`, the variable on the stack.
  unfoldable pub ioapic_set_smi_gsi : Ints S → Ioredtbl → ℕ → Bool × Ints S
  ioapic_set_smi_gsi k uninit gsi =
      if_null (false, k)
        (λ io. (
          true,
          record k {
            machine = ioapic_write_entry dev io k.machine gsi (record uninit {
              vector = 0;
              delivery_mode = icr_smi;
              polarity = active_high;
              trigger_mode = edge_sensitive;
              mask = 0;
            });
          },
        ))
        (ioapic_from_gsi k.ioapics gsi)

  -- `none`: the code reads through NULL.
  unfoldable pub vector_from_gsi : Ints S → ℕ → Option (ℕ × Ints S)
  vector_from_gsi k gsi =
      Option.map
        (λ io.
          let (entry, m1) = ioapic_read_entry dev io k.machine gsi in
          (entry.vector, record k { machine = m1 }))
        (ioapic_from_gsi k.ioapics gsi)

  -- The entry that is filled in, or `none` when the code returns false.
  unfoldable pub int_attrs_from_vector : Ints S → ℕ → Option (Ioredtbl × Ints S)
  int_attrs_from_vector k vector =
      let gsi = (k.vector_attrs vector).gsi in
      Option.map
        (λ io.
          let (entry, m1) = ioapic_read_entry dev io k.machine gsi in
          (entry, record k { machine = m1 }))
        (ioapic_from_gsi k.ioapics gsi)

  unfoldable pub mask_irq : Ints S → ℕ → Ints S
  mask_irq k irq = (ioapic_set_gsi_mask k (gsi_from_irq k.smp_info irq) 1).1

  unfoldable pub unmask_irq : Ints S → ℕ → Ints S
  unmask_irq k irq = (ioapic_set_gsi_mask k (gsi_from_irq k.smp_info irq) 0).1
