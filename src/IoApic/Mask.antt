-- ===== src/IoApic/Mask.antt =====
-- Masking and unmasking a GSI, on an I/O APIC that keeps its registers.
use vardar_os.Prelude.{
  Bool-cases, ap, arith, bit_or, inl, inr, refl, some, true, u32, ℕ, ◌%◌, ◌*◌, ◌+◌, ◌/◌, ◌<<<◌, ◌<◌,
  ◌==◌, ◌^◌, ◌∙◌, ◌≡◌, ◌⊎◌,
}
use vardar_os.Bits.Single.{bit_at-bit_or, bit_at-shift}
use vardar_os.IoApic.{
  Ints, IoApic, Mmio, ioapic_from_gsi, ioapic_read_entry, ioredtbl_of, lower_dword,
}
use vardar_os.IoApic.Entry.{
  IsWindow, ioapic_read_entry-registers, ioapic_write_entry-IsWritten, ioapic_write_entry-elsewhere,
}
use vardar_os.IoApic.Routes.{ioapic_set_gsi_mask, update_entry}

mask_of_or : (low high : ℕ) → (ioredtbl_of (bit_or low (u32 (high <<< 31)))).mask ≡ low / 2 ^ 16 % 2
unfolding ioredtbl_of
mask_of_or low high =
    let shifted = u32 (high <<< 31) in
    let zero_bit : shifted / 2 ^ 16 % 2 ≡ 0 = omega arith in
    omega (
      arith,
      bit_at-shift (bit_or low shifted) 16,
      bit_at-bit_or low shifted 16,
      bit_at-shift low 16,
      bit_at-shift shifted 16,
      zero_bit,
    )

mask-lower_dword :
    (raw masked : ℕ)
    → masked < 2
    → lower_dword (record (ioredtbl_of raw) { mask = masked }) / 2 ^ 16 % 2 ≡ masked
unfolding lower_dword ioredtbl_of
mask-lower_dword raw masked lt = omega (arith, lt)

-- For a GSI of a pin of an I/O APIC as described, `ioapic_set_gsi_mask` returns true and
-- leaves the mask bit in the lower register of the pin as asked for; it changes no register but the
-- two of the pin.
pub ioapic_set_gsi_mask-mask :
    {S : Type 0} {dev : Mmio S} {io : IoApic} {regs : S → ℕ → ℕ} (w : IsWindow dev io regs)
    (k : Ints S) (pin masked q : ℕ)
    → ioapic_from_gsi k.ioapics (io.min_gsi + pin) ≡ some io
    → pin < io.num_pins
    → io.min_gsi + pin < 2 ^ 32
    → masked < 2
    → let (done, k') = ioapic_set_gsi_mask dev k (io.min_gsi + pin) masked in
      (done ≡ true)
      × (regs k'.machine (0x10 + pin * 2) / 2 ^ 16 % 2 ≡ masked)
      × ((q < 0x10 + pin * 2) ⊎ (0x11 + pin * 2 < q) → regs k'.machine q ≡ regs k.machine q)
unfolding ioapic_set_gsi_mask update_entry
ioapic_set_gsi_mask-mask {dev = dev} {io = io} {regs = regs} w k pin masked q found lt fits bit =
    let low = regs k.machine (0x10 + pin * 2) in
    let high = regs k.machine (0x11 + pin * 2) in
    let read = ioapic_read_entry dev io k.machine (io.min_gsi + pin) in
    let (entry, same) = ioapic_read_entry-registers w k.machine pin lt fits in
    let now = ap (λ e. e.mask) entry ∙ mask_of_or low high in
    let new = record (read.0) { mask = masked } in
    let value =
      ap (λ e. lower_dword (record e { mask = masked }) / 2 ^ 16 % 2) entry
      ∙ mask-lower_dword (bit_or low (u32 (high <<< 31))) masked bit in
    let written = ioapic_write_entry-IsWritten w read.1 pin new lt fits in
    elim (Bool-cases (read.0.mask == masked)) [
      | inl keep ↦
          rw (found, keep) (refl, ground (arith, keep, now, same (0x10 + pin * 2)), (λ out. same q))
      | inr change ↦
          rw (found, change)
            (
              refl,
              omega (arith, written, value),
              (λ out. ioapic_write_entry-elsewhere w read.1 pin q new lt fits out ∙ same q),
            )
    ]
