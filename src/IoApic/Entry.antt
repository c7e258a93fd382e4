-- ===== src/IoApic/Entry.antt =====
-- The redirection entries: the bit fields of the union, and what reading one gives.
use vardar_os.Prelude.{
  ◌⊎◌, ◌≢◌, ap, arith, bit_or, refl, sub32, u32, u8, ℕ, ◌%◌, ◌*◌, ◌+◌, ◌/◌, ◌<<<◌, ◌<◌, ◌^◌, ◌∙◌,
  ◌≡◌, ◌≤◌,
}
use vardar_os.Bits.{bit_or-lt}
use vardar_os.IoApic.{
  IoApic, Ioredtbl, Mmio, ioapic_read, ioapic_read_entry, ioapic_write, ioapic_write_entry,
  ioredtbl_of, lower_dword, upper_dword,
}

-- The two words of the entry that 64 bits are read as are the lower and the upper 32 of these bits.
pub ioredtbl_of-dwords :
    (raw : ℕ)
    → raw < 2 ^ 64
    → (lower_dword (ioredtbl_of raw) ≡ raw % 2 ^ 32)
      × (upper_dword (ioredtbl_of raw) ≡ raw / 2 ^ 32)
unfolding lower_dword upper_dword ioredtbl_of
ioredtbl_of-dwords raw lt = (omega (arith, lt), omega (arith, lt))

ioapic_read-lt :
    {S : Type 0} (dev : Mmio S) (io : IoApic) (m : S) (offset : ℕ)
    → ((s : S) (a : ℕ) → dev.load s a < 2 ^ 32)
    → (ioapic_read dev io m offset).0 < 2 ^ 32
unfolding ioapic_read
ioapic_read-lt dev io m offset words = words _ _

-- Where each register holds 32 bits, the entry that `ioapic_read_entry` returns has 0 for its upper
-- word and its destination, whatever the registers hold.
pub ioapic_read_entry-upper :
    {S : Type 0} (dev : Mmio S) (io : IoApic) (m : S) (gsi : ℕ)
    → ((s : S) (a : ℕ) → dev.load s a < 2 ^ 32)
    → (upper_dword (ioapic_read_entry dev io m gsi).0 ≡ 0)
      × ((ioapic_read_entry dev io m gsi).0.destination ≡ 0)
unfolding ioapic_read_entry upper_dword ioredtbl_of
ioapic_read_entry-upper dev io m gsi words =
    let pin = sub32 gsi io.min_gsi in
    let (lower, m1) = ioapic_read dev io m (0x10 + pin * 2) in
    let (upper, m2) = ioapic_read dev io m1 (0x11 + pin * 2) in
    let small =
      bit_or-lt 32 lower (u32 (upper <<< 31)) (ioapic_read-lt dev io m (0x10 + pin * 2) words)
        (omega arith) in
    (omega (arith, small), omega (arith, small))

-- The value `v` after `w` was written to the lower register of a pin: the fields of an entry that can be
-- written have the bits of `w`. The delivery status, the remote IRR and the reserved bits are the device's.
abbrev pub IsWritten : ℕ → ℕ → Type 0
IsWritten v w =
    (v % 2 ^ 12 ≡ w % 2 ^ 12)
    × (v / 2 ^ 13 % 2 ≡ w / 2 ^ 13 % 2)
    × (v / 2 ^ 15 % 4 ≡ w / 2 ^ 15 % 4)

-- An I/O APIC as its manual describes it: `regs` are its registers, of 32 bits, of which the select
-- register chooses the one that the window reads and writes. A write to a register of a pin leaves the
-- other registers, and puts the fields of the lower one that can be written. The registers of the pins
-- have numbers of 8 bits.
pub record IsWindow {S : Type 0} (dev : Mmio S) (io : IoApic) (regs : S → ℕ → ℕ) : Type 0 where
  pub pins : io.num_pins ≤ 120
  pub words : (m : S) (a : ℕ) → dev.load m a < 2 ^ 32
  pub selected : (m : S) (r : ℕ) → dev.load (dev.store m io.ioregsel r) io.iowin ≡ regs m r
  pub kept : (m : S) (r q : ℕ) → regs (dev.store m io.ioregsel r) q ≡ regs m q
  pub elsewhere :
      (m : S) (r v q : ℕ)
      → 0x10 ≤ r
      → r < 0x10 + io.num_pins * 2
      → q ≢ r
      → regs (dev.store (dev.store m io.ioregsel r) io.iowin v) q ≡ regs m q
  pub written :
      (m : S) (pin v : ℕ)
      → pin < io.num_pins
      → IsWritten
          (regs (dev.store (dev.store m io.ioregsel (0x10 + pin * 2)) io.iowin v) (0x10 + pin * 2))
          v

module _ {S : Type 0} {dev : Mmio S} {io : IoApic} {regs : S → ℕ → ℕ}
    (w : IsWindow dev io regs) where
  ioapic_write-elsewhere :
      (m : S) (offset val q : ℕ)
      → 0x10 ≤ offset
      → offset < 0x10 + io.num_pins * 2
      → q ≢ offset
      → regs (ioapic_write dev io m offset val) q ≡ regs m q
  unfolding ioapic_write
  ioapic_write-elsewhere m offset val q le lt ne =
      let small : u8 offset ≡ offset = omega (arith, lt, w.pins) in
      ap (λ r. regs (dev.store (dev.store m io.ioregsel r) io.iowin val) q) small
      ∙ w.elsewhere m offset val q le lt ne

  ioapic_write-IsWritten :
      (m : S) (pin val : ℕ)
      → pin < io.num_pins
      → IsWritten (regs (ioapic_write dev io m (0x10 + pin * 2) val) (0x10 + pin * 2)) val
  unfolding ioapic_write
  ioapic_write-IsWritten m pin val lt =
      let small : u8 (0x10 + pin * 2) ≡ 0x10 + pin * 2 = omega (arith, lt, w.pins) in
      rw (ioapic_write, small) (w.written m pin val lt)

  -- `ioapic_write_entry` for one of the pins changes no register but the two of the pin.
  pub ioapic_write_entry-elsewhere :
      (m : S) (pin q : ℕ) (entry : Ioredtbl)
      → pin < io.num_pins
      → io.min_gsi + pin < 2 ^ 32
      → (q < 0x10 + pin * 2) ⊎ (0x11 + pin * 2 < q)
      → regs (ioapic_write_entry dev io m (io.min_gsi + pin) entry) q ≡ regs m q
  unfolding ioapic_write_entry
  ioapic_write_entry-elsewhere m pin q entry lt fits out =
      let at : sub32 (io.min_gsi + pin) io.min_gsi ≡ pin = omega (arith, lt, fits, w.pins) in
      let m1 = ioapic_write dev io m (0x10 + pin * 2) (lower_dword entry) in
      rw at (
        ioapic_write-elsewhere m1 (0x11 + pin * 2) (upper_dword entry) q (omega arith)
          (omega (arith, lt)) (λ e. omega (arith, out, e))
        ∙ ioapic_write-elsewhere m (0x10 + pin * 2) (lower_dword entry) q (omega arith)
            (omega (arith, lt)) (λ e. omega (arith, out, e)))

  -- And its lower register has the fields of the entry that can be written.
  pub ioapic_write_entry-IsWritten :
      (m : S) (pin : ℕ) (entry : Ioredtbl)
      → pin < io.num_pins
      → io.min_gsi + pin < 2 ^ 32
      → IsWritten
          (regs (ioapic_write_entry dev io m (io.min_gsi + pin) entry) (0x10 + pin * 2))
          (lower_dword entry)
  unfolding ioapic_write_entry
  ioapic_write_entry-IsWritten m pin entry lt fits =
      let at : sub32 (io.min_gsi + pin) io.min_gsi ≡ pin = omega (arith, lt, fits, w.pins) in
      let m1 = ioapic_write dev io m (0x10 + pin * 2) (lower_dword entry) in
      let same =
        ioapic_write-elsewhere m1 (0x11 + pin * 2) (upper_dword entry) (0x10 + pin * 2)
          (omega arith) (omega (arith, lt)) (λ e. omega (arith, e)) in
      rw (at, same) (ioapic_write-IsWritten m pin (lower_dword entry) lt)

ioapic_read-register :
    {S : Type 0} {dev : Mmio S} {io : IoApic} {regs : S → ℕ → ℕ} (w : IsWindow dev io regs) (m : S)
    (offset q : ℕ)
    → offset < 256
    → ((ioapic_read dev io m offset).0 ≡ regs m offset)
      × (regs (ioapic_read dev io m offset).1 q ≡ regs m q)
unfolding ioapic_read
ioapic_read-register {dev = dev} {io = io} {regs = regs} w m offset q lt =
    let small : u8 offset ≡ offset = omega (arith, lt) in
    (
      ap (λ r. dev.load (dev.store m io.ioregsel r) io.iowin) small ∙ w.selected m offset,
      w.kept m (u8 offset) q,
    )

-- Reading the entry of a pin: what it gives, and that no register changes.
pub ioapic_read_entry-registers :
    {S : Type 0} {dev : Mmio S} {io : IoApic} {regs : S → ℕ → ℕ} (w : IsWindow dev io regs) (m : S)
    (pin : ℕ)
    → pin < io.num_pins
    → io.min_gsi + pin < 2 ^ 32
    → ((ioapic_read_entry dev io m (io.min_gsi + pin)).0
        ≡ ioredtbl_of (bit_or (regs m (0x10 + pin * 2)) (u32 (regs m (0x11 + pin * 2) <<< 31))))
      × ((q : ℕ) → regs (ioapic_read_entry dev io m (io.min_gsi + pin)).1 q ≡ regs m q)
unfolding ioapic_read_entry
ioapic_read_entry-registers {dev = dev} {io = io} {regs = regs} w m pin lt fits =
    let at : sub32 (io.min_gsi + pin) io.min_gsi ≡ pin = omega (arith, lt, fits, w.pins) in
    let m1 = (ioapic_read dev io m (0x10 + pin * 2)).1 in
    let low = λ (q : ℕ). ioapic_read-register w m (0x10 + pin * 2) q (omega (arith, lt, w.pins)) in
    let high =
      λ (q : ℕ). ioapic_read-register w m1 (0x11 + pin * 2) q (omega (arith, lt, w.pins)) in
    let upper = (high 0).0 ∙ (low (0x11 + pin * 2)).1 in
    rw (at, (low 0).0, upper) (refl, λ q. (high q).1 ∙ (low q).1)

-- The values of the fields that can be written fit into them.
pub record IsEntry (e : Ioredtbl) : Type 0 where
  pub vector : e.vector < 2 ^ 8
  pub delivery_mode : e.delivery_mode < 2 ^ 3
  pub destination_mode : e.destination_mode < 2
  pub delivery_status : e.delivery_status < 2
  pub polarity : e.polarity < 2
  pub remote_irr_pending : e.remote_irr_pending < 2
  pub trigger_mode : e.trigger_mode < 2
  pub mask : e.mask < 2
