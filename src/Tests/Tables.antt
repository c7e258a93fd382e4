-- ===== src/Tests/Tables.antt =====
-- The descriptor tables, the keyboard and the archive.
use vardar_os.Prelude.{
  [], ap, arith, false, if◌then◌else◌, inl, inr, refl, some, sym, true, u32, ℕ, ◌%◌, ◌*◌, ◌+◌, ◌-◌,
  ◌/◌, ◌<◌, ◌==◌, ◌^◌, ◌∙◌, ◌∷◌, ◌≡◌, ◌≢◌, ◌≤◌, ◌⊎◌,
}
use vardar_os.Memory.{Memory, read32}
use vardar_os.Acpi.{add_bytes, validate_sdt_checksum}
use vardar_os.Acpi.Smp.{SmpInfo, empty_smp_info, find_apic_from_gsi}
use vardar_os.Acpi.Checksum.{validate_sdt_checksum-changed}
use vardar_os.Acpi.Lookup.{IsBest, find_apic_from_gsi-IsBest}
use vardar_os.IoApic.{Ints, IoApic, Ioredtbl, Mmio, ioapic_from, ioapic_from_gsi}
use vardar_os.IoApic.Entry.{IsWindow}
use vardar_os.IoApic.Mask.{ioapic_set_gsi_mask-mask}
use vardar_os.IoApic.Routes.{ioapic_set_gsi_mask}
use vardar_os.Gdt.{Gdt, initialize_gdt, tss_base}
use vardar_os.Gdt.Base.{initialize_gdt-tss_base}
use vardar_os.Interrupts.{IdtEntry}
use vardar_os.Interrupts.Keyboard.{KeyInfo, isr1_run}
use vardar_os.Interrupts.Keyboard.Shift.{AllChars, isr1_run_lem, shift_after}
use vardar_os.Ustar.{next_entry, oct2bin}
use vardar_os.Ustar.Size.{IsOctal, next_entry-in_contents, oct2bin-IsOctal}

abbrev no_gdt : Gdt
no_gdt = record {
  segments = [];
  tss = record {
    length = 0;
    base_low = 0;
    base_mid = 0;
    flags1 = 0;
    flags2 = 0;
    base_high = 0;
    base_byte2 = 0;
    reserved = 0;
  };
  tss_table = λ i. record { rsp0 = 0; ist1 = 0 };
  limit = 0;
  base = 0;
}

initialize_gdt-tss_base_example :
    tss_base (initialize_gdt no_gdt 0x1000 0xffffffff80123456 3 0x9000).tss
    ≡ 0xffffffff80123456 + 3 * 104
initialize_gdt-tss_base_example =
    initialize_gdt-tss_base no_gdt 0x1000 0xffffffff80123456 3 0x9000 (omega arith)

abbrev no_idt : ℕ → IdtEntry
no_idt v = record {
  handler_low = 0;
  segment = 0;
  ist = 0;
  attributes = 0;
  handler_mid = 0;
  handler_high = 0;
  reserved = 0;
}

abbrev idle : KeyInfo
idle = record { shift = false; backspace = false; ctrl = false; enter = false; scancode = 0 }

-- Shift, A, and shift up again.
isr1_run_lem_example :
    ((isr1_run idle (0x2A ∷ 0x1E ∷ 0x9E ∷ 0xAA ∷ [])).0.shift
      ≡ shift_after false (0x2A ∷ 0x1E ∷ 0x9E ∷ 0xAA ∷ []))
    × AllChars (isr1_run idle (0x2A ∷ 0x1E ∷ 0x9E ∷ 0xAA ∷ [])).1
isr1_run_lem_example = isr1_run_lem idle (0x2A ∷ 0x1E ∷ 0x9E ∷ 0xAA ∷ [])

-- "17" at 124: fifteen, in two octal digits.
abbrev fifteen : Memory
fifteen a = if a == 124 then 49 else if a == 125 then 55 else 0

two_digits : (i : ℕ) → i < 2 → (i ≡ 0) ⊎ (i ≡ 1)
two_digits i lt = ground arith

fifteen-IsOctal : IsOctal fifteen 124 2 15
unfolding IsOctal
fifteen-IsOctal i lt = elim (two_digits i lt) [ inl e ↦ digit e refl | inr e ↦ digit e refl ]
  where
    digit :
        {j : ℕ}
        → i ≡ j
        → fifteen (124 + j) ≡ 48 + 15 / 8 ^ (2 - 1 - j) % 8
        → fifteen (124 + i) ≡ 48 + 15 / 8 ^ (2 - 1 - i) % 8
    digit e at =
        ap (λ t. fifteen (124 + t)) e ∙ at ∙ ap (λ t. 48 + 15 / 8 ^ (2 - 1 - t) % 8) (sym e)

oct2bin-IsOctal_example : oct2bin fifteen 124 2 ≡ some 15
oct2bin-IsOctal_example =
    oct2bin-IsOctal fifteen 124 2 15 fifteen-IsOctal (omega arith) (omega arith)

next_entry-in_contents_example :
    (4096 + 512 ≤ next_entry 4096 700) × (next_entry 4096 700 < 4096 + 512 + 700)
next_entry-in_contents_example = next_entry-in_contents 4096 700 (omega arith)

-- A table of nine bytes, with its length at 4 and the sum 256, and the table with its last byte changed.
abbrev nine_bytes : Memory
nine_bytes a = if a == 14 then 9 else if a == 18 then 247 else 0

abbrev corrupted : Memory
corrupted a = if a == 14 then 9 else if a == 18 then 248 else 0

nine_long : read32 nine_bytes (10 + 4) ≡ 9
unfolding read32
nine_long = refl

nine_bytes_valid : validate_sdt_checksum nine_bytes 10 (read32 nine_bytes (10 + 4)) ≡ true
unfolding validate_sdt_checksum add_bytes read32
nine_bytes_valid = refl

elsewhere_same : (x : ℕ) → x ≢ 18 → corrupted x ≡ nine_bytes x
elsewhere_same x ne = ground (arith, ne)

validate_sdt_checksum-changed_example :
    validate_sdt_checksum corrupted 10 (read32 corrupted (10 + 4)) ≡ false
validate_sdt_checksum-changed_example =
    validate_sdt_checksum-changed nine_bytes corrupted 10 18 (λ a. ground arith) (λ a. ground arith)
      (omega (arith, nine_long)) nine_bytes_valid (omega arith) (omega (arith, nine_long))
      (inr (omega arith)) elsewhere_same (λ e. omega (arith, e))

abbrev two_apics : SmpInfo
two_apics = record empty_smp_info {
  io_apics =
      record { io_apic_id = 1; io_apic_addr = 0xFEC00000; gsib = 0 }
      ∷ record { io_apic_id = 2; io_apic_addr = 0xFEC10000; gsib = 24 }
      ∷ [];
}

find_apic_from_gsi-IsBest_example : IsBest two_apics.io_apics 30 (find_apic_from_gsi two_apics 30)
find_apic_from_gsi-IsBest_example = find_apic_from_gsi-IsBest two_apics 30

-- A device: the select register at 0, the window at 16, and the registers.
abbrev Device : Type 0
Device = ℕ × (ℕ → ℕ)

-- What the lower register of a pin keeps: not the delivery status, the remote IRR and reserved bits.
abbrev writable : ℕ → ℕ
writable v = v % 2 ^ 12 + 2 ^ 13 * (v / 2 ^ 13 % 2) + 2 ^ 15 * (v / 2 ^ 15 % 4)

abbrev stored_in : ℕ → ℕ → ℕ
stored_in r v = if r % 2 == 0 then writable v else v

abbrev store_register : Device → ℕ → ℕ → Device
store_register (chosen, regs) a v =
    if a == 0 then (v, regs) else (chosen, λ q. if q == chosen then stored_in chosen v else regs q)

abbrev registers : Mmio Device
registers = record { load = λ (chosen, regs) a. u32 (regs chosen); store = store_register }

abbrev io_apic : IoApic
io_apic = record {
  present = true;
  ioregsel = 0;
  iowin = 16;
  min_gsi = 24;
  num_pins = 24;
  has_eoi = true;
  apic_id = 2;
}

abbrev empty_device : Device
empty_device = (0, λ q. 0xFFFFFFFF)

registers-IsWindow : IsWindow registers io_apic (λ (chosen, regs) r. u32 (regs r))
registers-IsWindow = record {
  pins = omega arith;
  words = λ (chosen, regs) a. omega arith;
  selected = λ (chosen, regs) r. refl;
  kept = λ (chosen, regs) r q. refl;
  elsewhere = λ (chosen, regs) r v q le lt ne. ground (arith, ne);
  written = λ (chosen, regs) pin v lt.
      let here : (16 + pin * 2 == 16 + pin * 2) ≡ true = ground arith in
      let even : ((16 + pin * 2) % 2 == 0) ≡ true = ground arith in
      rw (here, even) (omega arith, omega arith, omega arith);
}

abbrev keyboard_entry : Ioredtbl
keyboard_entry = record {
  vector = 0x21;
  delivery_mode = 0;
  destination_mode = 0;
  delivery_status = 0;
  polarity = 0;
  remote_irr_pending = 0;
  trigger_mode = 0;
  mask = 1;
  reserved = 0;
  destination = 3;
}

abbrev ints : Ints Device
ints = record {
  machine = empty_device;
  ioapics = λ i. if i == 2 then io_apic else record io_apic { present = false };
  vector_attrs = λ v. record { attrs = keyboard_entry; gsi = 0; irq = 0; ioapic_ind = 0 };
  smp_info = two_apics;
  bsp_lapic_id = 0;
}

pin_one : ioapic_from_gsi ints.ioapics (24 + 1) ≡ some io_apic
unfolding ioapic_from_gsi ioapic_from
pin_one = refl

ioapic_set_gsi_mask-mask_example :
    let (done, k') = ioapic_set_gsi_mask registers ints (24 + 1) 0 in
    (done ≡ true)
    × (u32 (k'.machine.1 (0x10 + 1 * 2)) / 2 ^ 16 % 2 ≡ 0)
    × ((0x14 < 0x10 + 1 * 2) ⊎ (0x11 + 1 * 2 < 0x14)
        → u32 (k'.machine.1 0x14) ≡ u32 (ints.machine.1 0x14))
ioapic_set_gsi_mask-mask_example =
    ioapic_set_gsi_mask-mask registers-IsWindow ints 1 0 0x14 pin_one (omega arith) (omega arith)
      (omega arith)
