-- ===== src/Interrupts/Gate.antt =====
-- The gates of the interrupt descriptor table.
use vardar_os.Prelude.{arith, ℕ, ◌/◌, ◌<◌, ◌^◌, ◌≡◌, ◌≢◌}
use vardar_os.Bits.{bit_and_low}
use vardar_os.Interrupts.{IdtEntry, gate_handler, set_idt_entry}

-- After `SetIdtEntry` the gate of the vector holds the address of the routine, which is below
-- 2 ^ 64, and the given attributes, and the gate of each other vector is as before.
pub set_idt_entry_lem :
    (idt : ℕ → IdtEntry) (vector isr flags v : ℕ)
    → isr < 2 ^ 64
    → (gate_handler (set_idt_entry idt vector isr flags vector) ≡ isr)
      × ((set_idt_entry idt vector isr flags vector).attributes ≡ flags)
      × (v ≢ vector → set_idt_entry idt vector isr flags v ≡ idt v)
unfolding gate_handler set_idt_entry
set_idt_entry_lem idt vector isr flags v lt =
    ground
      (arith, lt, bit_and_low 16 isr, bit_and_low 16 (isr / 2 ^ 16), bit_and_low 32 (isr / 2 ^ 32))
