-- ===== src/Gdt/Base.antt =====
-- The task state segment in the GDT.
use vardar_os.Prelude.{add64, arith, ℕ, ◌*◌, ◌+◌, ◌/◌, ◌<◌, ◌^◌, ◌≡◌}
use vardar_os.Bits.{bit_and_low}
use vardar_os.Gdt.{Gdt, init_tss, initialize_gdt, set_tss_entry, tss_base}

-- The base address in the entry that `initialize_gdt` leaves is the address of the task state
-- segment of the running core, if that is below 2 ^ 64.
pub initialize_gdt-tss_base :
    (g : Gdt) (gdt_address tss_address lapic_id stack : ℕ)
    → tss_address + lapic_id * 104 < 2 ^ 64
    → tss_base (initialize_gdt g gdt_address tss_address lapic_id stack).tss
      ≡ tss_address + lapic_id * 104
unfolding tss_base initialize_gdt init_tss set_tss_entry
initialize_gdt-tss_base g gdt_address tss_address lapic_id stack lt =
    let base = add64 tss_address (lapic_id * 104) in
    omega
      (arith, lt, bit_and_low 16 base, bit_and_low 8 (base / 2 ^ 16), bit_and_low 8 (base / 2 ^ 24))
