-- ===== src/Gdt.antt =====
-- src/kernel/gdt/gdt.c and gdt.h: the global descriptor table and its task state segment. The
-- instructions `lgdt` and `ltr` are not modelled.
pub mod Base
use vardar_os.Prelude.{
  List, [], add64, bit_and, if◌then◌else◌, u32, ℕ, ◌*◌, ◌+◌, ◌-◌, ◌==◌, ◌>>>◌, ◌^◌, ◌∷◌,
}

-- `gdt_entry_t`.
pub record GdtEntry : Type 0 where
  pub limit : ℕ
  pub base_low : ℕ
  pub base_mid : ℕ
  pub access : ℕ
  pub limit_and_flags : ℕ
  pub base_high : ℕ

-- `tss_entry_t`.
pub record TssEntry : Type 0 where
  pub length : ℕ
  pub base_low : ℕ
  pub base_mid : ℕ
  pub flags1 : ℕ
  pub flags2 : ℕ
  pub base_high : ℕ
  pub base_byte2 : ℕ
  pub reserved : ℕ

-- The fields of `tss_t` that the code writes.
pub record Tss : Type 0 where
  pub rsp0 : ℕ
  pub ist1 : ℕ

-- The statics GDT, TSS and GDT_DESC. The segments stand in a list; `limit` and `base` are those of
-- the descriptor.
pub record Gdt : Type 0 where
  pub segments : List GdtEntry
  pub tss : TssEntry
  pub tss_table : ℕ → Tss
  pub limit : ℕ
  pub base : ℕ

-- The entry that `set_tss_entry` leaves. The fields are of 8, 16 and 32 bits.
unfoldable pub set_tss_entry : Gdt → ℕ → ℕ → ℕ → Gdt
set_tss_entry g base flags access = record g {
  tss = record {
    length = 104;
    base_low = bit_and base 0xFFFF;
    base_mid = bit_and (base >>> 16) 0xFF;
    flags1 = access;
    flags2 = flags;
    base_high = bit_and (base >>> 24) 0xFF;
    base_byte2 = u32 (base >>> 32);
    reserved = 0;
  };
}

-- `sizeof(tss_t)`.
abbrev pub tss_size : ℕ
tss_size = 104

-- `tss_address` is the address of the static TSS, and `lapic_id` the id of the running core.
unfoldable pub init_tss : Gdt → ℕ → ℕ → ℕ → Gdt
init_tss g tss_address lapic_id stack =
    let g1 = set_tss_entry g (add64 tss_address (lapic_id * tss_size)) 0x20 0x89 in
    record g1 {
      tss_table = λ i. if i == lapic_id then record { rsp0 = stack; ist1 = 0 } else g.tss_table i;
    }

abbrev segment : ℕ → ℕ → ℕ → GdtEntry
segment limit access limit_and_flags = record {
  limit = limit;
  base_low = 0;
  base_mid = 0;
  access = access;
  limit_and_flags = limit_and_flags;
  base_high = 0;
}

-- The nine segments that `initialize_gdt` sets.
unfoldable pub gdt_segments : List GdtEntry
gdt_segments =
    segment 0 0 0
    ∷ segment 0xffff 0x9A 0x80
    ∷ segment 0xffff 0x9A 0x80
    ∷ segment 0xffff 0x9A 0xCF
    ∷ segment 0xffff 0x92 0xCF
    ∷ segment 0 0x9A 0xA2
    ∷ segment 0 0x92 0xA0
    ∷ segment 0 0xFA 0x20
    ∷ segment 0 0xF2 0
    ∷ []

-- The GDT is 9 entries of 8 bytes and one of 16.
unfoldable pub initialize_gdt : Gdt → ℕ → ℕ → ℕ → ℕ → Gdt
initialize_gdt g gdt_address tss_address lapic_id stack =
    let g1 = init_tss (record g { segments = gdt_segments }) tss_address lapic_id stack in
    record g1 { limit = 9 * 8 + 16 - 1; base = gdt_address }

-- The base address that the processor puts together from the fields of an entry.
unfoldable pub tss_base : TssEntry → ℕ
tss_base e = e.base_low + 2 ^ 16 * e.base_mid + 2 ^ 24 * e.base_high + 2 ^ 32 * e.base_byte2
