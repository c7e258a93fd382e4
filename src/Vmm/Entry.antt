-- ===== src/Vmm/Entry.antt =====
-- Entries of a page table as numbers: the present bit, the address without its flags, and what
-- `|` makes of an aligned frame and its flags.
use vardar_os.Prelude.{
  arith, bit_and, bit_or, complement64, if◌then◌else◌, ℕ, ◌%◌, ◌*◌, ◌+◌, ◌-◌, ◌<◌, ◌==◌, ◌>>>◌, ◌^◌,
  ◌≡◌,
}
use vardar_os.Bits.{bit_and_field, bit_and_low, bit_or_fields}
use vardar_os.Memory.{IsBytes, Memory, read64}
use vardar_os.Pmm.{frame_size}
use vardar_os.Vmm.{entry_at, get_page_flag, get_page_table, present, v_addr_index}
use vardar_os.Memory.Laws.{read64-lt}

-- The index at a level is nine bits of the address.
pub v_addr_index_lem :
    (vaddr level : ℕ) → v_addr_index vaddr level ≡ vaddr >>> (12 + 9 * (level - 1)) % 512
unfolding v_addr_index
v_addr_index_lem vaddr level = bit_and_low 9 (vaddr >>> (12 + 9 * (level - 1)))

pub v_addr_index-lt : (vaddr level : ℕ) → v_addr_index vaddr level < 512
v_addr_index-lt vaddr level = omega (arith, v_addr_index_lem vaddr level)

pub get_page_flag-present : (entry : ℕ) → get_page_flag entry present ≡ (entry % 2 == 1)
unfolding get_page_flag
get_page_flag-present entry = ground (arith, bit_and_low 1 entry)

-- `entry & ~511` below 2 ^ 64.
pub without_flags :
    (entry : ℕ) → entry < 2 ^ 64 → bit_and entry (complement64 511) ≡ entry - entry % 512
without_flags entry h = omega (arith, bit_and_field 9 55 entry)

pub frame_or_flags :
    (page flags : ℕ) → flags < 512 → bit_or (page * frame_size) flags ≡ page * frame_size + flags
frame_or_flags page flags h = bit_or_fields 12 page flags (omega arith)

-- What `GetPageTable` reads, from the entry as a number.
pub get_page_table_lem :
    (m : Memory) (parent index : ℕ)
    → IsBytes m
    → let entry = read64 m (entry_at parent index) in
      get_page_table m parent index ≡ (if entry % 2 == 1 then entry - entry % 512 else 0)
unfolding get_page_table
get_page_table_lem m parent index h =
    let entry = read64 m (entry_at parent index) in
    ground (
      arith,
      get_page_flag-present entry,
      without_flags entry (read64-lt m (entry_at parent index) h),
    )
