-- ===== src/Pmm/Bitmap.antt =====
-- One bit of the bitmap for each page: what marking a page used or free changes, and what
-- writes elsewhere in memory leave alone.
use native.Mathlib.Nat.{mod-eq_of_lt}
use vardar_os.Prelude.{
  arith, bit_and, bit_or, complement8, not, refl, ℕ, ◌%◌, ◌&&◌, ◌+◌, ◌/◌, ◌<◌, ◌==◌, ◌>>>◌, ◌^◌,
  ◌||◌, ◌≡◌, ◌≤◌, ◌⊎◌,
}
use vardar_os.Memory.{IsBytes}
use vardar_os.Bits.{bit_and-le, bit_and_low, bit_or-lt}
use vardar_os.Bits.Single.{
  bit_at, bit_at-bit_and, bit_at-bit_or, bit_at-lt, bit_at-shift, bit_at_complement, bit_at_pow,
}
use vardar_os.Pmm.{Pmm, clear, page_is_used, set_page_free, set_page_used}
use vardar_os.Bits.Pow.{pow_lt}
use vardar_os.Utils.String.Copy.{memset_lem}

-- The address of the byte that holds the bit of page `i`.
abbrev pub byte_of : Pmm → ℕ → ℕ
byte_of s i = s.mem_map.bitmap + i / 8

pub page_bit : (s : Pmm) (i : ℕ) → page_is_used s i ≡ (bit_at (s.memory (byte_of s i)) (i % 8) == 1)
unfolding page_is_used
page_bit s i = ground (
  arith,
  bit_and_low 1 (s.memory (byte_of s i) >>> (i % 8)),
  bit_at-shift (s.memory (byte_of s i)) (i % 8),
)

bit_or_byte : (b i : ℕ) → b < 256 → i < 8 → bit_or b (2 ^ i) % 256 ≡ bit_or b (2 ^ i)
bit_or_byte b i h k = mod-eq_of_lt (bit_or-lt 8 b (2 ^ i) h (pow_lt i 8 k))

bit_and_byte : (b c : ℕ) → b < 256 → bit_and b c % 256 ≡ bit_and b c
bit_and_byte b c h = mod-eq_of_lt (omega (arith, bit_and-le b c))

-- After `SetPageUsed(i)` page `i` is used, and every other page is as it was.
pub page_is_used-set_page_used :
    (s : Pmm) (i j : ℕ)
    → IsBytes s.memory
    → page_is_used (set_page_used s i) j ≡ (i == j || page_is_used s j)
unfolding set_page_used
page_is_used-set_page_used s i j bytes =
    let b = s.memory (byte_of s i) in
    ground (
      arith,
      page_bit s j,
      page_bit (set_page_used s i) j,
      bit_or_byte b (i % 8) (bytes (byte_of s i)),
      bit_at-bit_or b (2 ^ (i % 8)) (j % 8),
      bit_at_pow (i % 8) (j % 8),
      bit_at-lt b (j % 8),
    )

-- After `SetPageFree(i)` page `i` is free, and every other page is as it was.
pub page_is_used-set_page_free :
    (s : Pmm) (i j : ℕ)
    → IsBytes s.memory
    → page_is_used (set_page_free s i) j ≡ (not (i == j) && page_is_used s j)
unfolding set_page_free
page_is_used-set_page_free s i j bytes =
    let b = s.memory (byte_of s i) in
    ground (
      arith,
      page_bit s j,
      page_bit (set_page_free s i) j,
      bit_and_byte b (complement8 (2 ^ (i % 8))) (bytes (byte_of s i)),
      bit_at-bit_and b (complement8 (2 ^ (i % 8))) (j % 8),
      bit_at_complement 8 (2 ^ (i % 8)) (j % 8) (pow_lt (i % 8) 8 (omega arith)) (omega arith),
      bit_at_pow (i % 8) (j % 8),
      bit_at-lt b (j % 8),
    )

-- A page's bit survives any change of memory that spares the byte of its bit.
pub page_is_used_cong :
    (s t : Pmm) (j : ℕ)
    → t.mem_map.bitmap ≡ s.mem_map.bitmap
    → t.memory (byte_of s j) ≡ s.memory (byte_of s j)
    → page_is_used t j ≡ page_is_used s j
unfolding page_is_used
page_is_used_cong s t j same kept = rw (same, kept)

pub page_is_used-clear :
    (s : Pmm) (at len j : ℕ)
    → (byte_of s j < at) ⊎ (at + len ≤ byte_of s j)
    → page_is_used (clear s at len) j ≡ page_is_used s j
unfolding clear
page_is_used-clear s at len j apart =
    page_is_used_cong s (clear s at len) j refl
      (ground (arith, memset_lem len s.memory at 0 (byte_of s j)))
