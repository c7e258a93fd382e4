-- ===== src/Pmm/Valid.antt =====
-- The invariant of the page bitmap: it covers the frames, and the frames that it lies in are
-- marked used, so that no allocation hands them out.
use vardar_os.Prelude.{arith, false, true, ℕ, ◌*◌, ◌+◌, ◌/◌, ◌<◌, ◌^◌, ◌≡◌, ◌≢◌, ◌≤◌, ◌⊎◌}
use vardar_os.Memory.{IsBytes}
use vardar_os.Pmm.{Pmm, frame_size, page_is_used}
use vardar_os.Pmm.Bitmap.{byte_of}

pub record IsValid (s : Pmm) : Type 0 where
  pub bytes : IsBytes s.memory
  pub small : s.mem_map.num_entries < 2 ^ 31
  pub covers : s.mem_map.num_entries < 8 * s.mem_map.bitmap_size
  pub last_in : s.mem_map.last_used < s.mem_map.num_entries
  pub placed : s.mem_map.bitmap + s.mem_map.bitmap_size ≤ 8 * s.mem_map.bitmap_size * frame_size
  pub reserved :
      (k : ℕ)
      → k < s.mem_map.bitmap_size
      → page_is_used s ((s.mem_map.bitmap + k) / frame_size) ≡ true

other_page : (s : Pmm) (p i : ℕ) → page_is_used s p ≡ true → page_is_used s i ≡ false → p ≢ i
other_page s p i used unused e = ground arith

-- A free page shares no byte with the bitmap.
pub free_page_apart :
    {s : Pmm} (v : IsValid s) (i j : ℕ)
    → page_is_used s i ≡ false
    → j < 8 * s.mem_map.bitmap_size
    → (byte_of s j < i * frame_size) ⊎ (i * frame_size + frame_size ≤ byte_of s j)
free_page_apart {s} v i j unused h = ground (
  arith,
  v.reserved (j / 8) (omega arith),
  other_page s ((s.mem_map.bitmap + j / 8) / frame_size) i,
)
