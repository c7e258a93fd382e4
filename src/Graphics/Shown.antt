-- ===== src/Graphics/Shown.antt =====
-- The two buffers of graphics_ctx.c: which rows of the back buffer the frame buffer shows.
use vardar_os.Utils.String.{memmove}
use vardar_os.Graphics.Color.{IsEightBit}
use vardar_os.Prelude.{arith, ℕ, ◌*◌, ◌+◌, ◌-◌, ◌<◌, ◌^◌, ◌≡◌, ◌≤◌, ◌⊎◌}
use vardar_os.Memory.{IsBytes, Memory}
use vardar_os.Graphics.{Screen}
use vardar_os.Bits.Single.{bit_at}
use vardar_os.Utils.String.Copy.{memmove_lem}
use native.Mathlib.Nat.{mul-le-mul_right}

-- `n` multiples of `w` below another.
pub multiples_le : (i n w : ℕ) → i < n → i * w + w ≤ n * w
multiples_le i n w lt = omega (arith, mul-le-mul_right {m = i + 1} {n = n} w (omega arith))

-- 32 bits for a pixel, fields of 8 bits, and two buffers of 64 rows of lines that do not meet.
pub record IsScreen (s : Screen) : Type 0 where
  pub deep : s.fb.framebuffer_bpp ≡ 32
  pub masks : IsEightBit s.fb
  pub rows : s.num_rows ≡ 64
  pub tall : 0 < s.row_height
  pub wide : s.fb.framebuffer_width * 4 ≤ s.fb.framebuffer_pitch
  pub small : 64 * s.row_height * s.fb.framebuffer_width < 2 ^ 31
  pub fits : s.buffer + 64 * s.row_height * s.fb.framebuffer_width * 4 < 2 ^ 64
  pub apart :
      (s.buffer + 64 * s.row_height * s.fb.framebuffer_width * 4 ≤ s.fb.framebuffer_addr)
      ⊎ (s.fb.framebuffer_addr + 64 * s.row_height * s.fb.framebuffer_pitch ≤ s.buffer)

-- Byte `b` of line `i` of the row `c` of lines, in the frame buffer and in the back buffer.
abbrev pub front_at : Screen → ℕ → ℕ → ℕ → ℕ
front_at s c i b =
    s.fb.framebuffer_addr
    + (c * s.row_height * s.fb.framebuffer_pitch + i * s.fb.framebuffer_pitch)
    + b

abbrev pub back_at : Screen → ℕ → ℕ → ℕ → ℕ
back_at s c i b =
    s.buffer + (c * s.row_height * s.fb.framebuffer_width + i * s.fb.framebuffer_width) * 4 + b

-- The frame buffer shows the row `c` of the back buffer.
unfoldable pub IsShown : Screen → Memory → ℕ → Type 0
IsShown s m c =
    (i b : ℕ)
    → i < s.row_height
    → b < s.fb.framebuffer_width * 4
    → m (front_at s c i b) ≡ m (back_at s c i b)

-- Every row that is not marked as dirty is shown.
unfoldable pub IsClean : Screen → Type 0
IsClean s = (c : ℕ) → c < 64 → bit_at s.dirty_block_str c ≡ 0 → IsShown s s.memory c

pub memmove-IsBytes : (m : Memory) (dst src size : ℕ) → IsBytes m → IsBytes (memmove m dst src size)
memmove-IsBytes m dst src size bytes b =
    ground (arith, memmove_lem m dst src size b bytes, bytes (src + (b - dst)), bytes b)

-- Where the two copies of a row lie.
module _ (s : Screen) (scr : IsScreen s) where
  pub front_inside :
      (c i b : ℕ)
      → c < 64
      → i < s.row_height
      → b < s.fb.framebuffer_width * 4
      → front_at s c i b
        < s.fb.framebuffer_addr
          + (c * s.row_height * s.fb.framebuffer_pitch + s.row_height * s.fb.framebuffer_pitch)
  front_inside c i b low lt lb =
      omega (arith, scr.wide, multiples_le i s.row_height s.fb.framebuffer_pitch lt)

  pub back_inside :
      (c i b : ℕ)
      → c < 64
      → i < s.row_height
      → b < s.fb.framebuffer_width * 4
      → back_at s c i b < s.buffer + 64 * s.row_height * s.fb.framebuffer_width * 4
  back_inside c i b low lt lb = omega (
    arith,
    multiples_le i s.row_height s.fb.framebuffer_width lt,
    multiples_le c 64 (s.row_height * s.fb.framebuffer_width) low,
  )

  pub row_inside :
      (c : ℕ)
      → c < 64
      → c * s.row_height * s.fb.framebuffer_pitch + s.row_height * s.fb.framebuffer_pitch
        ≤ 64 * s.row_height * s.fb.framebuffer_pitch
  row_inside c low = omega (arith, multiples_le c 64 (s.row_height * s.fb.framebuffer_pitch) low)
