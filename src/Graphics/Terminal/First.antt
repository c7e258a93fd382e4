-- ===== src/Graphics/Terminal/First.antt =====
-- The first screen: `InitGraphicsCtx`, `ClearScreen`, and what is drawn behind them.
use mathlib.Core.Option
use vardar_os.Prelude.{ℕ, ◌*◌, ◌+◌, ◌<◌, ◌^◌, ◌≡◌, ◌≤◌, ◌⊎◌}
use vardar_os.Memory.{Memory}
use vardar_os.Graphics.{Framebuffer, back_buffer_length}
use vardar_os.Graphics.Color.{IsEightBit}

-- 32 bits for a pixel, fields of 8 bits, from 64 to fewer than 64 * 256 lines, no more pixels than
-- `BACK_BUFFER` has, and two buffers that do not meet.
pub record IsFramebuffer (fb : Framebuffer) (back_buffer : ℕ) : Type 0 where
  pub deep : fb.framebuffer_bpp ≡ 32
  pub masks : IsEightBit fb
  pub tall : 64 ≤ fb.framebuffer_height
  pub low : fb.framebuffer_height < 64 * 256
  pub wide : fb.framebuffer_width * 4 ≤ fb.framebuffer_pitch
  pub small : fb.framebuffer_height * fb.framebuffer_width ≤ back_buffer_length
  pub fits : back_buffer + fb.framebuffer_height * fb.framebuffer_width * 4 < 2 ^ 64
  pub apart :
      (back_buffer + fb.framebuffer_height * fb.framebuffer_width * 4 ≤ fb.framebuffer_addr)
      ⊎ (fb.framebuffer_addr + fb.framebuffer_height * fb.framebuffer_pitch ≤ back_buffer)
