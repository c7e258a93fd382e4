-- ===== src/Graphics/Flush.antt =====
-- `WriteBack` shows every row.
pub mod Cell
pub mod Whole
use native.Mathlib.Nat.{suc-mul}
use vardar_os.Utils.String.{memmove}
use vardar_os.Prelude.{
  ap, arith, if◌then◌else◌, inl, inr, refl, suc, zero, ℕ, ◌*◌, ◌+◌, ◌-◌, ◌/◌, ◌<◌, ◌∙◌, ◌≡◌, ◌≤◌,
  ◌⊎◌,
}
use vardar_os.Memory.{IsBytes, Memory}
use vardar_os.Graphics.{Screen, write_back_rows}
use vardar_os.Graphics.Shown.{memmove-IsBytes, multiples_le}
use vardar_os.Utils.String.Copy.{in_range, memmove_lem}

-- The loop of `WriteBackCell` over lines of 4 bytes for a pixel, at most as long as the pitch.
module _ (s : Screen) (deep : s.fb.framebuffer_bpp ≡ 32)
    (wide : s.fb.framebuffer_width * 4 ≤ s.fb.framebuffer_pitch) where
  line : Memory → ℕ → ℕ → Memory
  line m buff screen =
      memmove m (s.fb.framebuffer_addr + screen) (s.buffer + buff * 4)
        (s.fb.framebuffer_width * s.fb.framebuffer_bpp / 8)

  line_lem :
      (m : Memory) (buff screen a : ℕ)
      → IsBytes m
      → line m buff screen a ≡ (
          if in_range (s.fb.framebuffer_addr + screen) (s.fb.framebuffer_width * 4) a
          then m (s.buffer + buff * 4 + (a - (s.fb.framebuffer_addr + screen)))
          else m a)
  unfolding line
  line_lem m buff screen a bytes =
      let size : s.fb.framebuffer_width * s.fb.framebuffer_bpp / 8 ≡ s.fb.framebuffer_width * 4 =
        rw deep (omega arith) in
      rw size (
        memmove_lem m (s.fb.framebuffer_addr + screen) (s.buffer + buff * 4)
          (s.fb.framebuffer_width * 4) a bytes)

  line-IsBytes : (m : Memory) (buff screen : ℕ) → IsBytes m → IsBytes (line m buff screen)
  unfolding line
  line-IsBytes m buff screen bytes = memmove-IsBytes m _ _ _ bytes

  pub write_back_rows-IsBytes :
      (rows : ℕ) (m : Memory) (buff screen : ℕ)
      → IsBytes m
      → IsBytes (write_back_rows rows s m buff screen)
  unfolding write_back_rows line
  write_back_rows-IsBytes zero m buff screen bytes = bytes
  write_back_rows-IsBytes (suc rows) m buff screen bytes =
      write_back_rows-IsBytes rows (line m buff screen) _ _ (line-IsBytes m buff screen bytes)

  pub write_back_rows_outside :
      (rows : ℕ) (m : Memory) (buff screen a : ℕ)
      → IsBytes m
      → (a < s.fb.framebuffer_addr + screen)
        ⊎ (s.fb.framebuffer_addr + screen + rows * s.fb.framebuffer_pitch ≤ a)
      → write_back_rows rows s m buff screen a ≡ m a
  unfolding write_back_rows line
  write_back_rows_outside zero m buff screen a bytes out = refl
  write_back_rows_outside (suc rows) m buff screen a bytes out =
      write_back_rows_outside rows (line m buff screen) (buff + s.fb.framebuffer_width)
        (screen + s.fb.framebuffer_pitch) a (line-IsBytes m buff screen bytes)
        (elim out [ inl low ↦ inl (omega arith) | inr high ↦ inr (omega arith) ])
      ∙ line_lem m buff screen a bytes
      ∙ ground (arith, wide, suc-mul rows s.fb.framebuffer_pitch)

  pub write_back_rows_copy :
      (rows : ℕ) (m : Memory) (buff screen i b : ℕ)
      → IsBytes m
      → (s.buffer + (buff + rows * s.fb.framebuffer_width) * 4 ≤ s.fb.framebuffer_addr + screen)
        ⊎ (s.fb.framebuffer_addr + screen + rows * s.fb.framebuffer_pitch ≤ s.buffer + buff * 4)
      → i < rows
      → b < s.fb.framebuffer_width * 4
      → write_back_rows rows s m buff screen
          (s.fb.framebuffer_addr + (screen + i * s.fb.framebuffer_pitch) + b)
        ≡ m (s.buffer + (buff + i * s.fb.framebuffer_width) * 4 + b)
  unfolding write_back_rows line
  write_back_rows_copy zero m buff screen i b bytes apart lt lb = absurd (omega arith)
  write_back_rows_copy (suc rows) m buff screen zero b bytes apart lt lb =
      let m1 = line m buff screen in
      let here : s.buffer + (buff + 0 * s.fb.framebuffer_width) * 4 + b ≡ s.buffer + buff * 4 + b =
        omega arith in
      write_back_rows_outside rows m1 (buff + s.fb.framebuffer_width)
        (screen + s.fb.framebuffer_pitch)
        (s.fb.framebuffer_addr + (screen + 0 * s.fb.framebuffer_pitch) + b)
        (line-IsBytes m buff screen bytes) (inl (omega (arith, wide)))
      ∙ line_lem m buff screen (s.fb.framebuffer_addr + (screen + 0 * s.fb.framebuffer_pitch) + b)
          bytes
      ∙ ground (arith, lb, ap m here)
  write_back_rows_copy (suc rows) m buff screen (suc i) b bytes apart lt lb =
      let m1 = line m buff screen in
      let w = s.fb.framebuffer_width in
      let p = s.fb.framebuffer_pitch in
      let inside = multiples_le i rows w (omega arith) in
      let front : s.fb.framebuffer_addr + (screen + suc i * p) + b
          ≡ s.fb.framebuffer_addr + (screen + p + i * p) + b =
        omega (arith, suc-mul i p) in
      let back : s.buffer + (buff + suc i * w) * 4 + b ≡ s.buffer + (buff + w + i * w) * 4 + b =
        omega (arith, suc-mul i w) in
      ap (write_back_rows rows s m1 (buff + w) (screen + p)) front
      ∙ write_back_rows_copy rows m1 (buff + w) (screen + p) i b (line-IsBytes m buff screen bytes)
          (elim apart [
            | inl low ↦ inl (omega (arith, suc-mul rows w))
            | inr high ↦ inr (omega (arith, suc-mul rows p))
          ])
          (omega arith) lb
      ∙ line_lem m buff screen (s.buffer + (buff + w + i * w) * 4 + b) bytes
      ∙ ground (arith, apart, inside, suc-mul rows w, suc-mul rows p, wide, ap m back)
