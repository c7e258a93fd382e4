-- ===== src/Graphics/Rect.antt =====
-- `DrawRect`: the bytes of the back buffer that its two loops write.
pub mod Lines
pub mod Paint
use vardar_os.Prelude.{
  ap, arith, inl, inr, refl, suc, zero, ℕ, ◌*◌, ◌+◌, ◌<◌, ◌^◌, ◌∙◌, ◌≡◌, ◌≤◌, ◌⊎◌,
}
use native.Mathlib.Nat.{suc-mul}
use vardar_os.Memory.{IsBytes, Memory, read32, write32}
use vardar_os.Memory.Laws.{read32-write32, read32_cong, write32-IsBytes, write32_outside}
use vardar_os.Graphics.{Screen, fill_pixels}
use vardar_os.Graphics.Draw.{copy_rows}
use vardar_os.Graphics.Shown.{memmove-IsBytes}
use vardar_os.Utils.String.{memmove}
use vardar_os.Utils.String.Copy.{memmove_lem}

pub fill_pixels_outside :
    (n : ℕ) (m : Memory) (dest packed a : ℕ)
    → (a < dest) ⊎ (dest + n * 4 ≤ a)
    → fill_pixels n m dest packed a ≡ m a
unfolding fill_pixels
fill_pixels_outside zero m dest packed a out = refl
fill_pixels_outside (suc n) m dest packed a out =
    fill_pixels_outside n (write32 m dest packed) (dest + 4) packed a
      (elim out [ inl low ↦ inl (omega arith) | inr high ↦ inr (omega arith) ])
    ∙ write32_outside m dest packed a
        (elim out [ inl low ↦ inl low | inr high ↦ inr (omega arith) ])

pub fill_pixels-read32 :
    (n : ℕ) (m : Memory) (dest packed i : ℕ)
    → packed < 2 ^ 32
    → i < n
    → read32 (fill_pixels n m dest packed) (dest + i * 4) ≡ packed
unfolding fill_pixels
fill_pixels-read32 zero m dest packed i small lt = absurd (omega arith)
fill_pixels-read32 (suc n) m dest packed zero small lt =
    let m1 = write32 m dest packed in
    let here : dest + 0 * 4 ≡ dest = omega arith in
    rw here (
      read32_cong m1 (fill_pixels n m1 (dest + 4) packed) dest
        (λ b p q. fill_pixels_outside n m1 (dest + 4) packed b (inl (omega (arith, q))))
      ∙ read32-write32 m dest packed small)
fill_pixels-read32 (suc n) m dest packed (suc i) small lt =
    let next : dest + suc i * 4 ≡ dest + 4 + i * 4 = omega arith in
    rw next (fill_pixels-read32 n (write32 m dest packed) (dest + 4) packed i small (omega arith))

pub fill_pixels-IsBytes :
    (n : ℕ) (m : Memory) (dest packed : ℕ) → IsBytes m → IsBytes (fill_pixels n m dest packed)
unfolding fill_pixels
fill_pixels-IsBytes zero m dest packed bytes = bytes
fill_pixels-IsBytes (suc n) m dest packed bytes =
    fill_pixels-IsBytes n (write32 m dest packed) (dest + 4) packed
      (write32-IsBytes m dest packed bytes)

module _ (s : Screen) (src size : ℕ) (short : size ≤ s.fb.framebuffer_width * 4) where
  pub copy_rows-IsBytes :
      (rows : ℕ) (m : Memory) (dest : ℕ) → IsBytes m → IsBytes (copy_rows rows s m dest src size)
  unfolding copy_rows
  copy_rows-IsBytes zero m dest bytes = bytes
  copy_rows-IsBytes (suc rows) m dest bytes =
      copy_rows-IsBytes rows (memmove m _ src size) _ (memmove-IsBytes m _ src size bytes)

  -- Bytes in none of the lines stay.
  pub copy_rows_outside :
      (rows : ℕ) (m : Memory) (dest a : ℕ)
      → IsBytes m
      → ((i : ℕ)
          → i < rows
          → (a < dest + suc i * (s.fb.framebuffer_width * 4))
            ⊎ (dest + suc i * (s.fb.framebuffer_width * 4) + size ≤ a))
      → copy_rows rows s m dest src size a ≡ m a
  unfolding copy_rows
  copy_rows_outside zero m dest a bytes out = refl
  copy_rows_outside (suc rows) m dest a bytes out =
      let w = s.fb.framebuffer_width * 4 in
      let m1 = memmove m (dest + w) src size in
      copy_rows_outside rows m1 (dest + w) a (memmove-IsBytes m (dest + w) src size bytes) (λ i lt.
        elim (out (suc i) (omega (arith, lt))) [
          | inl low ↦ inl (omega (arith, low, suc-mul (suc i) w))
          | inr high ↦ inr (omega (arith, high, suc-mul (suc i) w))
        ])
      ∙ memmove_lem m (dest + w) src size a bytes
      ∙ ground (arith, out 0, suc-mul 0 w)

  -- Each line behind the first is a copy of the source.
  pub copy_rows_copy :
      (rows : ℕ) (m : Memory) (dest i b : ℕ)
      → IsBytes m
      → src ≤ dest
      → i < rows
      → b < size
      → copy_rows rows s m dest src size (dest + suc i * (s.fb.framebuffer_width * 4) + b)
        ≡ m (src + b)
  unfolding copy_rows
  copy_rows_copy zero m dest i b bytes at lt lb = absurd (omega arith)
  copy_rows_copy (suc rows) m dest zero b bytes at lt lb =
      let w = s.fb.framebuffer_width * 4 in
      let m1 = memmove m (dest + w) src size in
      let a = dest + 1 * w + b in
      copy_rows_outside rows m1 (dest + w) a (memmove-IsBytes m (dest + w) src size bytes)
        (λ i lt. inl (omega (arith, lb, short, suc-mul i w)))
      ∙ memmove_lem m (dest + w) src size a bytes
      ∙ ground (arith, lb)
  copy_rows_copy (suc rows) m dest (suc i) b bytes at lt lb =
      let w = s.fb.framebuffer_width * 4 in
      let m1 = memmove m (dest + w) src size in
      let next : dest + suc (suc i) * w + b ≡ dest + w + suc i * w + b =
        omega (arith, suc-mul (suc i) w) in
      ap (copy_rows rows s m1 (dest + w) src size) next
      ∙ copy_rows_copy rows m1 (dest + w) i b (memmove-IsBytes m (dest + w) src size bytes)
          (omega arith) (omega arith) lb
      ∙ memmove_lem m (dest + w) src size (src + b) bytes
      ∙ ground (arith, lb, short, at)
