-- ===== src/Graphics/Glyph/Paint.antt =====
-- `DrawChar` on the pixels of the back buffer, and on the rows that are shown.
use native.Mathlib.Nat.{mul-le-mul_right}
use vardar_os.Graphics.Color.{pack_rgb_lem, packed_rgb, packed_rgb-lt}
use mathlib.Core.Option
use vardar_os.Prelude.{
  Bool, Bool-cases, ap, arith, if◌then◌else◌, inl, inr, leb, ltb, refl, suc, zero, ℕ, ◌&&◌, ◌*◌,
  ◌+◌, ◌-◌, ◌/◌, ◌<◌, ◌==◌, ◌∙◌, ◌≡◌, ◌≤◌, ◌⊎◌,
}
use vardar_os.Memory.{IsBytes, Memory, read32}
use vardar_os.Graphics.{Coordinate, Font, Screen}
use vardar_os.Graphics.Draw.{paint_char, draw_bitmap, draw_bits, draw_char, paint_char}
use vardar_os.Graphics.Shown.{IsClean, IsScreen, multiples_le}
use vardar_os.Graphics.Place.{pixel_of, pixel_place, row_end, row_end_lem, rows_held}
use vardar_os.Graphics.Rect.Paint.{Redraws}
use vardar_os.Graphics.Glyph.{draw_bits-IsBytes, draw_bits_lem, draw_bits_outside, row_bit}
use vardar_os.Graphics.Rect.Lines.{three_ways}
use vardar_os.Graphics.Marks.{mark_dirty-IsClean}

-- The pixels of the character `c` of a font at a place, from its line `j` on.
abbrev pub in_glyph : Font → Coordinate → ℕ → ℕ → ℕ → ℕ → ℕ → Bool
in_glyph font coords c j count px py =
    leb coords.x px
    && ltb px (coords.x + font.font_width)
    && leb (coords.y + j) py
    && ltb py (coords.y + j + count)
    && row_bit (font.matrix c (py - coords.y)) (px - coords.x)

-- Positions on a line, and on other lines.
pub same_line :
    (px py x y w v : ℕ)
    → px < v
    → x + w ≤ v
    → (leb (x + y * v) (px + py * v) && ltb (px + py * v) (x + y * v + w))
      ≡ (py == y && leb x px && ltb px (x + w))
same_line px py x y w v lx wide = elim (three_ways py y) [
  | inl above ↦ ground (arith, multiples_le py y v above, wide, lx)
  | inr (inl below) ↦ ground (arith, multiples_le y py v below, wide, lx)
  | inr (inr same) ↦ rw same (ground arith)
]

module _ (s : Screen) (font : Font) (coords : Coordinate) (c : ℕ)
    (wide : coords.x + font.font_width ≤ s.fb.framebuffer_width) where
  glyph_line : Memory → ℕ → Memory
  glyph_line m j =
      draw_bits font.font_width s m (font.matrix c j) 0
        (coords.x + (coords.y + j) * s.fb.framebuffer_width) (packed_rgb font.rgb s.fb)

  glyph_line_lem :
      (m : Memory) (j px py : ℕ)
      → px < s.fb.framebuffer_width
      → read32 (glyph_line m j) (pixel_place s px py) ≡ (
          if in_glyph font coords c j 1 px py
          then packed_rgb font.rgb s.fb
          else read32 m (pixel_place s px py))
  unfolding glyph_line
  glyph_line_lem m j px py lx =
      let v = s.fb.framebuffer_width in
      let index = coords.x + (coords.y + j) * v in
      let line = same_line px py coords.x (coords.y + j) font.font_width v lx wide in
      draw_bits_lem s (packed_rgb font.rgb s.fb) (packed_rgb-lt font.rgb s.fb) font.font_width m
        (font.matrix c j) 0 index (px + py * v)
      ∙ elim (Bool-cases (py == coords.y + j && leb coords.x px)) [
        | inl on ↦
            let same : py ≡ coords.y + j = ground (arith, on) in
            let from : coords.x ≤ px = ground (arith, on) in
            let row : py - coords.y ≡ j = omega (arith, same) in
            let lines : py * v ≡ (coords.y + j) * v = ap (λ (t : ℕ). t * v) same in
            let column : px + py * v - index ≡ px - coords.x = omega (arith, lines, from) in
            rw (row, column) (ground (arith, line, on))
        | inr off ↦ ground (arith, line, off)
      ]

  draw_bitmap_lem :
      (count : ℕ) (m : Memory) (j px py : ℕ)
      → px < s.fb.framebuffer_width
      → read32
          (draw_bitmap count s m font coords c (packed_rgb font.rgb s.fb) j)
          (pixel_place s px py)
        ≡ (if in_glyph font coords c j count px py
            then packed_rgb font.rgb s.fb
            else read32 m (pixel_place s px py))
  unfolding draw_bitmap glyph_line
  draw_bitmap_lem zero m j px py lx = ground arith
  draw_bitmap_lem (suc count) m j px py lx =
      draw_bitmap_lem count (glyph_line m j) (j + 1) px py lx
      ∙ ground (arith, glyph_line_lem m j px py lx)

  glyph_line-IsBytes : (m : Memory) (j : ℕ) → IsBytes m → IsBytes (glyph_line m j)
  unfolding glyph_line
  glyph_line-IsBytes m j bytes =
      draw_bits-IsBytes s (packed_rgb font.rgb s.fb) (packed_rgb-lt font.rgb s.fb) font.font_width m
        (font.matrix c j) 0 (coords.x + (coords.y + j) * s.fb.framebuffer_width) bytes

  draw_bitmap-IsBytes :
      (count : ℕ) (m : Memory) (j : ℕ)
      → IsBytes m
      → IsBytes (draw_bitmap count s m font coords c (packed_rgb font.rgb s.fb) j)
  unfolding draw_bitmap glyph_line
  draw_bitmap-IsBytes zero m j bytes = bytes
  draw_bitmap-IsBytes (suc count) m j bytes =
      draw_bitmap-IsBytes count (glyph_line m j) (j + 1) (glyph_line-IsBytes m j bytes)

  draw_bitmap_outside :
      (count : ℕ) (m : Memory) (j last a : ℕ)
      → coords.y + j + count ≡ last
      → (a < s.buffer + coords.y * s.fb.framebuffer_width * 4)
        ⊎ (s.buffer + last * s.fb.framebuffer_width * 4 ≤ a)
      → draw_bitmap count s m font coords c (packed_rgb font.rgb s.fb) j a ≡ m a
  unfolding draw_bitmap glyph_line
  draw_bitmap_outside zero m j last a end out = refl
  draw_bitmap_outside (suc count) m j last a end out =
      let v = s.fb.framebuffer_width in
      let index = coords.x + (coords.y + j) * v in
      let from = mul-le-mul_right {m = coords.y} {n = coords.y + j} v (omega arith) in
      let to = multiples_le (coords.y + j) last v (omega arith) in
      draw_bitmap_outside count (glyph_line m j) (j + 1) last a (omega arith) out
      ∙ draw_bits_outside s (packed_rgb font.rgb s.fb) (packed_rgb-lt font.rgb s.fb) font.font_width
          m (font.matrix c j) 0 index a
          (elim out [
            | inl low ↦ inl (omega (arith, from, low))
            | inr high ↦ inr (omega (arith, to, high, wide))
          ])

-- On a screen of 32 bits for a pixel and fields of 8 bits, `DrawChar` of a character that lies within the lines and ends in
-- the first 32 of the 64 rows of the screen returns: the pixels of the bitmap have the colour of the
-- font and all others are as before, and where every row that was not marked as dirty was shown, this
-- is so afterwards.
pub draw_char-Redraws :
    (s : Screen) (font : Font) (coords : Coordinate) (c : ℕ)
    → IsScreen s
    → IsBytes s.memory
    → IsClean s
    → coords.x + font.font_width ≤ s.fb.framebuffer_width
    → coords.y + font.font_height < 32 * s.row_height
    → Redraws s
        (λ px py.
          if in_glyph font coords c 0 font.font_height px py
          then packed_rgb font.rgb s.fb
          else pixel_of s px py)
        (draw_char s font coords c)
unfolding draw_char paint_char Option.bind
draw_char-Redraws s font coords c scr bytes clean across down =
    let bottom = coords.y + font.font_height in
    let m = draw_bitmap font.font_height s s.memory font coords c (packed_rgb font.rgb s.fb) 0 in
    let row = coords.y / s.row_height in
    let (top, low, covers) = row_end_lem coords.y bottom s.row_height scr.tall (omega arith) down in
    let (dirty, run, clean', marked) =
      mark_dirty-IsClean s scr m coords.y bottom
        (record {
          ends = omega (arith, down);
          kept = λ a out.
              draw_bitmap_outside s font coords c across font.font_height s.memory 0 bottom a
                (omega arith) out;
        })
        row (row_end bottom s.row_height) clean top low
        (λ k. rows_held k s.row_height coords.y bottom (row_end bottom s.row_height) covers) in
    record {
      memory = m;
      dirty = dirty;
      returns = rw (draw_char, pack_rgb_lem font.rgb s.fb scr.deep scr.masks) run;
      bytes = draw_bitmap-IsBytes s font coords c across font.font_height s.memory 0 bytes;
      clean = clean';
      pixels = λ px py lx ly.
          draw_bitmap_lem s font coords c across font.font_height s.memory 0 px py lx;
    }
