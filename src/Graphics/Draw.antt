-- ===== src/Graphics/Draw.antt =====
-- What graphics_ctx.c draws in the back buffer: rectangles, characters and moved rectangles.
use mathlib.Core.Option
use vardar_os.Prelude.{
  List, Option, [], bit_and, if◌then◌else◌, ltb, none, some, suc, u16, zero, ℕ, ◌%◌, ◌*◌, ◌+◌, ◌-◌,
  ◌/◌, ◌==◌, ◌>>>◌, ◌^◌, ◌||◌, ◌∷◌,
}
use vardar_os.Prelude.Int.{negsuc, pos, sub_ℕ, ℤ}
use vardar_os.Memory.{Memory, write32}
use vardar_os.Utils.String.{memmove}
use vardar_os.Graphics.{
  Coordinate, Dimensions, Font, Rgb, Screen, fill_pixels, mark_dirty, pack_rgb, pixel_at,
  pixel_index,
}

-- The rows of a rectangle behind the first one.
unfoldable pub copy_rows : ℕ → Screen → Memory → ℕ → ℕ → ℕ → Memory
copy_rows zero s m dest src size = m
copy_rows (suc rows) s m dest src size =
    let dest' = dest + s.fb.framebuffer_width * 4 in
    copy_rows rows s (memmove m dest' src size) dest' src size

-- `DrawRect` with the packed colour.
unfoldable pub paint_rect : Screen → Coordinate → Dimensions → ℕ → Option Screen
paint_rect s coords dims packed =
    let dest = pixel_at s (pixel_index s coords) in
    let first = fill_pixels dims.width s.memory dest packed in
    let size = dims.width * s.fb.framebuffer_bpp / 8 in
    let ending_row =
      (coords.y + dims.height) / s.row_height + (if coords.y % s.row_height == 0 then 1 else 0) in
    mark_dirty s (coords.y / s.row_height) (ending_row + 1)
      (copy_rows (dims.height - 1) s first dest dest size)

unfoldable pub draw_rect : Screen → Coordinate → Dimensions → Rgb → Option Screen
draw_rect s coords dims c = Option.bind (pack_rgb c s.fb) (paint_rect s coords dims)

-- The pixels of one row of a character, from bit `i` on.
unfoldable pub draw_bits : ℕ → Screen → Memory → ℕ → ℕ → ℕ → ℕ → Memory
draw_bits zero s m row i index packed = m
draw_bits (suc count) s m row i index packed =
    draw_bits count s
      (if bit_and (row >>> i) 1 == 0 then m else write32 m (s.buffer + (index + i) * 4) packed) row
      (i + 1) index packed

unfoldable pub draw_bitmap : ℕ → Screen → Memory → Font → Coordinate → ℕ → ℕ → ℕ → Memory
draw_bitmap zero s m font coords c packed j = m
draw_bitmap (suc count) s m font coords c packed j =
    draw_bitmap count s
      (draw_bits font.font_width s m (font.matrix c j) 0
        (coords.x + (coords.y + j) * s.fb.framebuffer_width) packed)
      font coords c packed (j + 1)

-- `DrawChar` with the packed colour of the font.
unfoldable pub paint_char : Screen → Font → Coordinate → ℕ → ℕ → Option Screen
paint_char s font coords c packed =
    let bottom = coords.y + font.font_height in
    let ending_row = bottom / s.row_height + (if ltb 0 (bottom % s.row_height) then 1 else 0) in
    mark_dirty s (coords.y / s.row_height) ending_row
      (draw_bitmap font.font_height s s.memory font coords c packed 0)

unfoldable pub draw_char : Screen → Font → Coordinate → ℕ → Option Screen
draw_char s font coords c = Option.bind (pack_rgb font.rgb s.fb) (paint_char s font coords c)

-- The loop of `PrintStr`, over the characters before the NUL.
unfoldable pub print_str_from : Screen → Font → Coordinate → List ℕ → ℕ → ℕ → Option Screen
print_str_from s font coords [] x y = some s
print_str_from s font coords (c ∷ str) x y =
    if c == 10 || ltb s.fb.framebuffer_width (coords.x + x)
    then print_str_from s font coords str coords.x (y + font.font_height)
    else Option.bind
        (draw_char s font
          (record { x = u16 (coords.x + (x + font.font_width)); y = u16 (coords.y + y) }) c)
        (λ t. print_str_from t font coords str (x + font.font_width) y)

unfoldable pub print_str : Screen → Font → Coordinate → List ℕ → Option Screen
print_str s font coords str = print_str_from s font coords str coords.x coords.y

-- A coordinate moved by an `int`, as a `uint16_t`.
unfoldable pub move16 : ℕ → ℤ → ℕ
move16 c (pos n) = u16 (c + n)
move16 c (negsuc n) = u16 (c + (2 ^ 16 - (n + 1) % 2 ^ 16))

-- The loop of `Transpose` over the rows from `y` on.
unfoldable pub transpose_rows : ℕ → Screen → Memory → ℕ → ℕ → ℕ → ℤ → ℤ → Memory
transpose_rows zero s m x y width down left = m
transpose_rows (suc rows) s m x y width down left =
    let src = pixel_at s (pixel_index s (record { x = x; y = u16 y })) in
    let dest = pixel_at s (pixel_index s (record { x = move16 x left; y = move16 y down })) in
    transpose_rows rows s (memmove m dest src (width * s.fb.framebuffer_bpp / 8)) x (y + 1) width
      down left

-- The quotient of an `int` that is rounded to 0, as the number of a row.
unfoldable pub row_of : ℤ → ℕ → Option ℕ
row_of (pos n) height = some (n / height)
row_of (negsuc n) height = if ltb n (height - 1) then some 0 else none

-- The first row, and the one behind the last, that `Transpose` touches.
unfoldable pub touched_rows : ℕ → ℕ → ℤ → ℤ × ℕ
touched_rows y height (pos n) = (pos y, y + height + n)
touched_rows y height (negsuc n) = (sub_ℕ y (n + 1), y + height)

unfoldable pub transpose : Screen → Coordinate → Dimensions → ℤ → ℤ → Option Screen
transpose s top_left dims down left =
    let m = transpose_rows dims.height s s.memory top_left.x top_left.y dims.width down left in
    let (top_row, bottom_row) = touched_rows top_left.y dims.height down in
    let bottom = bottom_row / s.row_height + (if bottom_row % s.row_height == 0 then 0 else 1) in
    Option.bind (row_of top_row s.row_height) (λ top. mark_dirty s top bottom m)
