-- ===== src/Graphics/Rect/Paint.antt =====
-- `DrawRect` on the pixels of the back buffer, and on the rows that are shown.
use native.Mathlib.Nat.{le-div_iff_mul-le}
use vardar_os.Graphics.Place.{covered, div_lt, div_mono, pixel_of, pixel_place, rows_held}
use vardar_os.Graphics.Rect.Lines.{
  first_line, painted, painted-Draws, painted-IsBytes, painted_pixel, start,
}
use vardar_os.Graphics.Flush.Cell.{redrawn}
use mathlib.Core.Path.{subst}
use vardar_os.Graphics.Color.{pack_rgb_lem, packed_rgb, packed_rgb-lt}
use mathlib.Core.Option
use vardar_os.Prelude.{
  Option-cases, Bool, Option, Option-cases, arith, if◌then◌else◌, inl, inr, leb, ltb, none, refl,
  some, suc, ℕ, ◌%◌, ◌&&◌, ◌*◌, ◌+◌, ◌-◌, ◌/◌, ◌<◌, ◌==◌, ◌≡◌, ◌≤◌,
}
use vardar_os.Memory.{IsBytes, Memory, read32}
use vardar_os.Graphics.{Coordinate, Dimensions, Rgb, Screen, pack_rgb, pixel_at, pixel_index}
use vardar_os.Graphics.Draw.{paint_rect, draw_rect, paint_rect}
use vardar_os.Graphics.Shown.{IsClean, IsScreen, multiples_le}
use vardar_os.Graphics.Marks.{mark_dirty-IsClean, mark_rows-none}

-- `result` is the screen `s` with the pixels of an image in the back buffer, and with every row shown
-- that is not marked.
pub record Redraws (s : Screen) (image : ℕ → ℕ → ℕ) (result : Option Screen) : Type 0 where
  pub memory : Memory
  pub dirty : ℕ
  pub returns : result ≡ some (redrawn s memory dirty)
  pub bytes : IsBytes memory
  pub clean : IsClean (redrawn s memory dirty)
  pub pixels :
      (px py : ℕ)
      → px < s.fb.framebuffer_width
      → py < 64 * s.row_height
      → read32 memory (pixel_place s px py) ≡ image px py

abbrev pub in_rect : Coordinate → Dimensions → ℕ → ℕ → Bool
in_rect coords dims px py =
    leb coords.x px
    && ltb px (coords.x + dims.width)
    && leb coords.y py
    && ltb py (coords.y + dims.height)

pub place_lem :
    (s : Screen) (scr : IsScreen s) (coords : Coordinate)
    → coords.x ≤ s.fb.framebuffer_width
    → coords.y < 64 * s.row_height
    → pixel_at s (pixel_index s coords) ≡ pixel_place s coords.x coords.y
unfolding pixel_index
place_lem s scr coords lx ly =
    let line = multiples_le coords.y (64 * s.row_height) s.fb.framebuffer_width ly in
    ground (arith, line, scr.small, scr.fits, lx)

pub drawn_size : (width bpp : ℕ) → bpp ≡ 32 → width * bpp / 8 ≡ width * 4
drawn_size width bpp deep = rw deep (omega arith)

-- On a screen of 32 bits for a pixel and fields of 8 bits, `DrawRect` of a rectangle that is not empty downwards, that lies
-- within a line and in the first 31 of the 64 rows of the screen, returns: the pixels of the rectangle
-- have the colour and all others are as before, and where every row that was not marked as dirty was
-- shown, this is so afterwards.
pub draw_rect-Redraws :
    (s : Screen) (coords : Coordinate) (dims : Dimensions) (c : Rgb)
    → IsScreen s
    → IsBytes s.memory
    → IsClean s
    → coords.x + dims.width ≤ s.fb.framebuffer_width
    → 0 < dims.height
    → coords.y + dims.height < 31 * s.row_height
    → Redraws s
        (λ px py. if in_rect coords dims px py then packed_rgb c s.fb else pixel_of s px py)
        (draw_rect s coords dims c)
unfolding draw_rect paint_rect painted first_line start Option.bind
draw_rect-Redraws s coords dims c scr bytes clean across tall down =
    let packed = packed_rgb c s.fb in
    let small = packed_rgb-lt c s.fb in
    let r = dims.height - 1 in
    let m = painted s scr bytes coords.x coords.y dims.width r packed across small in
    let height : suc r ≡ dims.height = omega (arith, tall) in
    let bottom = coords.y + dims.height in
    let row = coords.y / s.row_height in
    let end = bottom / s.row_height + (if coords.y % s.row_height == 0 then 1 else 0) + 1 in
    let below = div_lt bottom 31 s.row_height scr.tall down in
    let top : row ≤ bottom / s.row_height =
      div_mono coords.y bottom s.row_height scr.tall (omega arith) in
    let (dirty, run, clean', marked) =
      mark_dirty-IsClean s scr m coords.y (coords.y + suc r)
        (painted-Draws s scr bytes coords.x coords.y dims.width r packed across small
          (omega (arith, down, height)))
        row end clean (ground (arith, top)) (ground (arith, below))
        (λ k. rows_held k s.row_height coords.y (coords.y + suc r) end (
          covered (coords.y + suc r) bottom end s.row_height scr.tall (omega (arith, height))
            (ground arith))) in
    let place = place_lem s scr coords (omega (arith, across)) (omega (arith, down)) in
    let size : dims.width * s.fb.framebuffer_bpp / 8 ≡ dims.width * 4 =
      drawn_size dims.width s.fb.framebuffer_bpp scr.deep in
    record {
      memory = m;
      dirty = dirty;
      returns = rw (draw_rect, pack_rgb_lem c s.fb scr.deep scr.masks, paint_rect, place, size) run;
      bytes = painted-IsBytes s scr bytes coords.x coords.y dims.width r packed across small;
      clean = clean';
      pixels = λ px py lx ly.
          subst
            (λ (h : ℕ). read32 m (pixel_place s px py) ≡ (
              if leb coords.x px
                && ltb px (coords.x + dims.width)
                && leb coords.y py
                && ltb py (coords.y + h)
              then packed
              else read32 s.memory (pixel_place s px py)))
            height
            (painted_pixel s scr bytes coords.x coords.y dims.width r packed across small px py lx);
    }

paint_rect_below :
    (s : Screen) (coords : Coordinate) (dims : Dimensions) (packed : ℕ)
    → 0 < s.row_height
    → 32 * s.row_height ≤ coords.y + dims.height
    → paint_rect s coords dims packed ≡ none
unfolding paint_rect
paint_rect_below s coords dims packed tall down =
    let bottom = coords.y + dims.height in
    let row = coords.y / s.row_height in
    let last = (le-div_iff_mul-le {k = s.row_height} {x = 32} {y = bottom} tall).1 down in
    let top = div_mono coords.y bottom s.row_height tall (omega arith) in
    let end = bottom / s.row_height + (if coords.y % s.row_height == 0 then 1 else 0) + 1 in
    let from : row ≤ bottom / s.row_height = top in
    let marked =
      mark_rows-none (end - row) s.dirty_block_str row (ground (arith, from))
        (ground (arith, from, last)) in
    rw marked refl

-- `DrawRect` is undefined for a rectangle that ends in row 32 of 64 or below.
pub draw_rect_below :
    (s : Screen) (coords : Coordinate) (dims : Dimensions) (c : Rgb)
    → 0 < s.row_height
    → 32 * s.row_height ≤ coords.y + dims.height
    → draw_rect s coords dims c ≡ none
unfolding draw_rect Option.bind
draw_rect_below s coords dims c tall down = elim (Option-cases (pack_rgb c s.fb)) [
  | inl undefined ↦ rw (draw_rect, undefined) refl
  | inr (packed, defined) ↦
      rw (draw_rect, defined) (paint_rect_below s coords dims packed tall down)
]
