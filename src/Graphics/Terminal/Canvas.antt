-- ===== src/Graphics/Terminal/Canvas.antt =====
-- What the calls of graphics_ctx.c mean on an image, which is a colour at each place, and which calls
-- stay on the screen.
use vardar_os.Graphics.Color.{packed_rgb}
use vardar_os.Prelude.{
  Bool-cases, List, [], ap, arith, if◌then◌else◌, inl, inr, suc, zero, ℕ, ◌*◌, ◌+◌, ◌<◌, ◌^◌, ◌∷◌,
  ◌≡◌, ◌≤◌,
}
use vardar_os.Prelude.Int.{negsuc, pos}
use vardar_os.Graphics.{Framebuffer}
use vardar_os.Graphics.Terminal.{DrawCall}
use vardar_os.Graphics.Rect.Paint.{in_rect}
use vardar_os.Graphics.Glyph.Paint.{in_glyph}
use vardar_os.Graphics.Scroll.{moved_up}

abbrev pub Image : Type 0
Image = ℕ → ℕ → ℕ

-- A rectangle in one colour, a character in the colour of its font, and a rectangle moved up; other
-- moves are not described.
unfoldable pub draw : Framebuffer → DrawCall → Image → Image
draw fb (DrawCall.rect coords dims c) image px py =
    if in_rect coords dims px py then packed_rgb c fb else image px py
draw fb (DrawCall.char font coords c) image px py =
    if in_glyph font coords c 0 font.font_height px py then packed_rgb font.rgb fb else image px py
draw fb (DrawCall.move_rect top_left dims (negsuc n) left) image px py =
    if moved_up top_left dims n px py then image px (py + suc n) else image px py
draw fb (DrawCall.move_rect top_left dims (pos n) left) image px py = image px py
draw fb DrawCall.flush image px py = image px py

unfoldable pub draw_all : Framebuffer → List DrawCall → Image → Image
draw_all fb [] image = image
draw_all fb (call ∷ calls) image = draw_all fb calls (draw fb call image)

-- A call within lines of `width` pixels and within the rows, of `height` lines, that `SetNthBit` can
-- mark; moves are upwards.
unfoldable pub IsOnScreen : ℕ → ℕ → DrawCall → Type 0
IsOnScreen width height (DrawCall.rect coords dims c) =
    (coords.x + dims.width ≤ width) × (0 < dims.height) × (coords.y + dims.height < 31 * height)
IsOnScreen width height (DrawCall.char font coords c) =
    (coords.x + font.font_width ≤ width) × (coords.y + font.font_height < 32 * height)
IsOnScreen width height (DrawCall.move_rect top_left dims (negsuc n) (pos zero)) =
    (top_left.x < 2 ^ 16)
    × (top_left.x + dims.width ≤ width)
    × (suc n ≤ top_left.y)
    × (top_left.y + dims.height < 2 ^ 16)
    × (top_left.y + dims.height < 32 * height)
IsOnScreen width height (DrawCall.move_rect top_left dims down left) = ⊥
IsOnScreen width height DrawCall.flush = Unit

unfoldable pub AllOnScreen : ℕ → ℕ → List DrawCall → Type 0
AllOnScreen width height [] = Unit
AllOnScreen width height (call ∷ calls) =
    IsOnScreen width height call × AllOnScreen width height calls

-- Two images agree on the places of a screen.
abbrev pub Agree : ℕ → ℕ → Image → Image → Type 0
Agree width height image other =
    (px py : ℕ) → px < width → py < 64 * height → image px py ≡ other px py

draw_cong :
    (fb : Framebuffer) (width height : ℕ) (call : DrawCall) (image other : Image)
    → IsOnScreen width height call
    → Agree width height image other
    → Agree width height (draw fb call image) (draw fb call other)
unfolding draw IsOnScreen
draw_cong fb width height (DrawCall.rect coords dims c) image other on agree px py lx ly =
    ap (λ (v : ℕ). if in_rect coords dims px py then packed_rgb c fb else v) (agree px py lx ly)
draw_cong fb width height (DrawCall.char font coords c) image other on agree px py lx ly =
    ap
      (λ (v : ℕ).
        if in_glyph font coords c 0 font.font_height px py then packed_rgb font.rgb fb else v)
      (agree px py lx ly)
draw_cong fb width height (DrawCall.move_rect top_left dims (negsuc n) (pos zero)) image other
      (narrow, across, le, short, down) agree px py lx ly =
    elim (Bool-cases (moved_up top_left dims n px py)) [
      | inl moved ↦ rw moved (agree px (py + suc n) lx (ground (arith, moved, le, down)))
      | inr still ↦ rw still (agree px py lx ly)
    ]
draw_cong fb width height (DrawCall.move_rect top_left dims (negsuc n) (pos (suc k))) image other on
      agree px py lx ly =
    elim on [ ]
draw_cong fb width height (DrawCall.move_rect top_left dims (negsuc n) (negsuc k)) image other on
      agree px py lx ly =
    elim on [ ]
draw_cong fb width height (DrawCall.move_rect top_left dims (pos n) left) image other on agree px py
      lx ly =
    elim on [ ]
draw_cong fb width height DrawCall.flush image other on agree px py lx ly = agree px py lx ly

pub draw_all_cong :
    (fb : Framebuffer) (width height : ℕ) (calls : List DrawCall) (image other : Image)
    → AllOnScreen width height calls
    → Agree width height image other
    → Agree width height (draw_all fb calls image) (draw_all fb calls other)
unfolding draw_all AllOnScreen
draw_all_cong fb width height [] image other on agree = agree
draw_all_cong fb width height (call ∷ calls) image other (here, on) agree =
    draw_all_cong fb width height calls (draw fb call image) (draw fb call other) on
      (draw_cong fb width height call image other here agree)
