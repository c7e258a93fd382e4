-- ===== src/Tests/Display.antt =====
-- A screen of two pixels by 64 lines.
use mathlib.Core.Option
use vardar_os.Graphics.Color.{packed_rgb}
use vardar_os.Prelude.Int.{negsuc, pos}
use vardar_os.Prelude.{List, [], arith, none, refl, ◌∷◌, ◌≡◌}
use vardar_os.Graphics.{Font, Framebuffer, Rgb, Screen}
use vardar_os.Graphics.Terminal.{DrawCall}
use vardar_os.Graphics.Rect.Paint.{draw_rect_below}
use vardar_os.Graphics.Terminal.Canvas.{draw, draw_all}
use vardar_os.Graphics.Draw.{draw_rect}

abbrev narrow_fb : Framebuffer
narrow_fb = record {
  framebuffer_addr = 4096;
  framebuffer_width = 2;
  framebuffer_height = 64;
  framebuffer_pitch = 16;
  framebuffer_bpp = 32;
  red_mask_size = 8;
  red_mask_shift = 16;
  green_mask_size = 8;
  green_mask_shift = 8;
  blue_mask_size = 8;
  blue_mask_shift = 0;
}

abbrev dark : Screen
dark = record {
  fb = narrow_fb;
  dirty_block_str = 0;
  buffer = 1024;
  num_rows = 64;
  row_height = 1;
  memory = λ a. 0;
}

abbrev orange : Rgb
orange = record { r = 255; g = 128; b = 0 }

abbrev bar_font : Font
bar_font = record { matrix = λ c j. 1; rgb = orange; font_height = 3; font_width = 2 }

-- A rectangle, a character, and two lines of it moved up.
abbrev some_calls : List DrawCall
some_calls =
    DrawCall.rect (record { x = 1; y = 4 }) (record { width = 1; height = 2 }) orange
    ∷ DrawCall.char bar_font (record { x = 0; y = 10 }) 65
    ∷ DrawCall.move_rect (record { x = 0; y = 10 }) (record { width = 2; height = 2 }) (negsuc 1)
        (pos 0)
    ∷ []

-- The meaning of the calls: the character moved up covers places above it.
moved_character : draw_all narrow_fb some_calls (λ x y. 7) 0 8 ≡ packed_rgb orange narrow_fb
unfolding draw_all draw
moved_character = refl

draw_rect_below_example :
    draw_rect dark (record { x = 0; y = 0 }) (record { width = 2; height = 32 }) orange ≡ none
draw_rect_below_example =
    draw_rect_below dark (record { x = 0; y = 0 }) (record { width = 2; height = 32 }) orange
      (omega arith) (omega arith)
