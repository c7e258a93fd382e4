-- ===== src/Graphics/Terminal/Present.antt =====
-- The calls of graphics_ctx.c draw what they mean in the back buffer, and `WriteBack` presents it.
use mathlib.Core.Option
use vardar_os.Prelude.{
  List, [], ap, arith, inl, inr, refl, some, suc, zero, ℕ, ◌*◌, ◌+◌, ◌<◌, ◌∙◌, ◌∷◌, ◌≡◌, ◌≤◌, ◌⊎◌,
}
use vardar_os.Prelude.Int.{negsuc, pos}
use vardar_os.Memory.{IsBytes, Memory, read32}
use vardar_os.Graphics.{Screen, write_back}
use vardar_os.Graphics.Shown.{IsClean, IsScreen, IsShown, multiples_le}
use vardar_os.Graphics.Place.{pixel_of, pixel_place}
use vardar_os.Graphics.Terminal.{DrawCall, run_call, run_calls}
use vardar_os.Graphics.Terminal.Canvas.{AllOnScreen, IsOnScreen, draw, draw_all, draw_all_cong}
use vardar_os.Graphics.Flush.Whole.{write_back-Flushes}
use vardar_os.Graphics.Rect.Paint.{Redraws, draw_rect-Redraws}
use vardar_os.Graphics.Glyph.Paint.{draw_char-Redraws}
use vardar_os.Graphics.Scroll.{transpose-Redraws}
use vardar_os.Memory.Laws.{read32_cong}
use vardar_os.Graphics.Flush.Cell.{IsScreen-redrawn, redrawn}

-- The back buffer is outside the frame buffer.
back_pixel_kept :
    (s : Screen) (scr : IsScreen s) (m : Memory)
    → ((a : ℕ)
        → (a < s.fb.framebuffer_addr)
          ⊎ (s.fb.framebuffer_addr + 64 * s.row_height * s.fb.framebuffer_pitch ≤ a)
        → m a ≡ s.memory a)
    → (px py : ℕ) → px < s.fb.framebuffer_width
    → py < 64 * s.row_height
    → read32 m (pixel_place s px py) ≡ pixel_of s px py
back_pixel_kept s scr m kept px py lx ly =
    let line = multiples_le py (64 * s.row_height) s.fb.framebuffer_width ly in
    read32_cong s.memory m (pixel_place s px py) (λ b p q. kept b (elim scr.apart [
      | inl below ↦ inl (omega (arith, line, below, lx, q))
      | inr above ↦ inr (omega (arith, above, p))
    ]))

flush-Redraws :
    (s : Screen) → IsScreen s → IsBytes s.memory → IsClean s → Redraws s (pixel_of s) (write_back s)
unfolding IsClean IsShown
flush-Redraws s scr bytes clean =
    let (t, run, f) = write_back-Flushes s scr bytes clean in
    record {
      memory = f.memory;
      dirty = f.dirty;
      returns = run ∙ ap some f.state;
      bytes = f.bytes;
      clean = λ c low unmarked. f.shown c low;
      pixels = λ px py lx ly. back_pixel_kept s scr f.memory f.outside px py lx ly;
    }

run_call-Redraws :
    (s : Screen) (call : DrawCall)
    → IsScreen s
    → IsBytes s.memory
    → IsClean s
    → IsOnScreen s.fb.framebuffer_width s.row_height call
    → Redraws s (draw s.fb call (pixel_of s)) (run_call s call)
unfolding run_call draw IsOnScreen
run_call-Redraws s (DrawCall.rect coords dims c) scr bytes clean (across, tall, down) =
    draw_rect-Redraws s coords dims c scr bytes clean across tall down
run_call-Redraws s (DrawCall.char font coords c) scr bytes clean (across, down) =
    draw_char-Redraws s font coords c scr bytes clean across down
run_call-Redraws s (DrawCall.move_rect top_left dims (negsuc n) (pos zero)) scr bytes clean
      (narrow, across, le, short, down) =
    transpose-Redraws s top_left dims n scr bytes clean narrow across le short down
run_call-Redraws s (DrawCall.move_rect top_left dims (negsuc n) (pos (suc k))) scr bytes clean on =
    elim on [ ]
run_call-Redraws s (DrawCall.move_rect top_left dims (negsuc n) (negsuc k)) scr bytes clean on =
    elim on [ ]
run_call-Redraws s (DrawCall.move_rect top_left dims (pos n) left) scr bytes clean on = elim on [ ]
run_call-Redraws s DrawCall.flush scr bytes clean on = flush-Redraws s scr bytes clean

-- On a screen of 32 bits for a pixel and fields of 8 bits, any sequence of calls that stay on the screen ends, and leaves in
-- the back buffer the image that the calls describe, drawn on the one before; where every row that was
-- not marked as dirty was shown, this is so afterwards.
pub run_calls-Redraws :
    (calls : List DrawCall) (s : Screen)
    → IsScreen s
    → IsBytes s.memory
    → IsClean s
    → AllOnScreen s.fb.framebuffer_width s.row_height calls
    → Redraws s (draw_all s.fb calls (pixel_of s)) (run_calls s calls)
unfolding run_calls draw_all AllOnScreen Option.bind IsClean IsShown
run_calls-Redraws [] s scr bytes clean on = record {
  memory = s.memory;
  dirty = s.dirty_block_str;
  returns = refl;
  bytes = bytes;
  clean = clean;
  pixels = λ px py lx ly. refl;
}
run_calls-Redraws (call ∷ calls) s scr bytes clean (here, on) =
    let first = run_call-Redraws s call scr bytes clean here in
    let rest =
      run_calls-Redraws calls (redrawn s first.memory first.dirty)
        (IsScreen-redrawn scr first.memory first.dirty) first.bytes first.clean on in
    record {
      memory = rest.memory;
      dirty = rest.dirty;
      returns = rw first.returns rest.returns;
      bytes = rest.bytes;
      clean = rest.clean;
      pixels = λ px py lx ly.
          rest.pixels px py lx ly
          ∙ draw_all_cong s.fb s.fb.framebuffer_width s.row_height calls
              (pixel_of (redrawn s first.memory first.dirty)) (draw s.fb call (pixel_of s)) on
              first.pixels px py lx ly;
    }

-- The address of a pixel in the frame buffer.
abbrev pub front_place : Screen → ℕ → ℕ → ℕ
front_place s px py = s.fb.framebuffer_addr + py * s.fb.framebuffer_pitch + px * 4
