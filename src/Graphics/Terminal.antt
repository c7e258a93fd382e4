-- ===== src/Graphics/Terminal.antt =====
-- src/kernel/graphics/terminal.c. The functions change `main_term`, which is also the terminal that
-- they are given, and draw: an operation returns the terminal and the calls of graphics_ctx.c in
-- their order, which `run_calls` carries out.
pub mod Cursor
pub mod Canvas
pub mod Present
pub mod First
use mathlib.Core.Option
use vardar_os.Prelude.{
  List, Option, [], if◌then◌else◌, ltb, some, suc, u16, zero, ℕ, ◌&&◌, ◌*◌, ◌++◌, ◌+◌, ◌-◌, ◌/◌,
  ◌==◌, ◌^◌, ◌||◌, ◌∷◌,
}
use vardar_os.Prelude.Int.{pos, sub_ℕ, ℤ}
use vardar_os.Graphics.{Coordinate, Dimensions, Font, Rgb, Screen, write_back}
use vardar_os.Graphics.Draw.{draw_char, draw_rect, transpose}
use vardar_os.Interrupts.Keyboard.{KeyInfo, char_from_scancode}

pub record Terminal : Type 0 where
  pub dims : Dimensions
  pub font : Font
  pub chars_per_line : ℕ
  pub num_lines : ℕ
  pub top_left : Coordinate
  pub cursor : Coordinate
  pub bg_color : Rgb
  pub border_color : Rgb
  pub border_thickness : ℕ
  pub prompt : List ℕ

pub data DrawCall : Type 0 where
  rect : Coordinate → Dimensions → Rgb → DrawCall
  char : Font → Coordinate → ℕ → DrawCall
  move_rect : Coordinate → Dimensions → ℤ → ℤ → DrawCall
  flush : DrawCall

unfoldable pub run_call : Screen → DrawCall → Option Screen
run_call s (rect coords dims c) = draw_rect s coords dims c
run_call s (char font coords c) = draw_char s font coords c
run_call s (move_rect top_left dims down left) = transpose s top_left dims down left
run_call s flush = write_back s

unfoldable pub run_calls : Screen → List DrawCall → Option Screen
run_calls s [] = some s
run_calls s (call ∷ calls) = Option.bind (run_call s call) (λ t. run_calls t calls)

-- The place of the cursor on the screen.
abbrev pub cursor_at : Terminal → Coordinate
cursor_at t = record { x = u16 (t.top_left.x + t.cursor.x); y = u16 (t.top_left.y + t.cursor.y) }

-- The loop of `Scroll`, from line `i` on: each line moves up by one.
unfoldable pub scroll_lines : ℕ → Terminal → ℕ → List DrawCall
scroll_lines zero t i = []
scroll_lines (suc count) t i =
    let h = t.font.font_height in
    let from : Coordinate = record { x = t.top_left.x; y = u16 (i * h + t.top_left.y) } in
    let dims : Dimensions = record { width = t.dims.width; height = h } in
    DrawCall.move_rect from dims (sub_ℕ 0 h) (pos 0) ∷ DrawCall.flush ∷ scroll_lines count t (i + 1)

unfoldable pub scroll : Terminal → List DrawCall
scroll t =
    let h = t.font.font_height in
    let last : Coordinate = record {
      x = t.top_left.x;
      y = u16 (t.top_left.y + 2 ^ 16 + h * t.num_lines - h);
    } in
    let dims : Dimensions = record { width = t.dims.width; height = h } in
    scroll_lines t.num_lines t 1 ++ DrawCall.rect last dims t.bg_color ∷ DrawCall.flush ∷ []

unfoldable pub term_new_line : Terminal → Terminal × List DrawCall
term_new_line t =
    let h = t.font.font_height in
    if ltb t.dims.height (t.cursor.y + h * 2)
    then (record t { cursor = record { x = 0; y = t.cursor.y } }, scroll t)
    else (record t { cursor = record { x = 0; y = u16 (t.cursor.y + h) } }, [])

-- One character of `TermPrint`, before it is drawn. The comparison is one of `int`s.
unfoldable pub advance : Terminal → ℕ → Terminal × List DrawCall
advance t c =
    if c == 10 || ltb t.dims.width (t.cursor.x + t.border_thickness * 6) then term_new_line t else (
      record t { cursor = record { x = u16 (t.cursor.x + t.font.font_width); y = t.cursor.y } },
      [],
    )

-- `TermPrint`, over the characters before the NUL.
unfoldable pub term_print : Terminal → List ℕ → Terminal × List DrawCall
term_print t [] = (t, [])
term_print t (c ∷ str) =
    let (t1, calls) = advance t c in
    let (t2, rest) = term_print t1 str in
    (t2, calls ++ DrawCall.char t1.font (cursor_at t1) c ∷ rest)

unfoldable pub render_borders : Terminal → DrawCall
render_borders t =
    let top_left : Coordinate = record {
      x = u16 (t.top_left.x + 2 ^ 16 - t.border_thickness);
      y = u16 (t.top_left.y + 2 ^ 16 - t.border_thickness);
    } in
    let dims : Dimensions = record {
      width = u16 (t.dims.width + t.border_thickness * 2);
      height = u16 (t.dims.height + t.border_thickness * 2);
    } in
    DrawCall.rect top_left dims t.border_color

unfoldable pub render : Terminal → Terminal × List DrawCall
render t =
    let (t1, calls) = term_print t t.prompt in
    (t1, render_borders t ∷ DrawCall.rect t.top_left t.dims t.bg_color ∷ calls)

-- `InitTerminal`: `main_term` after the call, and what was drawn.
unfoldable pub init_terminal :
    Dimensions → Coordinate → Font → Rgb → Rgb → ℕ → List ℕ → Terminal × List DrawCall
init_terminal dims top_left font bg border thickness prompt = render (record {
  dims = record {
    width = u16 (dims.width + 2 ^ 16 - thickness * 2);
    height = u16 (dims.height + 2 ^ 16 - thickness * 2);
  };
  font = font;
  chars_per_line = u16 (dims.width / font.font_width);
  num_lines = u16 (dims.height / font.font_height);
  top_left = record { x = u16 (top_left.x + thickness); y = u16 (top_left.y + thickness) };
  cursor = record { x = 0; y = 0 };
  bg_color = bg;
  border_color = border;
  border_thickness = thickness;
  prompt = prompt;
})

unfoldable pub remove_char : Terminal → Terminal × List DrawCall
remove_char t =
    let w = t.font.font_width in
    let h = t.font.font_height in
    let blank : DrawCall =
      DrawCall.rect (cursor_at t) (record { width = w; height = h }) t.bg_color in
    if t.cursor.x == 0 && t.cursor.y == 0
    then (t, [])
    else if t.cursor.x == 0
    then (
      record t {
        cursor = record {
          x = u16 (t.chars_per_line * w + 2 ^ 16 - w);
          y = u16 (t.cursor.y + 2 ^ 16 - h);
        };
      },
      blank ∷ [],
    )
    else (
      record t { cursor = record { x = u16 (t.cursor.x + 2 ^ 16 - w); y = t.cursor.y } },
      blank ∷ [],
    )

-- The string of one character; the character 0 ends it at once.
abbrev one_char : ℕ → List ℕ
one_char c = if c == 0 then [] else c ∷ []

-- `HandleKeyStroke`; `none` where the scancode is no index of the tables of characters.
unfoldable pub handle_keystroke : Terminal → KeyInfo → Option (Terminal × List DrawCall)
handle_keystroke t k =
    Option.map
      (λ c.
        let (t1, newline) = term_new_line t in
        let (t2, calls) =
          if k.backspace
          then remove_char t
          else if k.enter
          then ((term_print t1 t1.prompt).0, newline ++ (term_print t1 t1.prompt).1)
          else term_print t (one_char c) in
        (t2, calls ++ DrawCall.flush ∷ []))
      (char_from_scancode k)
