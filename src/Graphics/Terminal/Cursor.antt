-- ===== src/Graphics/Terminal/Cursor.antt =====
-- The cursor of the terminal stays on a line of the terminal.
use vardar_os.Interrupts.Keyboard.Shift.{AllChars, isr1_run_lem}
use native.Mathlib.Nat.{add-mod_right, mod-eq_of_lt}
use vardar_os.Prelude.{
  Bool-cases, List, Option, Option-cases, [], ap, arith, inl, inr, ltb, none, refl, some, sym, u16,
  ℕ, ◌%◌, ◌*◌, ◌++◌, ◌+◌, ◌-◌, ◌<◌, ◌==◌, ◌^◌, ◌||◌, ◌∙◌, ◌∷◌, ◌≡◌, ◌≢◌, ◌≤◌,
}
use vardar_os.Graphics.Terminal.{
  DrawCall, Terminal, advance, handle_keystroke, init_terminal, remove_char, render, term_new_line,
  term_print,
}
use vardar_os.Interrupts.Keyboard.{KeyInfo, char_from_scancode, isr1_run}
use vardar_os.Graphics.{Coordinate, Dimensions, Font, Rgb}
use mathlib.Core.Option

-- The cursor is at the start of a line of `h` pixels, and that line ends within `height`.
abbrev pub IsOnLine : ℕ → ℕ → Terminal → Type 0
IsOnLine h height t =
    (t.font.font_height ≡ h)
    × (t.dims.height ≡ height)
    × (t.cursor.y % h ≡ 0)
    × (t.cursor.y + h ≤ height)

next_line : (y h : ℕ) → y % h ≡ 0 → (y + h) % h ≡ 0
next_line y h line = add-mod_right y h ∙ line

line_above : (y h : ℕ) → 0 < h → y % h ≡ 0 → y ≢ 0 → (h ≤ y) × ((y - h) % h ≡ 0)
line_above y h pos line ne =
    let below : h ≤ y = elim (Bool-cases (ltb y h)) [
      | inl lt ↦ absurd (ne (sym (mod-eq_of_lt (ground (arith, lt))) ∙ line))
      | inr ge ↦ ground (arith, ge)
    ] in
    (below, sym (add-mod_right (y - h) h) ∙ ap (λ (t : ℕ). t % h) (omega (arith, below)) ∙ line)

-- The keystrokes one after the other.
unfoldable pub keystrokes : Terminal → List KeyInfo → Option (Terminal × List DrawCall)
keystrokes t [] = some (t, [])
keystrokes t (k ∷ ks) =
    Option.bind (handle_keystroke t k)
      (λ (t1, calls). Option.map (λ (t2, rest). (t2, calls ++ rest)) (keystrokes t1 ks))

module _ (h height : ℕ) (pos : 0 < h) (small : height < 2 ^ 16) where
  term_new_line-IsOnLine :
      (t : Terminal) → IsOnLine h height t → IsOnLine h height (term_new_line t).0
  unfolding term_new_line
  term_new_line-IsOnLine t (font, dims, line, fits) =
      let next = next_line t.cursor.y h line in
      elim (Bool-cases (ltb t.dims.height (t.cursor.y + t.font.font_height * 2))) [
        | inl full ↦ rw full (font, dims, line, fits)
        | inr room ↦
            let below : t.cursor.y + h * 2 ≤ height = ground (arith, room, font, dims) in
            let at : u16 (t.cursor.y + t.font.font_height) ≡ t.cursor.y + h =
              omega (arith, below, small, font) in
            rw (room, at) (font, dims, next, omega (arith, below))
      ]

  advance-IsOnLine :
      (t : Terminal) (c : ℕ) → IsOnLine h height t → IsOnLine h height (advance t c).0
  unfolding advance
  advance-IsOnLine t c on =
      elim (Bool-cases (c == 10 || ltb t.dims.width (t.cursor.x + t.border_thickness * 6))) [
        | inl new_line ↦ rw new_line (term_new_line-IsOnLine t on)
        | inr same_line ↦ rw same_line on
      ]

  term_print-IsOnLine :
      (str : List ℕ) (t : Terminal) → IsOnLine h height t → IsOnLine h height (term_print t str).0
  unfolding term_print
  term_print-IsOnLine [] t on = on
  term_print-IsOnLine (c ∷ str) t on =
      term_print-IsOnLine str (advance t c).0 (advance-IsOnLine t c on)

  remove_char-IsOnLine : (t : Terminal) → IsOnLine h height t → IsOnLine h height (remove_char t).0
  unfolding remove_char
  remove_char-IsOnLine t (font, dims, line, fits) = elim (Bool-cases (t.cursor.x == 0)) [
    | inl left ↦ elim (Bool-cases (t.cursor.y == 0)) [
      | inl top ↦ rw (left, top) (font, dims, line, fits)
      | inr lower ↦
          let (below, above) = line_above t.cursor.y h pos line (ground (arith, lower)) in
          let at : u16 (t.cursor.y + 2 ^ 16 - t.font.font_height) ≡ t.cursor.y - h =
            omega (arith, below, fits, small, font) in
          rw (left, lower, at) (font, dims, above, omega (arith, fits))
    ]
    | inr inside ↦ rw inside (font, dims, line, fits)
  ]

  handle_keystroke-IsOnLine :
      (t : Terminal) (k : KeyInfo)
      → IsOnLine h height t
      → char_from_scancode k ≢ none
      → (r : Terminal × List DrawCall) × (handle_keystroke t k ≡ some r) × IsOnLine h height r.0
  unfolding handle_keystroke
  handle_keystroke-IsOnLine t k on has = elim (Option-cases (char_from_scancode k)) [
    | inl outside ↦ absurd (has outside)
    | inr (c, at) ↦
        let entered = term_new_line-IsOnLine t on in
        elim (Bool-cases k.backspace) [
          | inl back ↦ rw (at, back) (_, refl, remove_char-IsOnLine t on)
          | inr no_back ↦ elim (Bool-cases k.enter) [
            | inl enter ↦
                rw (at, no_back, enter)
                  (
                    _,
                    refl,
                    term_print-IsOnLine (term_new_line t).0.prompt (term_new_line t).0 entered,
                  )
            | inr no_enter ↦ rw (at, no_back, no_enter) (_, refl, term_print-IsOnLine _ t on)
          ]
        ]
  ]

  keystrokes-IsOnLine :
      (t : Terminal) (ks : List KeyInfo)
      → IsOnLine h height t
      → AllChars ks
      → (r : Terminal × List DrawCall) × (keystrokes t ks ≡ some r) × IsOnLine h height r.0
  unfolding keystrokes AllChars Option.bind
  keystrokes-IsOnLine t [] on chars = ((t, []), refl, on)
  keystrokes-IsOnLine t (k ∷ ks) on (has, chars) =
      let ((t1, calls), run, on1) = handle_keystroke-IsOnLine t k on has in
      let ((t2, rest), run_rest, on2) = keystrokes-IsOnLine t1 ks on1 chars in
      ((t2, calls ++ rest), rw (run, run_rest) refl, on2)

-- From `InitTerminal`, of a terminal that has room for a line between its borders, and with the
-- handler of the keyboard handing its keystrokes on: after any sequence of scancodes
-- `HandleKeyStroke` has returned each time, its calls of graphics_ctx.c listed and not run, and the cursor is at the start of a line that ends within
-- the terminal.
pub terminal-IsOnLine :
    (dims : Dimensions) (top_left : Coordinate) (font : Font) (bg border : Rgb) (thickness : ℕ)
    (prompt : List ℕ) (k : KeyInfo) (codes : List ℕ)
    → 0 < font.font_height
    → font.font_height + thickness * 2 ≤ dims.height
    → dims.height < 2 ^ 16
    → (r : Terminal × List DrawCall) × (keystrokes
          (init_terminal dims top_left font bg border thickness prompt).0
          (isr1_run k codes).1
        ≡ some r)
      × IsOnLine font.font_height (dims.height - thickness * 2) r.0
unfolding init_terminal render
terminal-IsOnLine dims top_left font bg border thickness prompt k codes pos room small =
    let height = dims.height - thickness * 2 in
    let inner : u16 (dims.height + 2 ^ 16 - thickness * 2) ≡ height = omega (arith, room, small) in
    let lt : height < 2 ^ 16 = omega (arith, small) in
    keystrokes-IsOnLine font.font_height height pos lt
      (init_terminal dims top_left font bg border thickness prompt).0 (isr1_run k codes).1
      (term_print-IsOnLine font.font_height height pos lt prompt _
        (refl, inner, omega arith, omega (arith, room)))
      (isr1_run_lem k codes).1
