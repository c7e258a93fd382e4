-- ===== src/Tests/Screens.antt =====
-- A pixel, a format string, a terminal and the cores at a lock.
use vardar_os.Prelude.{
  none, inl, List, [], arith, false, if◌then◌else◌, inl, length, refl, some, ℕ, ◌*◌, ◌+◌, ◌<◌, ◌==◌,
  ◌^◌, ◌∷◌, ◌≡◌, ◌≤◌, ◌⊎◌,
}
use vardar_os.Memory.{Memory}
use vardar_os.Utils.SpinLock.{
  test_lock, Cores, Pc, Reach, at_start, call_wait, move_core, wait_round, wait_set,
}
use vardar_os.Utils.SpinLock.Overlap.{wait-overlap}
use vardar_os.Utils.SpinLock.Calm.{Calm, set_behind, wait_alone, Calm-IsExclusive, IsExclusive}
use vardar_os.Utils.Printf.{Printer, convert, print_k}
use vardar_os.Utils.Printf.Convert.{IsDigits, convert-value, value}
use vardar_os.Utils.Printf.Format.{Directive, IsFormat, Item, Renders, format_chars}
use vardar_os.Utils.Printf.Render.{print_k-Renders}
use vardar_os.Utils.String.Compare.{IsString}
use vardar_os.Graphics.{Font, Framebuffer, Rgb, pack_rgb}
use vardar_os.Graphics.Color.{IsEightBit, pack_rgb-fields, pack_rgb-undefined}
use vardar_os.Graphics.Terminal.{DrawCall, Terminal, init_terminal}
use vardar_os.Graphics.Terminal.Cursor.{IsOnLine, keystrokes, terminal-IsOnLine}
use vardar_os.Interrupts.Keyboard.{KeyInfo, isr1_run}

wait-overlap_example : (t : Cores) × Reach t × ((j : ℕ) → j < 2 → t.pc j ≡ Pc.holding)
wait-overlap_example = wait-overlap 2

abbrev one_caller : Cores
one_caller = wait_alone (call_wait at_start 0) 0

one_core : Calm one_caller
unfolding call_wait move_core
one_core = Calm.waits (call_wait at_start 0) 0 (Calm.calls at_start 0 Calm.start refl) refl

-- Another core calls `wait`, and stays in its loop.
abbrev two_callers : Cores
two_callers = wait_alone (call_wait one_caller 1) 1

two_cores : Calm two_callers
unfolding call_wait wait_alone set_behind wait_round wait_set move_core test_lock
two_cores = Calm.waits (call_wait one_caller 1) 1 (Calm.calls one_caller 1 one_core refl) refl

Calm-IsExclusive_example : IsExclusive two_callers
Calm-IsExclusive_example = Calm-IsExclusive two_callers two_cores

convert-value_example :
    (p : ℕ) × (k : Memory) × (s : List ℕ) × (convert (λ a. 7) 2000 1234 10 ≡ some (p, k))
    × IsString k p s
    × IsDigits 10 s
    × (value 10 s ≡ 1234)
    × (2000 + 9 ≤ p)
    × (p + length s ≡ 2000 + 31)
    × ((x : ℕ) → (x < 2000) ⊎ (2000 + 32 ≤ x) → k x ≡ 7)
convert-value_example =
    convert-value (λ a. 7) 2000 1234 10 (omega arith) (omega arith) (omega arith)

-- "a%d".
abbrev message : Memory
message a = if a == 1000 then 97 else if a == 1001 then 37 else if a == 1002 then 100 else 0

abbrev items : List Item
items = (97, some Directive.decimal) ∷ []

message-IsString : IsString message 1000 (format_chars items)
unfolding format_chars
message-IsString = (
  refl,
  (λ e. omega (arith, e)),
  (refl, (λ e. omega (arith, e)), (refl, (λ e. omega (arith, e)), refl)),
)

items-IsFormat : IsFormat items
unfolding IsFormat
items-IsFormat = ((λ e. omega (arith, e)), tt)

message_apart : (1000 + (length (format_chars items) + 1) ≤ 2000) ⊎ (2000 + 32 ≤ 1000)
unfolding format_chars
message_apart = inl (omega arith)

print_k-Renders_example :
    (q : Printer) × (print_k 2 32 false message 2000 (λ i. 42) 1000 ≡ some (false, q))
    × Renders (λ i. 42) 0 items q.out
    × ((x : ℕ) → (x < 2000) ⊎ (2000 + 32 ≤ x) → q.memory x ≡ message x)
print_k-Renders_example =
    print_k-Renders items 2 32 message 2000 (λ i. 42) 1000 message-IsString items-IsFormat
      message_apart (omega arith) (omega arith) (λ i. omega arith)

abbrev teal : Rgb
teal = record { r = 15; g = 90; b = 94 }

abbrev wide : Framebuffer
wide = record {
  framebuffer_addr = 0xE0000000;
  framebuffer_width = 1920;
  framebuffer_height = 1080;
  framebuffer_pitch = 7680;
  framebuffer_bpp = 32;
  red_mask_size = 8;
  red_mask_shift = 16;
  green_mask_size = 8;
  green_mask_shift = 8;
  blue_mask_size = 8;
  blue_mask_shift = 0;
}

wide-IsEightBit : IsEightBit wide
wide-IsEightBit = record {
  red = refl;
  green = refl;
  blue = refl;
  red_at = omega arith;
  green_at = omega arith;
  blue_at = omega arith;
}

pack_rgb-fields_example : pack_rgb teal wide ≡ some (15 * 2 ^ 16 + 90 * 2 ^ 8 + 94 * 2 ^ 0)
pack_rgb-fields_example =
    pack_rgb-fields teal wide refl wide-IsEightBit (omega arith) (omega arith) (omega arith)
      (omega arith) (omega arith) (omega arith)

-- A frame buffer of 10 bits for each colour.
abbrev deep_colour : Framebuffer
deep_colour = record wide { red_mask_size = 10; green_mask_size = 10; blue_mask_size = 10 }

pack_rgb-undefined_example : pack_rgb teal deep_colour ≡ none
pack_rgb-undefined_example =
    pack_rgb-undefined teal deep_colour refl (omega arith) (omega arith) (omega arith)
      (inl (omega arith))

abbrev plain_font : Font
plain_font = record { matrix = λ c j. 0; rgb = teal; font_height = 16; font_width = 9 }

abbrev idle : KeyInfo
idle = record { shift = false; backspace = false; ctrl = false; enter = false; scancode = 0 }

terminal-IsOnLine_example :
    (r : Terminal × List DrawCall) × (keystrokes
        (init_terminal
          (record { width = 100; height = 50 })
          (record { x = 0; y = 0 })
          plain_font
          teal
          teal
          3
          (36 ∷ [])).0
        (isr1_run idle (0x1F ∷ 0x1C ∷ 0x0E ∷ [])).1
      ≡ some r)
    × IsOnLine 16 44 r.0
terminal-IsOnLine_example =
    terminal-IsOnLine (record { width = 100; height = 50 }) (record { x = 0; y = 0 }) plain_font
      teal teal 3 (36 ∷ []) idle (0x1F ∷ 0x1C ∷ 0x0E ∷ []) (omega arith) (omega arith) (omega arith)
