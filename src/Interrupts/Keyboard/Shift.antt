-- ===== src/Interrupts/Keyboard/Shift.antt =====
-- The keyboard over a sequence of scancodes.
use vardar_os.Prelude.{
  Bool, List, [], ap, arith, false, if_null, if◌then◌else◌, ltb, none, refl, some, true, ℕ, ◌<◌,
  ◌==◌, ◌||◌, ◌∙◌, ◌∷◌, ◌≡◌, ◌≢◌,
}
use vardar_os.Interrupts.Keyboard.{KeyInfo, char_from_scancode, isr1_handler, isr1_run, key_event}

-- Whether a shift key is down by the last event of a shift key in the sequence.
unfoldable pub shift_after : Bool → List ℕ → Bool
shift_after shift [] = shift
shift_after shift (code ∷ codes) =
    let now =
      if code == 0x2A || code == 0x36
      then true
      else if code == 0xAA || code == 0xB6
      then false
      else shift in
    shift_after now codes

-- Every keystroke of a list has a character.
unfoldable pub AllChars : List KeyInfo → Type 0
unfolding char_from_scancode
AllChars [] = Unit
AllChars (k ∷ ks) = (char_from_scancode k ≢ none) × AllChars ks

shift-key_event :
    (k : KeyInfo) (code : ℕ)
    → (key_event k code).shift ≡ (
        if code == 0x2A || code == 0x36
        then true
        else if code == 0xAA || code == 0xB6
        then false
        else k.shift)
unfolding key_event
shift-key_event k code = ground arith

char_from_scancode-in_range : (k : KeyInfo) → k.scancode < 128 → char_from_scancode k ≢ none
unfolding char_from_scancode
char_from_scancode-in_range k lt = ground (arith, lt)

AllChars-consumed :
    (k : KeyInfo) (ks : List KeyInfo)
    → AllChars ks
    → AllChars (if_null ks (λ c. c ∷ ks) (if ltb k.scancode 128 then some k else none))
unfolding AllChars
AllChars-consumed k ks all = ground (arith, all, char_from_scancode-in_range k)

-- After any sequence of scancodes the shift state is that of the last shift key pressed or released,
-- whatever other keys were in between, and each keystroke that the consumer was called with has a
-- scancode within the tables of characters.
pub isr1_run_lem :
    (k : KeyInfo) (codes : List ℕ)
    → ((isr1_run k codes).0.shift ≡ shift_after k.shift codes) × AllChars (isr1_run k codes).1
unfolding isr1_run isr1_handler shift_after AllChars
isr1_run_lem k [] = (refl, tt)
isr1_run_lem k (code ∷ codes) =
    let ih = isr1_run_lem (key_event k code) codes in
    (
      ih.0 ∙ ap (λ shift. shift_after shift codes) (shift-key_event k code),
      AllChars-consumed (key_event k code) (isr1_run (key_event k code) codes).1 ih.1,
    )
