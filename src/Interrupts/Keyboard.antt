-- ===== src/Interrupts/Keyboard.antt =====
-- `Isr1Handler` of src/kernel/interrupts/idt.c and keycodes.c: the state of the keyboard, by scancode
-- set 1, and what the consumer of keystrokes is told. The end of interrupt that it writes is
-- `end_of_interrupt` of Lapic.
pub mod Shift
use vardar_os.Prelude.{
  Bool, List, Option, [], false, get_or, if_null, if◌then◌else◌, ltb, none, some, true, ℕ, ◌==◌,
  ◌||◌, ◌∷◌,
}

-- `KeyInfo`.
pub record KeyInfo : Type 0 where
  pub shift : Bool
  pub backspace : Bool
  pub ctrl : Bool
  pub enter : Bool
  pub scancode : ℕ

-- The tables of 128 characters; the entries after these are 0.
unfoldable pub lowercase_chars_by_scancode : List ℕ
lowercase_chars_by_scancode =
    0 ∷ 0 ∷ 49 ∷ 50 ∷ 51 ∷ 52 ∷ 53 ∷ 54 ∷ 55 ∷ 56 ∷ 57 ∷ 48 ∷ 45 ∷ 61 ∷ 0 ∷ 0 ∷ 113 ∷ 119 ∷ 101
    ∷ 114 ∷ 116 ∷ 121 ∷ 117 ∷ 105 ∷ 111 ∷ 112 ∷ 91 ∷ 93 ∷ 0 ∷ 0 ∷ 97 ∷ 115 ∷ 100 ∷ 102 ∷ 103 ∷ 104
    ∷ 106 ∷ 107 ∷ 108 ∷ 59 ∷ 39 ∷ 96 ∷ 0 ∷ 92 ∷ 122 ∷ 120 ∷ 99 ∷ 118 ∷ 98 ∷ 110 ∷ 109 ∷ 44 ∷ 46 ∷ 47
    ∷ 0 ∷ 0 ∷ 0 ∷ 32 ∷ 0 ∷ []

unfoldable pub uppercase_chars_by_scancode : List ℕ
uppercase_chars_by_scancode =
    0 ∷ 0 ∷ 33 ∷ 64 ∷ 35 ∷ 36 ∷ 37 ∷ 94 ∷ 38 ∷ 42 ∷ 40 ∷ 41 ∷ 95 ∷ 43 ∷ 0 ∷ 0 ∷ 81 ∷ 87 ∷ 69 ∷ 82
    ∷ 84 ∷ 89 ∷ 85 ∷ 73 ∷ 79 ∷ 80 ∷ 123 ∷ 125 ∷ 0 ∷ 0 ∷ 65 ∷ 83 ∷ 68 ∷ 70 ∷ 71 ∷ 72 ∷ 74 ∷ 75 ∷ 76
    ∷ 58 ∷ 34 ∷ 126 ∷ 0 ∷ 124 ∷ 90 ∷ 88 ∷ 67 ∷ 86 ∷ 66 ∷ 78 ∷ 77 ∷ 60 ∷ 62 ∷ 63 ∷ 0 ∷ 0 ∷ 0 ∷ 32 ∷ 0
    ∷ []

-- `none`: the scancode is not an index of the tables.
unfoldable pub char_from_scancode : KeyInfo → Option ℕ
char_from_scancode k =
    let chars = if k.shift then uppercase_chars_by_scancode else lowercase_chars_by_scancode in
    if ltb k.scancode 128 then some (get_or chars k.scancode 0) else none

-- The switch on the scancode. On the release of a shift key the stored scancode becomes 0.
unfoldable pub key_event : KeyInfo → ℕ → KeyInfo
key_event before code =
    let k = record before { scancode = code } in
    if code == 0x0E
    then record k { backspace = true }
    else if code == 0x8E
    then record k { backspace = false }
    else if code == 0x1C
    then record k { enter = true }
    else if code == 0x9C
    then record k { enter = false }
    else if code == 0x2A || code == 0x36
    then record k { shift = true }
    else if code == 0xAA || code == 0xB6
    then record k { shift = false; scancode = 0 }
    else if code == 0x1E
    then record k { ctrl = true }
    else if code == 0x9E
    then record k { ctrl = false }
    else k

-- The handler, on the byte that port 0x60 gives: the new state, and what the consumer is called
-- with, if it is.
unfoldable pub isr1_handler : KeyInfo → ℕ → KeyInfo × Option KeyInfo
isr1_handler before code =
    let k = key_event before code in (k, if ltb k.scancode 0x80 then some k else none)

-- A run of the handler on a sequence of scancodes: the last state and the keystrokes consumed.
unfoldable pub isr1_run : KeyInfo → List ℕ → KeyInfo × List KeyInfo
isr1_run k [] = (k, [])
isr1_run k (code ∷ codes) =
    let (k1, consumed) = isr1_handler k code in
    let (k2, rest) = isr1_run k1 codes in (k2, if_null rest (λ c. c ∷ rest) consumed)
