-- ===== src/Utils/Printf/Format.antt =====
-- A reading of the format strings of `PrintK`, and what they print.
use vardar_os.Prelude.{List, Option, [], none, some, u8, ℕ, ◌++◌, ◌+◌, ◌∷◌, ◌≡◌, ◌≢◌}
use vardar_os.Utils.Printf.Convert.{IsDigits, value}

pub data Directive : Type 0 where
  character : Directive
  decimal : Directive
  octal : Directive
  hexadecimal : Directive

abbrev pub letter : Directive → ℕ
letter character = 99
letter decimal = 100
letter octal = 111
letter hexadecimal = 104

-- A character that is printed, and the directive behind it, if there is one.
abbrev pub Item : Type 0
Item = ℕ × Option Directive

-- The characters of the format string.
unfoldable pub format_chars : List Item → List ℕ
format_chars [] = []
format_chars ((c, none) ∷ items) = c ∷ format_chars items
format_chars ((c, some d) ∷ items) = c ∷ 37 ∷ letter d ∷ format_chars items

unfoldable pub NoPercent : List Item → Type 0
NoPercent [] = Unit
NoPercent (item ∷ items) = item.0 ≢ 37

-- A `%` is a printed character only at the start of the string and right behind a directive.
unfoldable pub IsFormat : List Item → Type 0
IsFormat [] = Unit
IsFormat ((c, none) ∷ items) = (c ≢ 0) × NoPercent items × IsFormat items
IsFormat ((c, some d) ∷ items) = (c ≢ 0) × IsFormat items

-- What a directive prints for an argument.
unfoldable pub Shows : Directive → ℕ → List ℕ → Type 0
Shows character arg s = s ≡ u8 arg ∷ []
Shows decimal arg s = IsDigits 10 s × (value 10 s ≡ arg)
Shows octal arg s = IsDigits 8 s × (value 8 s ≡ arg)
Shows hexadecimal arg s = IsDigits 16 s × (value 16 s ≡ arg)

-- What the items print, with the arguments from the `i`-th on.
unfoldable pub Renders : (ℕ → ℕ) → ℕ → List Item → List ℕ → Type 0
Renders args i [] out = out ≡ []
Renders args i ((c, none) ∷ items) out =
    (rest : List ℕ) × (out ≡ c ∷ rest) × Renders args i items rest
Renders args i ((c, some d) ∷ items) out =
    (s rest : List ℕ) × (out ≡ c ∷ s ++ rest) × Shows d (args i) s × Renders args (i + 1) items rest
