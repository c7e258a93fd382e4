-- ===== src/Tests/Text.antt =====
-- Strings, bytes and bits. "ab" stands at 100.
use vardar_os.Prelude.{List, [], arith, if◌then◌else◌, refl, ℕ, ◌+◌, ◌-◌, ◌==◌, ◌∷◌, ◌≡◌}
use vardar_os.Memory.{IsBytes, Memory}
use vardar_os.Utils.String.{memmove}
use vardar_os.Utils.String.Copy.{in_range, memmove_lem}
use vardar_os.Utils.String.Compare.{IsString}

abbrev text : Memory
text a = if a == 100 then 97 else if a == 101 then 98 else 0

abbrev ab : List ℕ
ab = 97 ∷ 98 ∷ []

text-IsBytes : IsBytes text
text-IsBytes a = ground arith

first_text : IsString text 100 ab
first_text = (refl, (λ e. omega (arith, e)), (refl, (λ e. omega (arith, e)), refl))

memmove_lem_example :
    memmove text 101 100 2 102 ≡ (if in_range 101 2 102 then text (100 + (102 - 101)) else text 102)
memmove_lem_example = memmove_lem text 101 100 2 102 text-IsBytes
