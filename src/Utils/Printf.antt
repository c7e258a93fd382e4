-- ===== src/Utils/Printf.antt =====
-- src/kernel/utils/printf.c. The strings lie in the byte memory, and `term_write`, which the boot
-- loader gives, is the list of the characters that it was called with.
pub mod Convert
pub mod Format
pub mod Render
use mathlib.Core.Option
use vardar_os.Prelude.{
  Bool, List, Option, [], false, get_or, if◌then◌else◌, none, some, suc, u8, zero, ℕ, ◌%◌, ◌++◌,
  ◌+◌, ◌-◌, ◌/◌, ◌==◌, ◌∷◌,
}
use vardar_os.Memory.{Memory, write8}

-- The characters of "0123456789ABCDEF".
abbrev pub hex_digits : List ℕ
hex_digits = 48 ∷ 49 ∷ 50 ∷ 51 ∷ 52 ∷ 53 ∷ 54 ∷ 55 ∷ 56 ∷ 57 ∷ 65 ∷ 66 ∷ 67 ∷ 68 ∷ 69 ∷ 70 ∷ []

-- The loop of `Convert`: the pointer to the first digit, and the memory.
unfoldable pub convert_loop : ℕ → Memory → ℕ → ℕ → ℕ → Option (ℕ × Memory)
unfolding write8
convert_loop zero m ptr num base = none
convert_loop (suc fuel) m ptr num base =
    let m1 = write8 m (ptr - 1) (get_or hex_digits (num % base) 0) in
    let rest = convert_loop fuel m1 (ptr - 1) (num / base) base in
    if num / base == 0 then some (ptr - 1, m1) else rest

-- `buffer` is the address of the static array of 32 characters. A number below 2 ^ 64 has at most 64
-- digits.
unfoldable pub convert : Memory → ℕ → ℕ → ℕ → Option (ℕ × Memory)
unfolding convert_loop write8
convert m buffer num base = convert_loop 64 (write8 m (buffer + 31) 0) (buffer + 31) num base

-- `Puts`: the characters before the NUL.
unfoldable pub puts : ℕ → Memory → ℕ → Option (List ℕ)
puts zero m c = none
puts (suc fuel) m c =
    let rest = puts fuel m (c + 1) in if m c == 0 then some [] else Option.map (λ s. m c ∷ s) rest

-- A call of `PrintK` on its way: the memory, the number of arguments taken, and the characters
-- written. What stands at the `i`-th place of the arguments is `args i`.
pub record Printer : Type 0 where
  pub memory : Memory
  pub next : ℕ
  pub out : List ℕ

unfoldable pub put_char : Printer → ℕ → Printer
put_char p c = record { memory = p.memory; next = p.next; out = p.out ++ c ∷ [] }

unfoldable pub put_number : ℕ → ℕ → ℕ → ℕ → Printer → Option Printer
put_number fuel buffer i base p = Option.bind (convert p.memory buffer i base) (λ (ptr, m).
    Option.map (λ s. record { memory = m; next = p.next + 1; out = p.out ++ s }) (puts fuel m ptr))

-- The cases of `data_type`: c, d, o, h and s. The test `i < 0` in the case of d is on an unsigned
-- number.
unfoldable pub put_arg : ℕ → ℕ → (ℕ → ℕ) → ℕ → Printer → Option Printer
put_arg fuel buffer args data_type p =
    let i = args p.next in
    if data_type == 99
    then some (record { memory = p.memory; next = p.next + 1; out = p.out ++ u8 i ∷ [] })
    else if data_type == 100
    then put_number fuel buffer i 10 p
    else if data_type == 111
    then put_number fuel buffer i 8 p
    else if data_type == 104
    then put_number fuel buffer i 16 p
    else if data_type == 115
    then Option.map (λ s. record { memory = p.memory; next = p.next + 1; out = p.out ++ s })
        (puts fuel p.memory i)
    else some p

-- One round of the inner loop of `PrintK`, and of the outer one where the inner one ends: the
-- pointer is then behind the letter. Both loops end at a NUL.
unfoldable pub print_round : ℕ → ℕ → (ℕ → ℕ) → ℕ → Printer → Option (ℕ × Printer)
print_round fuel buffer args traverse p =
    let p1 = put_char p (p.memory traverse) in
    if p.memory (traverse + 1) == 37
    then Option.map (λ q. (traverse + 3, q)) (put_arg fuel buffer args (p.memory (traverse + 2)) p1)
    else some (traverse + 1, p1)

unfoldable pub print_loop : ℕ → ℕ → ℕ → (ℕ → ℕ) → ℕ → Printer → Option Printer
print_loop zero fuel buffer args traverse p = none
print_loop (suc rounds) fuel buffer args traverse p =
    let rest =
      Option.bind (print_round fuel buffer args traverse p)
        (λ (t, q). print_loop rounds fuel buffer args t q) in
    if p.memory traverse == 0 then some p else rest

-- `PrintK`: the flag `IN_USE` afterwards, and the printer. It waits for ever where the flag is set.
unfoldable pub print_k : ℕ → ℕ → Bool → Memory → ℕ → (ℕ → ℕ) → ℕ → Option (Bool × Printer)
print_k rounds fuel in_use m buffer args str =
    if in_use
    then none
    else Option.map (λ p. (false, p))
        (print_loop rounds fuel buffer args str (record { memory = m; next = 0; out = [] }))
