-- ===== src/Utils/Printf/Render.antt =====
-- `PrintK` against the reading of its format string.
use mathlib.Core.Option
use mathlib.Core.List.{append-nil, append_assoc}
use mathlib.Core.Path.{subst}
use vardar_os.Prelude.{
  List, [], ap, arith, false, length, none, refl, some, suc, sym, u8, zero, ℕ, ◌++◌, ◌+◌, ◌<◌, ◌^◌,
  ◌∙◌, ◌∷◌, ◌≡◌, ◌≢◌, ◌≤◌, ◌⊎◌,
}
use vardar_os.Memory.{Memory}
use vardar_os.Memory.Laws.{Apart}
use vardar_os.Utils.String.Compare.{IsString, IsString-cong}
use vardar_os.Utils.Printf.{
  Printer, print_k, print_loop, print_round, put_arg, put_char, put_number, puts,
}
use vardar_os.Utils.Printf.Convert.{IsDigits, convert-value, value}
use vardar_os.Utils.Printf.Format.{
  Directive, IsFormat, Item, NoPercent, Renders, Shows, character, decimal, format_chars,
  hexadecimal, letter, octal,
}

puts_lem :
    (s : List ℕ) (fuel : ℕ) (m : Memory) (a : ℕ)
    → IsString m a s
    → length s < fuel
    → puts fuel m a ≡ some s
unfolding puts
puts_lem s zero m a str lt = absurd (omega (arith, lt))
puts_lem [] (suc fuel) m a str lt = ground (arith, str)
puts_lem (c ∷ s) (suc fuel) m a (at, ne, str) lt =
    ground (arith, at, ne, puts_lem s fuel m (a + 1) str (omega (arith, lt)))

-- What printing one argument leaves.
IsShown : ℕ → Directive → ℕ → Printer → Printer → Type 0
IsShown buffer d arg p q =
    (s : List ℕ) × (q.out ≡ p.out ++ s)
    × Shows d arg s
    × (q.next ≡ p.next + 1)
    × ((x : ℕ) → (x < buffer) ⊎ (buffer + 32 ≤ x) → q.memory x ≡ p.memory x)

put_number_lem :
    (fuel buffer base : ℕ) (arg : ℕ) (p : Printer)
    → 32 ≤ fuel
    → 8 ≤ base
    → base ≤ 16
    → arg < 2 ^ 64
    → (q : Printer) × (s : List ℕ) × (put_number fuel buffer arg base p ≡ some q)
      × (q.out ≡ p.out ++ s)
      × IsDigits base s
      × (value base s ≡ arg)
      × (q.next ≡ p.next + 1)
      × ((x : ℕ) → (x < buffer) ⊎ (buffer + 32 ≤ x) → q.memory x ≡ p.memory x)
unfolding put_number Option.bind
put_number_lem fuel buffer base arg p enough big small lt =
    let (ptr, k, s, run, str, digits, val, low, len, same) =
      convert-value p.memory buffer arg base big small lt in
    let written = puts_lem s fuel k ptr str (omega (arith, low, len, enough)) in
    (
      record { memory = k; next = p.next + 1; out = p.out ++ s },
      s,
      rw (run, written) refl,
      refl,
      digits,
      val,
      refl,
      same,
    )

put_arg_lem :
    (fuel buffer : ℕ) (args : ℕ → ℕ) (d : Directive) (p : Printer)
    → 32 ≤ fuel
    → args p.next < 2 ^ 64
    → (q : Printer) × (put_arg fuel buffer args (letter d) p ≡ some q)
      × IsShown buffer d (args p.next) p q
unfolding put_arg IsShown Shows
put_arg_lem fuel buffer args character p enough lt = (
  record { memory = p.memory; next = p.next + 1; out = p.out ++ u8 (args p.next) ∷ [] },
  refl,
  (u8 (args p.next) ∷ [], refl, refl, refl, λ x out. refl),
)
put_arg_lem fuel buffer args decimal p enough lt =
    let (q, s, run, out, digits, val, next, same) =
      put_number_lem fuel buffer 10 (args p.next) p enough (omega arith) (omega arith) lt in
    (q, run, (s, out, (digits, val), next, same))
put_arg_lem fuel buffer args octal p enough lt =
    let (q, s, run, out, digits, val, next, same) =
      put_number_lem fuel buffer 8 (args p.next) p enough (omega arith) (omega arith) lt in
    (q, run, (s, out, (digits, val), next, same))
put_arg_lem fuel buffer args hexadecimal p enough lt =
    let (q, s, run, out, digits, val, next, same) =
      put_number_lem fuel buffer 16 (args p.next) p enough (omega arith) (omega arith) lt in
    (q, run, (s, out, (digits, val), next, same))

print_loop_plain :
    (rounds fuel buffer : ℕ) (args : ℕ → ℕ) (t : ℕ) (p : Printer)
    → p.memory t ≢ 0
    → p.memory (t + 1) ≢ 37
    → print_loop (suc rounds) fuel buffer args t p
      ≡ print_loop rounds fuel buffer args (t + 1) (put_char p (p.memory t))
unfolding print_loop print_round Option.bind
print_loop_plain rounds fuel buffer args t p some_char plain = ground (arith, some_char, plain)

print_loop_arg :
    (rounds fuel buffer : ℕ) (args : ℕ → ℕ) (t : ℕ) (p q : Printer)
    → p.memory t ≢ 0
    → p.memory (t + 1) ≡ 37
    → put_arg fuel buffer args (p.memory (t + 2)) (put_char p (p.memory t)) ≡ some q
    → print_loop (suc rounds) fuel buffer args t p ≡ print_loop rounds fuel buffer args (t + 3) q
unfolding print_loop print_round Option.bind
print_loop_arg rounds fuel buffer args t p q some_char percent run =
    ground (arith, some_char, percent, run)

print_loop_end :
    (rounds fuel buffer : ℕ) (args : ℕ → ℕ) (t : ℕ) (p : Printer)
    → p.memory t ≡ 0
    → print_loop (suc rounds) fuel buffer args t p ≡ some p
unfolding print_loop
print_loop_end rounds fuel buffer args t p nul = rw nul refl

-- What the loop leaves, with `o` written.
IsPrinted : ℕ → (ℕ → ℕ) → List Item → Printer → Printer → Type 0
IsPrinted buffer args items p q =
    (o : List ℕ) × (q.out ≡ p.out ++ o)
    × Renders args p.next items o
    × ((x : ℕ) → (x < buffer) ⊎ (buffer + 32 ≤ x) → q.memory x ≡ p.memory x)

next_plain :
    (m : Memory) (t : ℕ) (items : List Item)
    → IsString m t (format_chars items)
    → NoPercent items
    → m t ≢ 37
unfolding format_chars NoPercent
next_plain m t [] str plain = λ e. omega (arith, str, e)
next_plain m t ((c, none) ∷ items) (at, ne, str) plain = λ e. plain (sym at ∙ e)
next_plain m t ((c, some d) ∷ items) (at, ne, str) plain = λ e. plain (sym at ∙ e)

append_one :
    (xs : List ℕ) (c d : ℕ) (o ys : List ℕ) → ys ≡ (xs ++ c ∷ []) ++ o → c ≡ d → ys ≡ xs ++ d ∷ o
append_one xs c d o ys e same = e ∙ append_assoc xs (c ∷ []) o ∙ ap (λ t. xs ++ t ∷ o) same

print_loop_lem :
    (items : List Item) (rounds fuel buffer : ℕ) (args : ℕ → ℕ) (t : ℕ) (p : Printer)
    → IsString p.memory t (format_chars items)
    → IsFormat items
    → Apart t (length (format_chars items) + 1) buffer 32
    → length items < rounds
    → 32 ≤ fuel
    → ((i : ℕ) → args i < 2 ^ 64)
    → (q : Printer) × (print_loop rounds fuel buffer args t p ≡ some q)
      × IsPrinted buffer args items p q
unfolding IsPrinted Renders format_chars IsFormat IsShown put_char
print_loop_lem items zero fuel buffer args t p str good apart lt enough words =
    absurd (omega (arith, lt))
print_loop_lem [] (suc rounds) fuel buffer args t p str good apart lt enough words = (
  p,
  print_loop_end rounds fuel buffer args t p str,
  ([], sym (append-nil p.out), refl, (λ x out. refl)),
)
print_loop_lem ((c, none) ∷ items) (suc rounds) fuel buffer args t p (at, ne, str) (nz, plain, good)
      apart lt enough words =
    let p1 = put_char p (p.memory t) in
    let (q, run, (o, out, renders, same)) =
      print_loop_lem items rounds fuel buffer args (t + 1) p1 str good (ground (arith, apart))
        (omega (arith, lt)) enough words in
    let first =
      print_loop_plain rounds fuel buffer args t p (λ e. ne (sym at ∙ e))
        (next_plain p.memory (t + 1) items str plain) in
    (
      q,
      first ∙ run,
      (c ∷ o, append_one p.out (p.memory t) c o q.out out at, (o, refl, renders), same),
    )
print_loop_lem ((c, some d) ∷ items) (suc rounds) fuel buffer args t p
      (at, ne, (percent, ne37, (at_d, ne_d, str))) (nz, good) apart lt enough words =
    let p1 = put_char p (p.memory t) in
    let (p2, shown, (s, out_s, shows, next, same_s)) =
      put_arg_lem fuel buffer args d p1 enough (words p1.next) in
    let at_letter : t + 2 ≡ t + 1 + 1 = omega arith in
    let at_rest : t + 1 + 1 + 1 ≡ t + 3 = omega arith in
    let str2 =
      IsString-cong (format_chars items) p.memory p2.memory (t + 3)
        (subst (λ a. IsString p.memory a (format_chars items)) at_rest str)
        (λ x lo hi. same_s x (ground (arith, apart))) in
    let first =
      print_loop_arg rounds fuel buffer args t p p2 (λ e. ne (sym at ∙ e)) percent
        (ap (λ a. put_arg fuel buffer args a p1) (ap p.memory at_letter ∙ at_d) ∙ shown) in
    let (q, run, (o, out, renders, same)) =
      print_loop_lem items rounds fuel buffer args (t + 3) p2 str2 good (ground (arith, apart))
        (omega (arith, lt)) enough words in
    (
      q,
      first ∙ run,
      (
        c ∷ s ++ o,
        append_one p.out (p.memory t) c (s ++ o) q.out
            (out ∙ ap (λ x. x ++ o) out_s ∙ append_assoc (p.out ++ p.memory t ∷ []) s o) at,
        (s, o, refl, shows, subst (λ i. Renders args i items o) next renders),
        λ x out. same x out ∙ same_s x out,
      ),
    )

-- `PrintK`, where no other call is on its way, on a format string whose `%` are those of directives c,
-- d, o and h or stand at its start or right behind a directive: it returns and leaves `IN_USE` false;
-- it prints each character as it is, and for each directive the digits of the next argument, to base
-- 10, 8 or 16, or its lowest byte as a character; and no byte outside the buffer of `Convert`
-- changes, if the string lies apart from that buffer.
pub print_k-Renders :
    (items : List Item) (rounds fuel : ℕ) (m : Memory) (buffer : ℕ) (args : ℕ → ℕ) (str : ℕ)
    → IsString m str (format_chars items)
    → IsFormat items
    → Apart str (length (format_chars items) + 1) buffer 32
    → length items < rounds
    → 32 ≤ fuel
    → ((i : ℕ) → args i < 2 ^ 64)
    → (q : Printer) × (print_k rounds fuel false m buffer args str ≡ some (false, q))
      × Renders args 0 items q.out
      × ((x : ℕ) → (x < buffer) ⊎ (buffer + 32 ≤ x) → q.memory x ≡ m x)
unfolding print_k IsPrinted
print_k-Renders items rounds fuel m buffer args str string good apart lt enough words =
    let p : Printer = record { memory = m; next = 0; out = [] } in
    let (q, run, (o, out, renders, same)) =
      print_loop_lem items rounds fuel buffer args str p string good apart lt enough words in
    (q, ap (Option.map (λ p. (false, p))) run, subst (Renders args 0 items) (sym out) renders, same)
