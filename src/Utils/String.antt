-- ===== src/Utils/String.antt =====
-- src/kernel/utils/string.c over the byte memory. Lengths and addresses are numbers; a run that
-- would carry an address past 2 ^ 64 is outside the model. The loops that end at a NUL take fuel.
pub mod Copy
pub mod Compare
use mathlib.Core.Option
use vardar_os.Prelude.{
  Option, add32, if◌then◌else◌, ltb, map, none, not, some, suc, zero, ℕ, ◌&&◌, ◌+◌, ◌==◌,
}
use vardar_os.Prelude.Int.{pos, sub_ℕ, ℤ}
use vardar_os.Memory.{Memory, write8}

-- The memory after `memset(dest, val, len)`; the pointer that it returns is `dest`.
unfoldable pub memset : Memory → ℕ → ℕ → ℕ → Memory
unfolding write8
memset m dest val zero = m
memset m dest val (suc len) = memset (write8 m dest val) (dest + 1) val len

-- `for (i = 0; i < size; i++) dst[i] = src[i]`, from index `i` with `size - i` rounds left.
unfoldable pub copy_up : Memory → ℕ → ℕ → ℕ → ℕ → Memory
unfolding write8
copy_up m dst src i zero = m
copy_up m dst src i (suc left) = copy_up (write8 m (dst + i) (m (src + i))) dst src (i + 1) left

-- `for (i = size; i != 0; i--) dst[i-1] = src[i-1]`.
unfoldable pub copy_down : Memory → ℕ → ℕ → ℕ → Memory
unfolding write8
copy_down m dst src zero = m
copy_down m dst src (suc i) = copy_down (write8 m (dst + i) (m (src + i))) dst src i

unfoldable pub memmove : Memory → ℕ → ℕ → ℕ → Memory
unfolding copy_up copy_down
memmove m dst src size = if ltb dst src then copy_up m dst src 0 size else copy_down m dst src size

-- The loop of `strncmp`, and the difference that it returns.
unfoldable pub strncmp : Memory → ℕ → ℕ → ℕ → ℤ
strncmp m s1 s2 zero = pos 0
strncmp m s1 s2 (suc n) =
    let rest = strncmp m (s1 + 1) (s2 + 1) n in
    if not (m s1 == 0) && m s1 == m s2 then rest else sub_ℕ (m s1) (m s2)

-- The copying loop of `strcpy`, with the NUL behind it; `none` means that the fuel ran out.
unfoldable pub strcpy_loop : ℕ → Memory → ℕ → ℕ → Option Memory
unfolding write8
strcpy_loop zero m destination source = none
strcpy_loop (suc fuel) m destination source =
    let rest = strcpy_loop fuel (write8 m destination (m source)) (destination + 1) (source + 1) in
    if m source == 0 then some (write8 m destination 0) else rest

-- `NULL` is returned for a `NULL` destination; else the destination as it came in.
unfoldable pub strcpy : ℕ → Memory → ℕ → ℕ → Option (ℕ × Memory)
unfolding strcpy_loop
strcpy fuel m destination source =
    if destination == 0
    then some (0, m)
    else Option.map (λ m'. (destination, m')) (strcpy_loop fuel m destination source)

unfoldable pub strcmp : ℕ → Memory → ℕ → ℕ → Option ℤ
strcmp zero m x y = none
strcmp (suc fuel) m x y =
    let rest = strcmp fuel m (x + 1) (y + 1) in
    if not (m x == 0) && m x == m y then rest else some (sub_ℕ (m x) (m y))

-- `count` is an `unsigned int`.
unfoldable pub strlen_loop : ℕ → Memory → ℕ → ℕ → Option ℕ
strlen_loop zero m s count = none
strlen_loop (suc fuel) m s count =
    let rest = strlen_loop fuel m (s + 1) (add32 count 1) in if m s == 0 then some count else rest

unfoldable pub strlen : ℕ → Memory → ℕ → Option ℕ
unfolding strlen_loop
strlen fuel m s = strlen_loop fuel m s 0
