-- ===== src/Memory/Laws.antt =====
-- Reads after writes of words in memory: the same word, a word apart, and the bounds of a word.
use native.Mathlib.Nat.{pow-suc, one-le-pow, div-div-eq-div-mul, div-add-mod, mul_comm}
use vardar_os.Prelude.{
  ap, arith, refl, suc, zero, ℕ, ◌%◌, ◌*◌, ◌+◌, ◌/◌, ◌<◌, ◌^◌, ◌∙◌, ◌≡◌, ◌≤◌, ◌⊎◌,
}
use vardar_os.Memory.{IsBytes, Memory, read32, read64, read_le, write32, write64, write8, write_le}

-- The two ranges of bytes do not meet.
abbrev pub Apart : (a n b k : ℕ) → Type 0
Apart a n b k = (a + n ≤ b) ⊎ (b + k ≤ a)

-- The two memories agree on `n` bytes from `a`.
abbrev pub SameOn : ℕ → ℕ → Memory → Memory → Type 0
SameOn a n m m' = (b : ℕ) → a ≤ b → b < a + n → m' b ≡ m b

pub write8-IsBytes : (m : Memory) (a v : ℕ) → IsBytes m → IsBytes (write8 m a v)
unfolding write8
write8-IsBytes m a v h b = ground (arith, h b)

pub write_le-IsBytes : (n : ℕ) (m : Memory) (a v : ℕ) → IsBytes m → IsBytes (write_le n m a v)
unfolding write_le
write_le-IsBytes zero m a v h = h
write_le-IsBytes (suc n) m a v h =
    write8-IsBytes (write_le n m (a + 1) (v / 256)) a v (write_le-IsBytes n m (a + 1) (v / 256) h)

pub write_le_outside :
    (n : ℕ) (m : Memory) (a v b : ℕ) → (b < a) ⊎ (a + n ≤ b) → write_le n m a v b ≡ m b
unfolding write_le write8
write_le_outside zero m a v b h = refl
write_le_outside (suc n) m a v b h = ground (arith, write_le_outside n m (a + 1) (v / 256) b)

pub read_le_cong :
    (n : ℕ) (m m' : Memory) (a : ℕ) → SameOn a n m m' → read_le n m' a ≡ read_le n m a
unfolding read_le
read_le_cong zero m m' a h = refl
read_le_cong (suc n) m m' a h = omega (
  arith,
  h a (omega arith) (omega arith),
  read_le_cong n m m' (a + 1) (λ b p q. h b (omega arith) (omega arith)),
)

pub read_le-lt : (n : ℕ) (m : Memory) (a : ℕ) → IsBytes m → read_le n m a < 256 ^ n
unfolding read_le
read_le-lt zero m a h = omega arith
read_le-lt (suc n) m a h = omega (arith, pow-suc 256 n, h a, read_le-lt n m (a + 1) h)

mod_base-suc : (v p : ℕ) → 0 < p → v % 256 + 256 * (v / 256 % p) ≡ v % (256 * p)
mod_base-suc v p h = omega (
  arith,
  div-add-mod v (256 * p),
  div-add-mod (v / 256) p,
  ap (λ (t : ℕ). 256 * p * t) (div-div-eq-div-mul v 256 p),
)

pow-suc' : (n v : ℕ) → v % 256 ^ suc n ≡ v % (256 * 256 ^ n)
pow-suc' n v = ap (λ (t : ℕ). v % t) (pow-suc 256 n ∙ mul_comm (256 ^ n) 256)

write8_self : (m : Memory) (a v : ℕ) → write8 m a v a ≡ v % 256
unfolding write8
write8_self m a v = ground arith

write8_outside : (m : Memory) (a v n : ℕ) → SameOn (a + 1) n m (write8 m a v)
unfolding write8
write8_outside m a v n b p q = ground arith

read_le-write_le : (n : ℕ) (m : Memory) (a v : ℕ) → read_le n (write_le n m a v) a ≡ v % 256 ^ n
unfolding read_le write_le
read_le-write_le zero m a v = omega arith
read_le-write_le (suc n) m a v = omega (
  arith,
  read_le_cong n (write_le n m (a + 1) (v / 256)) (write_le (suc n) m a v) (a + 1)
      (write8_outside (write_le n m (a + 1) (v / 256)) a v n),
  write8_self (write_le n m (a + 1) (v / 256)) a v,
  read_le-write_le n m (a + 1) (v / 256),
  mod_base-suc v (256 ^ n) (one-le-pow n 256 (omega arith)),
  pow-suc' n v,
)

pub read_le-write_le-Apart :
    (n k : ℕ) (m : Memory) (a b v : ℕ)
    → Apart a n b k
    → read_le k (write_le n m a v) b ≡ read_le k m b
read_le-write_le-Apart n k m a b v h =
    read_le_cong k m (write_le n m a v) b (λ c p q. write_le_outside n m a v c (ground arith))

-- The three laws at the widths that the kernel uses.
pub read32-write32 : (m : Memory) (a v : ℕ) → v < 2 ^ 32 → read32 (write32 m a v) a ≡ v
unfolding read32 write32
read32-write32 m a v h = omega (arith, read_le-write_le 4 m a v)

pub read32-write32-Apart :
    (m : Memory) (a b v : ℕ) → Apart a 4 b 4 → read32 (write32 m a v) b ≡ read32 m b
unfolding read32 write32
read32-write32-Apart m a b v h = read_le-write_le-Apart 4 4 m a b v h

pub read32-lt : (m : Memory) (a : ℕ) → IsBytes m → read32 m a < 2 ^ 32
unfolding read32
read32-lt m a h = read_le-lt 4 m a h

pub write32-IsBytes : (m : Memory) (a v : ℕ) → IsBytes m → IsBytes (write32 m a v)
unfolding write32
write32-IsBytes m a v h = write_le-IsBytes 4 m a v h

pub read64-write64 : (m : Memory) (a v : ℕ) → v < 2 ^ 64 → read64 (write64 m a v) a ≡ v
unfolding read64 write64
read64-write64 m a v h = omega (arith, read_le-write_le 8 m a v)

pub read64-write64-Apart :
    (m : Memory) (a b v : ℕ) → Apart a 8 b 8 → read64 (write64 m a v) b ≡ read64 m b
unfolding read64 write64
read64-write64-Apart m a b v h = read_le-write_le-Apart 8 8 m a b v h

pub read64_cong : (m m' : Memory) (a : ℕ) → SameOn a 8 m m' → read64 m' a ≡ read64 m a
unfolding read64
read64_cong m m' a h = read_le_cong 8 m m' a h

pub write64_outside : (m : Memory) (a v b : ℕ) → (b < a) ⊎ (a + 8 ≤ b) → write64 m a v b ≡ m b
unfolding write64
write64_outside m a v b h = write_le_outside 8 m a v b h

pub read64-lt : (m : Memory) (a : ℕ) → IsBytes m → read64 m a < 2 ^ 64
unfolding read64
read64-lt m a h = read_le-lt 8 m a h

pub write64-IsBytes : (m : Memory) (a v : ℕ) → IsBytes m → IsBytes (write64 m a v)
unfolding write64
write64-IsBytes m a v h = write_le-IsBytes 8 m a v h

read_le_zero :
    (n : ℕ) (m : Memory) (a : ℕ) → ((b : ℕ) → a ≤ b → b < a + n → m b ≡ 0) → read_le n m a ≡ 0
unfolding read_le
read_le_zero zero m a h = refl
read_le_zero (suc n) m a h = omega (
  arith,
  h a (omega arith) (omega arith),
  read_le_zero n m (a + 1) (λ b p q. h b (omega arith) (omega arith)),
)

-- A word of zero bytes is 0.
pub read64_zero : (m : Memory) (a : ℕ) → ((b : ℕ) → a ≤ b → b < a + 8 → m b ≡ 0) → read64 m a ≡ 0
unfolding read64
read64_zero m a h = read_le_zero 8 m a h

pub read32_cong : (m m' : Memory) (a : ℕ) → SameOn a 4 m m' → read32 m' a ≡ read32 m a
unfolding read32
read32_cong m m' a h = read_le_cong 4 m m' a h

pub write32_outside : (m : Memory) (a v b : ℕ) → (b < a) ⊎ (a + 4 ≤ b) → write32 m a v b ≡ m b
unfolding write32
write32_outside m a v b h = write_le_outside 4 m a v b h
