-- ===== src/Utils/String/Compare.antt =====
-- The comparisons and lengths of NUL-terminated strings.
use vardar_os.Prelude.{
  Bool-cases, List, Option, [], add32, arith, inl, inr, length, refl, some, suc, take, zero, ℕ, ◌%◌,
  ◌+◌, ◌<◌, ◌==◌, ◌^◌, ◌↔◌, ◌∷◌, ◌≡◌, ◌≢◌, ◌⊎◌,
}
use vardar_os.Prelude.Int.{pos, sub_ℕ, ℤ}
use vardar_os.Memory.{IsBytes, Memory, write8}
use vardar_os.Memory.Laws.{Apart, SameOn, write8-IsBytes}
use vardar_os.Utils.String.{strcmp, strcpy, strcpy_loop, strlen, strlen_loop, strncmp}

-- A NUL-terminated string with the characters `s` stands at `a`.
abbrev pub IsString : Memory → ℕ → List ℕ → Type 0
IsString m a [] = m a ≡ 0
IsString m a (c ∷ s) = (m a ≡ c) × (c ≢ 0) × IsString m (a + 1) s

strlen_loop-length :
    (s : List ℕ) (fuel : ℕ) (m : Memory) (a count : ℕ)
    → IsString m a s
    → length s < fuel
    → count < 2 ^ 32
    → strlen_loop fuel m a count ≡ some ((count + length s) % 2 ^ 32)
unfolding strlen_loop
strlen_loop-length s zero m a count h f lt = absurd (omega arith)
strlen_loop-length [] (suc fuel) m a count h f lt = ground arith
strlen_loop-length (c ∷ s) (suc fuel) m a count (e, nz, h) f lt =
    ground
      (arith, strlen_loop-length s fuel m (a + 1) (add32 count 1) h (omega arith) (omega arith))

-- On a terminated string, `strlen` returns, and counts its characters in an `unsigned int`.
pub strlen-length :
    (s : List ℕ) (fuel : ℕ) (m : Memory) (a : ℕ)
    → IsString m a s
    → length s < fuel
    → strlen fuel m a ≡ some (length s % 2 ^ 32)
unfolding strlen
strlen-length s fuel m a h f = ground (arith, strlen_loop-length s fuel m a 0 h f)

-- `strcmp` returns on two terminated strings, and returns 0 exactly when they are the same.
pub strcmp-eq :
    (s t : List ℕ) (fuel : ℕ) (m : Memory) (x y : ℕ)
    → IsString m x s
    → IsString m y t
    → length s < fuel
    → (r : ℤ) × (strcmp fuel m x y ≡ some r) × ((r ≡ pos 0) ↔ (s ≡ t))
unfolding strcmp
strcmp-eq s t zero m x y h k f = absurd (omega arith)
strcmp-eq [] [] (suc fuel) m x y h k f = (sub_ℕ (m x) (m y), ground arith, ground arith)
strcmp-eq [] (d ∷ t) (suc fuel) m x y h (e, nz, k) f =
    (sub_ℕ (m x) (m y), ground arith, ground arith)
strcmp-eq (c ∷ s) [] (suc fuel) m x y (e, nz, h) k f =
    (sub_ℕ (m x) (m y), ground arith, ground arith)
strcmp-eq (c ∷ s) (d ∷ t) (suc fuel) m x y (e, nz, h) (e', nz', k) f =
    let (r, run, same) = strcmp-eq s t fuel m (x + 1) (y + 1) h k (omega arith) in
    elim (Bool-cases (c == d)) [
      | inl eq ↦ (r, ground arith, ground arith)
      | inr ne ↦ (sub_ℕ (m x) (m y), ground arith, ground arith)
    ]

-- `strncmp` returns 0 exactly when the strings agree on their first `n` characters.

-- On two terminated strings `strncmp` returns 0 exactly when their first n characters agree.
pub strncmp-eq :
    (n : ℕ) (s t : List ℕ) (m : Memory) (x y : ℕ)
    → IsString m x s
    → IsString m y t
    → (strncmp m x y n ≡ pos 0) ↔ (take n s ≡ take n t)
unfolding strncmp
strncmp-eq zero s t m x y h k = ground arith
strncmp-eq (suc n) [] [] m x y h k = ground arith
strncmp-eq (suc n) [] (d ∷ t) m x y h (e, nz, k) = ground arith
strncmp-eq (suc n) (c ∷ s) [] m x y (e, nz, h) k = ground arith
strncmp-eq (suc n) (c ∷ s) (d ∷ t) m x y (e, nz, h) (e', nz', k) =
    ground (arith, strncmp-eq n s t m (x + 1) (y + 1) h k)

pub IsString-cong :
    (s : List ℕ) (m m' : Memory) (a : ℕ)
    → IsString m a s
    → SameOn a (length s + 1) m m'
    → IsString m' a s
IsString-cong [] m m' a h same = ground (arith, same a)
IsString-cong (c ∷ s) m m' a (e, nz, h) same = (
  ground (arith, same a),
  nz,
  IsString-cong s m m' (a + 1) h (λ b p q. same b (omega arith) (omega arith)),
)

-- What `strcpy` leaves: the string at the destination, and every byte outside it as it was.
pub record IsCopied (m : Memory) (d : ℕ) (s : List ℕ) (result : Option Memory) : Type 0 where
  pub out : Memory
  pub returns : result ≡ some out
  pub copied : IsString out d s
  pub outside : (b : ℕ) → (b < d) ⊎ (d + length s < b) → out b ≡ m b

strcpy_loop-IsCopied :
    (s : List ℕ) (fuel : ℕ) (m : Memory) (d a : ℕ)
    → IsBytes m
    → IsString m a s
    → Apart d (length s + 1) a (length s + 1)
    → length s < fuel
    → IsCopied m d s (strcpy_loop fuel m d a)
unfolding strcpy_loop
strcpy_loop-IsCopied s zero m d a bytes h apart f = absurd (omega arith)
strcpy_loop-IsCopied [] (suc fuel) m d a bytes h apart f = record {
  out = write8 m d 0;
  returns = ground arith;
  copied = ground arith;
  outside = λ b p. ground arith;
}
strcpy_loop-IsCopied (c ∷ s) (suc fuel) m d a bytes (e, nz, h) apart f =
    let rest =
      strcpy_loop-IsCopied s fuel (write8 m d (m a)) (d + 1) (a + 1)
        (write8-IsBytes m d (m a) bytes)
        (IsString-cong s m (write8 m d (m a)) (a + 1) h (λ b p q. ground arith)) (omega arith)
        (omega arith) in
    record {
      out = rest.out;
      returns = ground (arith, rest.returns);
      copied = (ground (arith, rest.outside d, bytes a), nz, rest.copied);
      outside = λ b p. ground (arith, rest.outside b);
    }

-- `strcpy` to a destination apart from its source returns the destination, which holds the
-- string, and changes no byte outside it.
pub strcpy-IsCopied :
    (s : List ℕ) (fuel : ℕ) (m : Memory) (d a : ℕ)
    → IsBytes m
    → IsString m a s
    → Apart d (length s + 1) a (length s + 1)
    → length s < fuel
    → d ≢ 0
    → (out : Memory) × (strcpy fuel m d a ≡ some (d, out)) × IsCopied m d s (some out)
unfolding strcpy
strcpy-IsCopied s fuel m d a bytes h apart f nz =
    let r = strcpy_loop-IsCopied s fuel m d a bytes h apart f in
    (
      r.out,
      ground (arith, r.returns),
      record { out = r.out; returns = refl; copied = r.copied; outside = r.outside },
    )
