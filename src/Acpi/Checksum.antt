-- ===== src/Acpi/Checksum.antt =====
-- The checksum of a table.
use vardar_os.Prelude.{
  ltb, inl, inr, ◌⊎◌, Bool-cases, ap, arith, false, inl, inr, refl, suc, true, zero, ℕ, ◌%◌, ◌+◌,
  ◌<◌, ◌==◌, ◌^◌, ◌≡◌, ◌≢◌, ◌≤◌,
}
use vardar_os.Bits.{bit_and_low}
use vardar_os.Memory.Laws.{read32_cong}
use vardar_os.Memory.{read32, IsBytes, Memory}
use vardar_os.Acpi.{sdt_length, add_bytes, validate_sdt_checksum}

-- The sum of the `n` bytes from `a`.
unfoldable pub total : Memory → ℕ → ℕ → ℕ
total m a zero = 0
total m a (suc n) = m a + total m (a + 1) n

add_bytes-total :
    (n : ℕ) (m : Memory) (a checksum : ℕ) → add_bytes m a n checksum ≡ checksum + total m a n
unfolding add_bytes total
add_bytes-total zero m a checksum = omega arith
add_bytes-total (suc n) m a checksum = omega (arith, add_bytes-total n m (a + 1) (checksum + m a))

validate-total :
    (m : Memory) (a n : ℕ) → n < 2 ^ 31 → validate_sdt_checksum m a n ≡ (total m a n % 256 == 0)
unfolding validate_sdt_checksum
validate-total m a n lt =
    ground (arith, lt, add_bytes-total n m a 0, bit_and_low 8 (add_bytes m a n 0))

total_same :
    (n : ℕ) (m k : Memory) (a : ℕ)
    → ((x : ℕ) → a ≤ x → x < a + n → k x ≡ m x)
    → total k a n ≡ total m a n
unfolding total
total_same zero m k a same = refl
total_same (suc n) m k a same = omega (
  arith,
  same a (omega arith) (omega arith),
  total_same n m k (a + 1) (λ x p q. same x (omega arith) (omega arith)),
)

-- Two memories that differ in one byte of the range.
total_changed :
    (n : ℕ) (m k : Memory) (a at : ℕ)
    → a ≤ at
    → at < a + n
    → ((x : ℕ) → x ≢ at → k x ≡ m x)
    → total k a n + m at ≡ total m a n + k at
unfolding total
total_changed zero m k a at lo hi same = absurd (omega arith)
total_changed (suc n) m k a at lo hi same = elim (Bool-cases (a == at)) [
  | inl here ↦
      let e : a ≡ at = ground (arith, here) in
      omega (
        arith,
        ap m e,
        ap k e,
        total_same n m k (a + 1) (λ x p q. same x (λ x_at. omega (arith, x_at, e, p))),
      )
  | inr later ↦
      let ne : a ≢ at = λ e. ground (arith, later, e) in
      omega (
        arith,
        same a ne,
        total_changed n m k (a + 1) at (ground (arith, later)) (omega arith) same,
      )
]

-- With the length that the callers read from the table: if a table of fewer than 2 ^ 31 bytes has a valid
-- checksum, and another memory has the same bytes but for one byte of the table outside of its length,
-- then the table in that memory has no valid checksum.
pub validate_sdt_checksum-changed :
    (m k : Memory) (sdt at : ℕ)
    → IsBytes m
    → IsBytes k
    → read32 m (sdt + sdt_length) < 2 ^ 31
    → validate_sdt_checksum m sdt (read32 m (sdt + sdt_length)) ≡ true
    → sdt ≤ at
    → at < sdt + read32 m (sdt + sdt_length)
    → (at < sdt + sdt_length) ⊎ (sdt + sdt_length + 4 ≤ at)
    → ((x : ℕ) → x ≢ at → k x ≡ m x)
    → k at ≢ m at
    → validate_sdt_checksum k sdt (read32 k (sdt + sdt_length)) ≡ false
validate_sdt_checksum-changed m k sdt at bytes_m bytes_k lt valid lo hi out same changed =
    let len = read32 m (sdt + sdt_length) in
    let kept : read32 k (sdt + sdt_length) ≡ len =
      read32_cong m k (sdt + sdt_length) (λ x p q. same x (λ e. omega (arith, e, p, q, out))) in
    rw kept (
      ground (
        arith,
        valid,
        changed,
        bytes_m at,
        bytes_k at,
        validate-total m sdt len lt,
        validate-total k sdt len lt,
        total_changed len m k sdt at lo hi same,
      ))

-- A length of 2 ^ 31 or more is negative as an `int`: a table that states one is accepted, whatever its
-- bytes are.
pub validate_sdt_checksum-long :
    (m : Memory) (sdt len : ℕ) → 2 ^ 31 ≤ len → validate_sdt_checksum m sdt len ≡ true
unfolding validate_sdt_checksum add_bytes
validate_sdt_checksum-long m sdt len le =
    let negative : ltb len (2 ^ 31) ≡ false = ground (arith, le) in rw negative refl
