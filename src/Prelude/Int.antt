-- ===== src/Prelude/Int.antt =====
-- Signed integers over the native numbers, under the library's names.
use mathlib.Core.Bool.{Bool, false}
use vardar_os.Prelude.Tests.{◌==◌}
use vardar_os.Prelude.{arith, if◌then◌else◌, leb, ℕ, ◌-◌, ◌↔◌, ◌≡◌}

-- `negsuc n` is -(n + 1).
pub data ℤ : Type 0 where
  pos : ℕ → ℤ
  negsuc : ℕ → ℤ

-- a - b, as an integer.
abbrev pub sub_ℕ : ℕ → ℕ → ℤ
sub_ℕ a b = if leb b a then pos (a - b) else negsuc (b - a - 1)

-- The difference of two numbers is 0 exactly when they are equal.
pub sub_ℕ-zero : (a b : ℕ) → (sub_ℕ a b ≡ pos 0) ↔ (a ≡ b)
sub_ℕ-zero a b = ground arith

-- `! n` of an int.
abbrev pub is_zero : ℤ → Bool
is_zero (pos n) = n == 0
is_zero (negsuc n) = false
