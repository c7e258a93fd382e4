-- ===== src/Memory.antt =====
-- The memory that the kernel addresses: a byte at each address, and little-endian words of 2, 4
-- and 8 bytes. Every address holds a byte; page faults are not modelled.
pub mod Laws
use vardar_os.Prelude.{if◌then◌else◌, suc, u8, zero, ℕ, ◌*◌, ◌+◌, ◌/◌, ◌<◌, ◌==◌}

abbrev pub Memory : Type 0
Memory = ℕ → ℕ

abbrev pub IsBytes : Memory → Type 0
IsBytes m = (a : ℕ) → m a < 256

unfoldable pub write8 : Memory → ℕ → ℕ → Memory
write8 m a v b = if b == a then u8 v else m b

-- `n` bytes from address `a`, the lowest first.
unfoldable pub read_le : ℕ → Memory → ℕ → ℕ
read_le zero m a = 0
read_le (suc n) m a = m a + 256 * read_le n m (a + 1)

unfoldable pub write_le : ℕ → Memory → ℕ → ℕ → Memory
unfolding write8
write_le zero m a v = m
write_le (suc n) m a v = write8 (write_le n m (a + 1) (v / 256)) a v

unfoldable pub read16 : Memory → ℕ → ℕ
unfolding read_le
read16 = read_le 2

unfoldable pub read32 : Memory → ℕ → ℕ
unfolding read_le
read32 = read_le 4

unfoldable pub write32 : Memory → ℕ → ℕ → Memory
unfolding write_le
write32 = write_le 4

unfoldable pub read64 : Memory → ℕ → ℕ
unfolding read_le
read64 = read_le 8

unfoldable pub write64 : Memory → ℕ → ℕ → Memory
unfolding write_le
write64 = write_le 8
