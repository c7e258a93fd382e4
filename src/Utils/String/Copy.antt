-- ===== src/Utils/String/Copy.antt =====
-- What `memset` and `memmove` write, byte by byte; `memmove` where the ranges overlap too.
use vardar_os.Prelude.{
  Bool, arith, if◌then◌else◌, leb, ltb, suc, u8, zero, ℕ, ◌&&◌, ◌+◌, ◌-◌, ◌<◌, ◌≡◌, ◌≤◌,
}
use vardar_os.Memory.Laws.{write8-IsBytes}
use vardar_os.Memory.{IsBytes, Memory, write8}
use vardar_os.Utils.String.{copy_down, copy_up, memmove, memset}

-- Whether `b` is one of the `n` addresses from `a`.
abbrev pub in_range : ℕ → ℕ → ℕ → Bool
in_range a n b = leb a b && ltb b (a + n)

-- `memset` stores the low byte of its value in every byte of the range and changes no other.
pub memset_lem :
    (n : ℕ) (m : Memory) (dest val b : ℕ)
    → memset m dest val n b ≡ (if in_range dest n b then u8 val else m b)
unfolding memset
memset_lem zero m dest val b = ground arith
memset_lem (suc n) m dest val b = ground (arith, memset_lem n (write8 m dest val) (dest + 1) val b)

copy_up_lem :
    (left : ℕ) (m : Memory) (dst src i b : ℕ)
    → dst < src
    → IsBytes m
    → copy_up m dst src i left b ≡ (if in_range (dst + i) left b then m (src + (b - dst)) else m b)
unfolding copy_up
copy_up_lem zero m dst src i b h bytes = ground arith
copy_up_lem (suc left) m dst src i b h bytes = ground (
  arith,
  bytes (src + i),
  copy_up_lem left (write8 m (dst + i) (m (src + i))) dst src (i + 1) b h
      (write8-IsBytes m (dst + i) (m (src + i)) bytes),
)

copy_down_lem :
    (n : ℕ) (m : Memory) (dst src b : ℕ)
    → src ≤ dst
    → IsBytes m
    → copy_down m dst src n b ≡ (if in_range dst n b then m (src + (b - dst)) else m b)
unfolding copy_down
copy_down_lem zero m dst src b h bytes = ground arith
copy_down_lem (suc n) m dst src b h bytes = ground (
  arith,
  bytes (src + n),
  copy_down_lem n (write8 m (dst + n) (m (src + n))) dst src b h
      (write8-IsBytes m (dst + n) (m (src + n)) bytes),
)

-- `memmove` leaves in the destination the bytes that the source held before, whether or not the
-- two ranges overlap, and changes no byte outside the destination.
pub memmove_lem :
    (m : Memory) (dst src size b : ℕ)
    → IsBytes m
    → memmove m dst src size b ≡ (if in_range dst size b then m (src + (b - dst)) else m b)
unfolding memmove
memmove_lem m dst src size b bytes =
    ground (
      arith,
      copy_up_lem size m dst src 0 b,
      copy_down_lem size m dst src b,
      bytes (src + (b - dst)),
    )
