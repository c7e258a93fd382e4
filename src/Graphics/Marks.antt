-- ===== src/Graphics/Marks.antt =====
-- Marking rows as dirty keeps every unmarked row shown.
use vardar_os.Prelude.{
  Bool-cases, arith, bit_or, false, inl, inr, ltb, none, refl, some, suc, sym, zero, ℕ, ◌*◌, ◌+◌,
  ◌-◌, ◌<◌, ◌==◌, ◌^◌, ◌∙◌, ◌≡◌, ◌≤◌, ◌⊎◌,
}
use vardar_os.Memory.{Memory}
use vardar_os.Graphics.{Screen, mark_dirty, mark_rows}
use vardar_os.Graphics.Shown.{
  IsClean, IsScreen, IsShown, back_at, front_at, front_inside, multiples_le, row_inside,
}
use vardar_os.Graphics.Flush.Cell.{redrawn}
use vardar_os.Bits.Single.{bit_at, bit_at-bit_or, bit_at-lt, bit_at_pow}
use vardar_os.Utils.Misc.{set_nth_bit}
use native.Mathlib.Nat.{mul-le-mul_right}
use mathlib.Core.Option

top_bit : (num : ℕ) → bit_at (bit_or num (2 ^ 64 - 2 ^ 31)) 31 ≡ 1
top_bit num =
    let top : bit_at (2 ^ 64 - 2 ^ 31) 31 ≡ 1 = unfold bit_at in refl in
    bit_at-bit_or num (2 ^ 64 - 2 ^ 31) 31 ∙ omega (arith, bit_at-lt num 31, top)

-- Up to bit 31 `SetNthBit` sets the bit, and clears none.
set_nth_bit-keeps :
    (num n : ℕ)
    → n < 32
    → (out : ℕ) × (set_nth_bit num n ≡ some out)
      × (bit_at out n ≡ 1)
      × ((i : ℕ) → bit_at num i ≡ 1 → bit_at out i ≡ 1)
unfolding set_nth_bit
set_nth_bit-keeps num n lt = elim (Bool-cases (ltb n 31)) [
  | inl low ↦ (
    bit_or num (2 ^ n),
    rw low refl,
    ground (arith, bit_at-bit_or num (2 ^ n) n, bit_at_pow n n, bit_at-lt num n),
    λ i set. ground (arith, set, bit_at-bit_or num (2 ^ n) i, bit_at_pow n i),
  )
  | inr high ↦
      let last : n ≡ 31 = ground (arith, high, lt) in
      (
        bit_or num (2 ^ 64 - 2 ^ 31),
        rw last refl,
        rw last (top_bit num),
        λ i set.
            ground
              (arith, set, bit_at-bit_or num (2 ^ 64 - 2 ^ 31) i, bit_at-lt (2 ^ 64 - 2 ^ 31) i),
      )
]

pub mark_rows_lem :
    (count dirty row : ℕ)
    → row + count ≤ 32
    → (out : ℕ) × (mark_rows count dirty row ≡ some out)
      × ((i : ℕ) → (bit_at dirty i ≡ 1) ⊎ ((row ≤ i) × (i < row + count)) → bit_at out i ≡ 1)
unfolding mark_rows Option.bind
mark_rows_lem zero dirty row le = (dirty, refl, λ i h. ground (arith, h))
mark_rows_lem (suc count) dirty row le =
    let (d, set, here, kept) = set_nth_bit-keeps dirty row (omega arith) in
    let (out, run, marked) = mark_rows_lem count d (row + 1) (omega arith) in
    (
      out,
      rw (set, run) refl,
      λ i h. marked i (elim h [
        | inl old ↦ inl (kept i old)
        | inr (low, high) ↦ elim (Bool-cases (row == i)) [
          | inl same ↦ let e : row ≡ i = ground (arith, same) in inl (rw (← e) here)
          | inr other ↦ inr (ground (arith, low, other), omega arith)
        ]
      ]),
    )

-- A drawing that changed nothing but the lines from `first` to before `last` of the back buffer.
pub record Draws (s : Screen) (m : Memory) (first last : ℕ) : Type 0 where
  pub ends : last ≤ 64 * s.row_height
  pub kept :
      (a : ℕ)
      → (a < s.buffer + first * s.fb.framebuffer_width * 4)
        ⊎ (s.buffer + last * s.fb.framebuffer_width * 4 ≤ a)
      → m a ≡ s.memory a

module _ (s : Screen) (scr : IsScreen s) (m : Memory) (first last : ℕ)
    (drawn : Draws s m first last) where
  front_kept :
      (c i b : ℕ)
      → c < 64
      → i < s.row_height
      → b < s.fb.framebuffer_width * 4
      → m (front_at s c i b) ≡ s.memory (front_at s c i b)
  front_kept c i b lt li lb =
      let at = front_inside s scr c i b lt li lb in
      let row = row_inside s scr c lt in
      let end =
        mul-le-mul_right {m = last} {n = 64 * s.row_height} s.fb.framebuffer_width drawn.ends in
      drawn.kept (front_at s c i b) (elim scr.apart [
        | inl below ↦ inr (omega (arith, end, below))
        | inr above ↦ inl (omega (arith, at, row, above))
      ])

  back_kept :
      (c i b : ℕ)
      → (c * s.row_height + s.row_height ≤ first) ⊎ (last ≤ c * s.row_height)
      → i < s.row_height
      → b < s.fb.framebuffer_width * 4
      → m (back_at s c i b) ≡ s.memory (back_at s c i b)
  back_kept c i b out li lb =
      let w = s.fb.framebuffer_width in
      let line = multiples_le i s.row_height w li in
      drawn.kept (back_at s c i b) (elim out [
        | inl before ↦
            let le = mul-le-mul_right {m = c * s.row_height + s.row_height} {n = first} w before in
            inl (omega (arith, line, le, lb))
        | inr behind ↦
            let le = mul-le-mul_right {m = last} {n = c * s.row_height} w behind in
            inr (omega (arith, le))
      ])

  -- Rows that are not marked stay shown, where the marks from `row` to before `end` take in every row
  -- that has one of the lines.
  pub mark_dirty-IsClean :
      (row end : ℕ)
      → IsClean s
      → row ≤ end
      → end ≤ 32
      → ((c : ℕ)
          → ((c * s.row_height + s.row_height ≤ first) ⊎ (last ≤ c * s.row_height))
            ⊎ ((row ≤ c) × (c < end)))
      → (dirty : ℕ) × (mark_dirty s row end m ≡ some (redrawn s m dirty))
        × IsClean (redrawn s m dirty)
        × ((i : ℕ) → bit_at s.dirty_block_str i ≡ 1 → bit_at dirty i ≡ 1)
  unfolding IsClean IsShown
  mark_dirty-IsClean row end clean le low held =
      let (dirty, run, marked) =
        mark_rows_lem (end - row) s.dirty_block_str row (omega (arith, le, low)) in
      (
        dirty,
        rw run refl,
        λ c lt unmarked i b li lb.
            let was : bit_at s.dirty_block_str c ≡ 0 =
              ground (arith, unmarked, marked c, bit_at-lt s.dirty_block_str c) in
            let out : (c * s.row_height + s.row_height ≤ first) ⊎ (last ≤ c * s.row_height) =
              elim (held c) [
                | inl apart ↦ apart
                | inr (from, to) ↦
                    absurd (ground (arith, unmarked, marked c (inr (from, omega (arith, to, le)))))
              ] in
            front_kept c i b lt li lb ∙ clean c lt was i b li lb ∙ sym (back_kept c i b out li lb),
        λ i set. marked i (inl set),
      )

-- A mark from row 32 on is an undefined shift.
pub mark_rows-none :
    (count dirty row : ℕ) → 0 < count → 32 < row + count → mark_rows count dirty row ≡ none
unfolding mark_rows Option.bind set_nth_bit
mark_rows-none zero dirty row some_rows far = absurd (omega arith)
mark_rows-none (suc count) dirty row some_rows far = elim (Bool-cases (ltb row 32)) [
  | inl defined ↦
      let (d, set, here, kept) = set_nth_bit-keeps dirty row (ground (arith, defined)) in
      rw (set_nth_bit, set)
        (mark_rows-none count d (row + 1) (ground (arith, defined, far)) (omega (arith, far)))
  | inr undefined ↦
      let low : ltb row 31 ≡ false = ground (arith, undefined) in
      let last : (row == 31) ≡ false = ground (arith, undefined) in rw (low, last) refl
]
