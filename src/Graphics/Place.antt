-- ===== src/Graphics/Place.antt =====
-- Pixels and rows of the screen by their addresses, and the quotients that give the rows.
use native.Mathlib.Nat.{
  div-add-mod', lt-div-mul-add, mul_comm, lt-mul-div-succ, div-mul-le_self, le-div_iff_mul-le,
  div-lt_iff_lt-mul, mul-le-mul_right, div-mul-le_self,
}
use vardar_os.Prelude.{
  Bool-cases, ap, arith, if◌then◌else◌, inl, inr, ltb, sym, ℕ, ◌%◌, ◌*◌, ◌+◌, ◌/◌, ◌<◌, ◌∙◌, ◌≡◌,
  ◌≤◌, ◌⊎◌,
}
use vardar_os.Memory.{Memory, read32}
use vardar_os.Graphics.{Screen}
use vardar_os.Graphics.Shown.{multiples_le}

-- The address of a pixel in the back buffer.
abbrev pub pixel_place : Screen → ℕ → ℕ → ℕ
pixel_place s px py = s.buffer + (px + py * s.fb.framebuffer_width) * 4

abbrev pub pixel_of : Screen → ℕ → ℕ → ℕ
pixel_of s px py = read32 s.memory (pixel_place s px py)

-- The rows that have one of the lines from `first` to before `last`.
pub rows_held :
    (c height first last end : ℕ)
    → last ≤ end * height
    → ((c * height + height ≤ first) ⊎ (last ≤ c * height)) ⊎ ((first / height ≤ c) × (c < end))
rows_held c height first last end le = elim (Bool-cases (ltb c (first / height))) [
  | inl before ↦
      let lt : c < first / height = ground (arith, before) in
      inl (
        inl
          (omega (arith, multiples_le c (first / height) height lt, div-mul-le_self first height)))
  | inr from ↦ elim (Bool-cases (ltb c end)) [
    | inl in_rows ↦ inr (ground (arith, from), ground (arith, in_rows))
    | inr behind ↦
        let ge : end ≤ c = ground (arith, behind) in
        inl (inr (omega (arith, mul-le-mul_right {m = end} {n = c} height ge)))
  ]
]

pub div_lt : (n k height : ℕ) → 0 < height → n < k * height → n / height < k
div_lt n k height tall lt = (div-lt_iff_lt-mul {k = height} {x = n} {y = k} tall).1 lt

pub div_mono : (a b height : ℕ) → 0 < height → a ≤ b → a / height ≤ b / height
div_mono a b height tall le =
    (le-div_iff_mul-le {k = height} {x = a / height} {y = b} tall).1
      (omega (arith, div-mul-le_self a height))

pub covered :
    (last bottom end height : ℕ)
    → 0 < height
    → last ≤ bottom
    → bottom / height + 1 ≤ end
    → last ≤ end * height
covered last bottom end height tall le past = omega (
  arith,
  lt-mul-div-succ bottom {b = height} tall,
  mul-le-mul_right {m = bottom / height + 1} {n = end} height past,
  mul_comm height (bottom / height + 1),
)

-- Words of equal bytes at two places.
pub read32_moved :
    (m k : Memory) (a b : ℕ) → ((i : ℕ) → i < 4 → k (b + i) ≡ m (a + i)) → read32 k b ≡ read32 m a
unfolding read32
read32_moved m k a b same =
    let at : (i c d : ℕ) → i < 4 → c ≡ b + i → d ≡ a + i → k c ≡ m d =
      λ i c d lt e e'. ap k e ∙ same i lt ∙ sym (ap m e') in
    omega (
      arith,
      at 0 b a (omega arith) (omega arith) (omega arith),
      at 1 (b + 1) (a + 1) (omega arith) (omega arith) (omega arith),
      at 2 (b + 1 + 1) (a + 1 + 1) (omega arith) (omega arith) (omega arith),
      at 3 (b + 1 + 1 + 1) (a + 1 + 1 + 1) (omega arith) (omega arith) (omega arith),
    )

-- The last row of `DrawChar` and of `Transpose` is rounded up.
abbrev pub row_end : ℕ → ℕ → ℕ
row_end bottom height = bottom / height + (if ltb 0 (bottom % height) then 1 else 0)

pub row_end_lem :
    (y bottom height : ℕ)
    → 0 < height
    → y ≤ bottom
    → bottom < 32 * height
    → (y / height ≤ row_end bottom height)
      × (row_end bottom height ≤ 32)
      × (bottom ≤ row_end bottom height * height)
row_end_lem y bottom height tall le lt =
    let below = div_lt bottom 32 height tall lt in
    let parts = div-add-mod' bottom height in
    let top = div_mono y bottom height tall le in
    elim (Bool-cases (ltb 0 (bottom % height))) [
      | inl part ↦ rw part (
        omega (arith, top),
        omega (arith, below),
        omega (arith, parts, lt-div-mul-add {a = bottom} {b = height} tall),
      )
      | inr whole ↦
          let none_left : bottom % height ≡ 0 = ground (arith, whole) in
          rw whole (omega (arith, top), omega (arith, below), omega (arith, parts, none_left))
    ]
