-- ===== src/Graphics/Glyph.antt =====
-- `DrawChar`: the pixels of a character.
pub mod Paint
use vardar_os.Prelude.{
  Bool, Bool-cases, ap, arith, bit_and, if◌then◌else◌, inl, inr, leb, ltb, not, refl, suc, zero, ℕ,
  ◌&&◌, ◌*◌, ◌+◌, ◌-◌, ◌<◌, ◌==◌, ◌>>>◌, ◌^◌, ◌∙◌, ◌≡◌, ◌≤◌, ◌⊎◌,
}
use vardar_os.Memory.Laws.{read32-write32, read32-write32-Apart, write32-IsBytes, write32_outside}
use vardar_os.Memory.{IsBytes, Memory, read32, write32}
use vardar_os.Graphics.{Screen}
use vardar_os.Graphics.Draw.{draw_bits}

-- Bit `i` of a row of a bitmap.
abbrev pub row_bit : ℕ → ℕ → Bool
row_bit row i = not (bit_and (row >>> i) 1 == 0)

module _ (s : Screen) (packed : ℕ) (small : packed < 2 ^ 32) where
  put_bit : Memory → ℕ → ℕ → ℕ → Memory
  put_bit m row i index =
      if bit_and (row >>> i) 1 == 0 then m else write32 m (s.buffer + (index + i) * 4) packed

  put_bit_lem :
      (m : Memory) (row i index q : ℕ)
      → read32 (put_bit m row i index) (s.buffer + q * 4)
        ≡ (if q == index + i && row_bit row i then packed else read32 m (s.buffer + q * 4))
  unfolding put_bit
  put_bit_lem m row i index q = elim (Bool-cases (bit_and (row >>> i) 1 == 0)) [
    | inl unset ↦ rw unset (ground arith)
    | inr set ↦ elim (Bool-cases (q == index + i)) [
      | inl same ↦
          let e : q ≡ index + i = ground (arith, same) in
          rw (set, e) (read32-write32 m (s.buffer + (index + i) * 4) packed small ∙ ground arith)
      | inr other ↦
          rw (set, other)
            (read32-write32-Apart m (s.buffer + (index + i) * 4) (s.buffer + q * 4) packed
              (ground (arith, other)))
    ]
  ]

  put_bit_outside :
      (m : Memory) (row i index a : ℕ)
      → (a < s.buffer + (index + i) * 4) ⊎ (s.buffer + (index + i) * 4 + 4 ≤ a)
      → put_bit m row i index a ≡ m a
  unfolding put_bit
  put_bit_outside m row i index a out = elim (Bool-cases (bit_and (row >>> i) 1 == 0)) [
    | inl unset ↦ rw unset refl
    | inr set ↦ rw set (write32_outside m (s.buffer + (index + i) * 4) packed a out)
  ]

  put_bit-IsBytes : (m : Memory) (row i index : ℕ) → IsBytes m → IsBytes (put_bit m row i index)
  unfolding put_bit
  put_bit-IsBytes m row i index bytes = elim (Bool-cases (bit_and (row >>> i) 1 == 0)) [
    | inl unset ↦ rw (put_bit, unset) bytes
    | inr set ↦ rw (put_bit, set) (write32-IsBytes m (s.buffer + (index + i) * 4) packed bytes)
  ]

  pub draw_bits_lem :
      (count : ℕ) (m : Memory) (row i index q : ℕ)
      → read32 (draw_bits count s m row i index packed) (s.buffer + q * 4) ≡ (
          if leb (index + i) q && ltb q (index + i + count) && row_bit row (q - index)
          then packed
          else read32 m (s.buffer + q * 4))
  unfolding draw_bits put_bit
  draw_bits_lem zero m row i index q = ground arith
  draw_bits_lem (suc count) m row i index q =
      draw_bits_lem count (put_bit m row i index) row (i + 1) index q
      ∙ elim (Bool-cases (q == index + i)) [
        | inl same ↦
            let at : q - index ≡ i = ground (arith, same) in
            let here : row_bit row (q - index) ≡ row_bit row i = ap (row_bit row) at in
            ground (arith, same, put_bit_lem m row i index q, here)
        | inr other ↦ ground (arith, other, put_bit_lem m row i index q)
      ]

  pub draw_bits_outside :
      (count : ℕ) (m : Memory) (row i index a : ℕ)
      → (a < s.buffer + (index + i) * 4) ⊎ (s.buffer + (index + i + count) * 4 ≤ a)
      → draw_bits count s m row i index packed a ≡ m a
  unfolding draw_bits put_bit
  draw_bits_outside zero m row i index a out = refl
  draw_bits_outside (suc count) m row i index a out =
      draw_bits_outside count (put_bit m row i index) row (i + 1) index a
        (elim out [ inl low ↦ inl (omega arith) | inr high ↦ inr (omega arith) ])
      ∙ put_bit_outside m row i index a
          (elim out [ inl low ↦ inl low | inr high ↦ inr (omega arith) ])

  pub draw_bits-IsBytes :
      (count : ℕ) (m : Memory) (row i index : ℕ)
      → IsBytes m
      → IsBytes (draw_bits count s m row i index packed)
  unfolding draw_bits put_bit
  draw_bits-IsBytes zero m row i index bytes = bytes
  draw_bits-IsBytes (suc count) m row i index bytes =
      draw_bits-IsBytes count (put_bit m row i index) row (i + 1) index
        (put_bit-IsBytes m row i index bytes)
