-- ===== src/Graphics/Rect/Lines.antt =====
-- The lines of a rectangle: its pixels, and those beside it.
use vardar_os.Graphics.Place.{pixel_place, read32_moved}
use vardar_os.Prelude.{
  Bool-cases, ap, arith, false, if◌then◌else◌, inl, inr, leb, ltb, suc, zero, ℕ, ◌&&◌, ◌*◌, ◌+◌,
  ◌-◌, ◌<◌, ◌^◌, ◌∙◌, ◌≡◌, ◌≤◌, ◌⊎◌,
}
use native.Mathlib.Nat.{suc-mul, add-mul}
use vardar_os.Memory.{IsBytes, Memory, read32}
use vardar_os.Memory.Laws.{read32_cong}
use vardar_os.Graphics.{Screen, fill_pixels}
use vardar_os.Graphics.Draw.{copy_rows}
use vardar_os.Graphics.Shown.{IsScreen, multiples_le}
use vardar_os.Graphics.Rect.{
  copy_rows-IsBytes, copy_rows_copy, copy_rows_outside, fill_pixels-IsBytes, fill_pixels-read32,
  fill_pixels_outside,
}
use vardar_os.Graphics.Marks.{Draws}

pub row_of_sum : (y j v : ℕ) → (y + j) * v * 4 ≡ y * v * 4 + j * (v * 4)
row_of_sum y j v = omega (arith, add-mul y j v)

pub three_ways : (a b : ℕ) → (a < b) ⊎ ((b < a) ⊎ (a ≡ b))
three_ways a b = ground arith

not_within :
    (px py x y w h : ℕ)
    → (leb x px && ltb px (x + w) && leb y py && ltb py (y + h)) ≡ false
    → (py < y) ⊎ ((y + h ≤ py) ⊎ ((px < x) ⊎ (x + w ≤ px)))
not_within px py x y w h off = ground (arith, off)

module _ (s : Screen) (scr : IsScreen s) (bytes : IsBytes s.memory) (x y w r packed : ℕ)
    (wide : x + w ≤ s.fb.framebuffer_width) (small : packed < 2 ^ 32) where
  unfoldable pub start : ℕ
  start = pixel_place s x y

  unfoldable pub first_line : Memory
  first_line = fill_pixels w s.memory start packed

  unfoldable pub painted : Memory
  painted = copy_rows r s first_line start start (w * 4)

  short : w * 4 ≤ s.fb.framebuffer_width * 4
  short = omega (arith, wide)

  painted_outside :
      (a : ℕ)
      → ((j : ℕ)
          → j < suc r
          → (a < start + j * (s.fb.framebuffer_width * 4))
            ⊎ (start + j * (s.fb.framebuffer_width * 4) + w * 4 ≤ a))
      → painted a ≡ s.memory a
  unfolding painted first_line
  painted_outside a out =
      copy_rows_outside s start (w * 4) short r first_line start a
        (fill_pixels-IsBytes w s.memory start packed bytes)
        (λ i lt. out (suc i) (omega (arith, lt)))
      ∙ fill_pixels_outside w s.memory start packed a (elim (out 0 (omega arith)) [
        | inl low ↦ inl (omega (arith, low))
        | inr high ↦ inr (omega (arith, high))
      ])

  painted_inside :
      (i j : ℕ)
      → i < w
      → j < suc r
      → read32 painted (start + j * (s.fb.framebuffer_width * 4) + i * 4) ≡ packed
  unfolding painted first_line
  painted_inside i zero li lj =
      let here : start + 0 * (s.fb.framebuffer_width * 4) + i * 4 ≡ start + i * 4 = omega arith in
      rw here (
        read32_cong first_line painted (start + i * 4) (λ b p q.
          copy_rows_outside s start (w * 4) short r first_line start b
            (fill_pixels-IsBytes w s.memory start packed bytes)
            (λ k lk. inl (omega (arith, q, li, short, suc-mul k (s.fb.framebuffer_width * 4)))))
        ∙ fill_pixels-read32 w s.memory start packed i small li)
  painted_inside i (suc j) li lj =
      read32_moved first_line painted (start + i * 4)
        (start + suc j * (s.fb.framebuffer_width * 4) + i * 4)
        (λ b lb.
          let there : start + suc j * (s.fb.framebuffer_width * 4) + i * 4 + b
              ≡ start + suc j * (s.fb.framebuffer_width * 4) + (i * 4 + b) =
            omega arith in
          let back : start + (i * 4 + b) ≡ start + i * 4 + b = omega arith in
          ap painted there
          ∙ copy_rows_copy s start (w * 4) short r first_line start j (i * 4 + b)
              (fill_pixels-IsBytes w s.memory start packed bytes) (omega arith) (omega (arith, lj))
              (omega (arith, lb, li))
          ∙ ap first_line back)
      ∙ fill_pixels-read32 w s.memory start packed i small li

  -- A pixel on no line of the rectangle, or beside it.
  painted_beside :
      (px py : ℕ)
      → px < s.fb.framebuffer_width
      → (py < y) ⊎ ((y + suc r ≤ py) ⊎ ((px < x) ⊎ (x + w ≤ px)))
      → read32 painted (pixel_place s px py) ≡ read32 s.memory (pixel_place s px py)
  unfolding start
  painted_beside px py lx beside =
      let v = s.fb.framebuffer_width in
      read32_cong s.memory painted (pixel_place s px py) (λ b p q. painted_outside b (λ j lj.
        let above = multiples_le py (y + j) v in
        let below = multiples_le (y + j) py v in
        let rows = row_of_sum (y) j v in
        elim (three_ways py (y + j)) [
          | inl before ↦ inl (omega (arith, above before, q, lx, rows))
          | inr (inl behind) ↦ inr (omega (arith, below behind, p, wide, rows))
          | inr (inr same) ↦
              let on : py * v ≡ (y + j) * v = ap (λ (t : ℕ). t * v) same in
              elim beside [
                | inl up ↦ absurd (omega (arith, same, up))
                | inr (inl down) ↦ absurd (omega (arith, same, down, lj))
                | inr (inr (inl left)) ↦ inl (omega (arith, left, on, q, rows))
                | inr (inr (inr right)) ↦ inr (omega (arith, right, on, p, rows))
              ]
        ]))

  pub painted_pixel :
      (px py : ℕ)
      → px < s.fb.framebuffer_width
      → read32 painted (pixel_place s px py) ≡ (
          if leb x px && ltb px (x + w) && leb y py && ltb py (y + suc r)
          then packed
          else read32 s.memory (pixel_place s px py))
  unfolding start
  painted_pixel px py lx =
      elim (Bool-cases (leb x px && ltb px (x + w) && leb y py && ltb py (y + suc r))) [
        | inl within ↦
            let i = px - x in
            let j = py - y in
            let rows = row_of_sum y j s.fb.framebuffer_width in
            let row : py * s.fb.framebuffer_width ≡ (y + j) * s.fb.framebuffer_width =
              ap (λ (t : ℕ). t * s.fb.framebuffer_width) (ground (arith, within)) in
            let col : px ≡ x + i = ground (arith, within) in
            let there : pixel_place s px py
                ≡ pixel_place s x y + j * (s.fb.framebuffer_width * 4) + i * 4 =
              omega (arith, row, rows, col) in
            rw (within, there)
              (painted_inside i j (ground (arith, within)) (ground (arith, within)))
        | inr off ↦ rw off (painted_beside px py lx (not_within px py x y w (suc r) off))
      ]

  pub painted-IsBytes : IsBytes painted
  unfolding painted first_line
  painted-IsBytes =
      copy_rows-IsBytes s start (w * 4) short r first_line start
        (fill_pixels-IsBytes w s.memory start packed bytes)

  pub painted-Draws : y + suc r ≤ 64 * s.row_height → Draws s painted y (y + suc r)
  unfolding start
  painted-Draws ends = record {
    ends = ends;
    kept = λ a out. painted_outside a (λ j lj.
        let rows = row_of_sum y j s.fb.framebuffer_width in
        let last = multiples_le (y + j) (y + suc r) s.fb.framebuffer_width (omega (arith, lj)) in
        elim out [
          | inl low ↦ inl (omega (arith, low))
          | inr high ↦ inr (omega (arith, high, last, rows, wide))
        ]);
  }
