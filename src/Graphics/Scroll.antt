-- ===== src/Graphics/Scroll.antt =====
-- `Transpose` upwards, as `Scroll` calls it: the pixels that move, and the rows that are shown.
use mathlib.Core.Option
use native.Mathlib.Nat.{mul-le-mul_right}
use vardar_os.Prelude.{
  Bool, Bool-cases, ap, arith, false, if◌then◌else◌, inl, inr, leb, ltb, refl, suc, true, u16, zero,
  ℕ, ◌%◌, ◌&&◌, ◌*◌, ◌+◌, ◌-◌, ◌/◌, ◌<◌, ◌==◌, ◌^◌, ◌∙◌, ◌≡◌, ◌≤◌, ◌⊎◌,
}
use vardar_os.Prelude.Int.{negsuc, pos, sub_ℕ}
use vardar_os.Memory.{IsBytes, Memory, read32}
use vardar_os.Utils.String.{memmove}
use vardar_os.Utils.String.Copy.{memmove_lem}
use vardar_os.Graphics.{Coordinate, Dimensions, Screen, mark_dirty}
use vardar_os.Graphics.Draw.{move16, row_of, touched_rows, transpose, transpose_rows}
use vardar_os.Graphics.Shown.{IsClean, IsScreen, memmove-IsBytes, multiples_le}
use vardar_os.Graphics.Place.{pixel_of, pixel_place, read32_moved, row_end, row_end_lem, rows_held}
use vardar_os.Graphics.Rect.Paint.{Redraws, drawn_size, place_lem}
use vardar_os.Graphics.Glyph.Paint.{same_line}
use vardar_os.Memory.Laws.{read32_cong}
use vardar_os.Graphics.Marks.{mark_dirty-IsClean}

-- The last row of `Transpose`.
row_above : ℕ → ℕ → ℕ
row_above bottom height = bottom / height + (if bottom % height == 0 then 0 else 1)

row_above-row_end : (bottom height : ℕ) → row_above bottom height ≡ row_end bottom height
unfolding row_above
row_above-row_end bottom height = ground arith

module _ (s : Screen) (scr : IsScreen s) (x w n : ℕ) (wide : x + w ≤ s.fb.framebuffer_width)
    (narrow : x < 2 ^ 16) where
  -- Line `y` of the rectangle, moved up.
  moved_line : Memory → ℕ → Memory
  moved_line m y = memmove m (pixel_place s x (y - suc n)) (pixel_place s x y) (w * 4)

  moved_line-IsBytes : (m : Memory) (y : ℕ) → IsBytes m → IsBytes (moved_line m y)
  unfolding moved_line
  moved_line-IsBytes m y bytes = memmove-IsBytes m _ _ _ bytes

  moved_line_lem :
      (m : Memory) (y px py : ℕ)
      → IsBytes m
      → px < s.fb.framebuffer_width
      → read32 (moved_line m y) (pixel_place s px py) ≡ (
          if py == y - suc n && leb x px && ltb px (x + w)
          then read32 m (pixel_place s px y)
          else read32 m (pixel_place s px py))
  unfolding moved_line
  moved_line_lem m y px py bytes lx =
      let v = s.fb.framebuffer_width in
      let line = same_line px py x (y - suc n) w v lx wide in
      let in_line : Bool = py == y - suc n && leb x px && ltb px (x + w) in
      let there : in_line ≡ true → (x ≤ px) × (px < x + w) = λ on. ground (arith, on) in
      let same : in_line ≡ true → py * v ≡ (y - suc n) * v =
        λ on. ap (λ (t : ℕ). t * v) (ground (arith, on)) in
      let source : (i : ℕ)
          → in_line ≡ true
          → pixel_place s x y + (pixel_place s px py + i - pixel_place s x (y - suc n))
            ≡ pixel_place s px y + i =
        λ i on. omega (arith, same on, there on) in
      let side : in_line ≡ false
          → (px + py * v < x + (y - suc n) * v) ⊎ (x + (y - suc n) * v + w ≤ px + py * v) =
        λ off. ground (arith, line, off) in
      elim (Bool-cases (py == y - suc n && leb x px && ltb px (x + w))) [
        | inl on ↦ rw on (
            read32_moved m (moved_line m y) (pixel_place s px y) (pixel_place s px py) (λ i lt.
              memmove_lem m (pixel_place s x (y - suc n)) (pixel_place s x y) (w * 4)
                (pixel_place s px py + i) bytes
              ∙ ground (arith, there on, same on, lt, ap m (source i on))))
        | inr off ↦ rw off (
            read32_cong m (moved_line m y) (pixel_place s px py) (λ b p q.
              memmove_lem m (pixel_place s x (y - suc n)) (pixel_place s x y) (w * 4) b bytes
              ∙ ground (arith, side off, p, q)))
      ]

  step :
      (rows y : ℕ) (m : Memory)
      → suc n ≤ y
      → y < 2 ^ 16
      → y < 64 * s.row_height
      → transpose_rows (suc rows) s m x y w (negsuc n) (pos 0)
        ≡ transpose_rows rows s (moved_line m y) x (y + 1) w (negsuc n) (pos 0)
  unfolding transpose_rows moved_line move16
  step rows y m le small inside =
      let from = place_lem s scr (record { x = x; y = y }) (omega (arith, wide)) inside in
      let to =
        place_lem s scr (record { x = x; y = y - suc n }) (omega (arith, wide))
          (omega (arith, inside)) in
      let at : u16 y ≡ y = omega (arith, small) in
      let column : u16 (x + 0) ≡ x = omega (arith, narrow) in
      let up : u16 (y + (2 ^ 16 - (n + 1) % 2 ^ 16)) ≡ y - suc n = omega (arith, small, le) in
      let size = drawn_size w s.fb.framebuffer_bpp scr.deep in
      rw (at, column, up, from, to, size) refl

  transpose_rows-IsBytes :
      (rows y : ℕ) (m : Memory)
      → IsBytes m
      → suc n ≤ y
      → y + rows < 2 ^ 16
      → y + rows ≤ 64 * s.row_height
      → IsBytes (transpose_rows rows s m x y w (negsuc n) (pos 0))
  transpose_rows-IsBytes zero y m bytes le small inside = unfold transpose_rows in bytes
  transpose_rows-IsBytes (suc rows) y m bytes le small inside =
      rw (step rows y m le (omega (arith, small)) (omega (arith, inside))) (
        transpose_rows-IsBytes rows (y + 1) (moved_line m y) (moved_line-IsBytes m y bytes)
          (omega arith) (omega arith) (omega arith))

  transpose_rows_lem :
      (rows y : ℕ) (m : Memory) (px py : ℕ)
      → IsBytes m
      → suc n ≤ y
      → y + rows < 2 ^ 16
      → y + rows ≤ 64 * s.row_height
      → px < s.fb.framebuffer_width
      → read32 (transpose_rows rows s m x y w (negsuc n) (pos 0)) (pixel_place s px py) ≡ (
          if leb x px && ltb px (x + w) && leb (y - suc n) py && ltb py (y - suc n + rows)
          then read32 m (pixel_place s px (py + suc n))
          else read32 m (pixel_place s px py))
  transpose_rows_lem zero y m px py bytes le small inside lx = unfold transpose_rows in ground arith
  transpose_rows_lem (suc rows) y m px py bytes le small inside lx =
      ap (λ (k : Memory). read32 k (pixel_place s px py))
        (step rows y m le (omega (arith, small)) (omega (arith, inside)))
      ∙ transpose_rows_lem rows (y + 1) (moved_line m y) px py (moved_line-IsBytes m y bytes)
          (omega arith) (omega arith) (omega arith) lx
      ∙ elim (Bool-cases (py == y - suc n)) [
        | inl here ↦
            let source : py + suc n ≡ y = ground (arith, here, le) in
            rw source (ground (arith, here, le, moved_line_lem m y px py bytes lx))
        | inr other ↦ ground (
          arith,
          other,
          le,
          moved_line_lem m y px py bytes lx,
          moved_line_lem m y px (py + suc n) bytes lx,
        )
      ]

  transpose_rows_outside :
      (rows y first last a : ℕ) (m : Memory)
      → IsBytes m
      → suc n ≤ y
      → y + rows < 2 ^ 16
      → y + rows ≤ 64 * s.row_height
      → first ≤ y - suc n
      → y - suc n + rows ≤ last
      → (a < s.buffer + first * s.fb.framebuffer_width * 4)
        ⊎ (s.buffer + last * s.fb.framebuffer_width * 4 ≤ a)
      → transpose_rows rows s m x y w (negsuc n) (pos 0) a ≡ m a
  transpose_rows_outside zero y first last a m bytes le small inside from to out =
      unfold transpose_rows in refl
  transpose_rows_outside (suc rows) y first last a m bytes le small inside from to out =
      let v = s.fb.framebuffer_width in
      let above = mul-le-mul_right {m = first} {n = y - suc n} v from in
      let below = multiples_le (y - suc n) last v (omega (arith, to)) in
      ap (λ (k : Memory). k a) (step rows y m le (omega (arith, small)) (omega (arith, inside)))
      ∙ transpose_rows_outside rows (y + 1) first last a (moved_line m y)
          (moved_line-IsBytes m y bytes) (omega arith) (omega arith) (omega arith) (omega arith)
          (omega arith) out
      ∙ unfold moved_line in
        memmove_lem m (pixel_place s x (y - suc n)) (pixel_place s x y) (w * 4) a bytes
        ∙ ground (arith, above, below, out, wide)

abbrev pub moved_up : Coordinate → Dimensions → ℕ → ℕ → ℕ → Bool
moved_up top_left dims n px py =
    leb top_left.x px
    && ltb px (top_left.x + dims.width)
    && leb (top_left.y - suc n) py
    && ltb py (top_left.y - suc n + dims.height)

-- On a screen of 32 bits for a pixel and fields of 8 bits, `Transpose` upwards by `n + 1` of a rectangle that lies below
-- these lines and in the first 32 of the 64 rows of the screen returns: the pixels of the new place are
-- those of the old one, and all others are as before; and where every row that was not marked as dirty
-- was shown, this is so afterwards.
pub transpose-Redraws :
    (s : Screen) (top_left : Coordinate) (dims : Dimensions) (n : ℕ)
    → IsScreen s
    → IsBytes s.memory
    → IsClean s
    → top_left.x < 2 ^ 16
    → top_left.x + dims.width ≤ s.fb.framebuffer_width
    → suc n ≤ top_left.y
    → top_left.y + dims.height < 2 ^ 16
    → top_left.y + dims.height < 32 * s.row_height
    → Redraws s
        (λ px py.
          if moved_up top_left dims n px py then pixel_of s px (py + suc n) else pixel_of s px py)
        (transpose s top_left dims (negsuc n) (pos 0))
unfolding transpose touched_rows row_of row_above Option.bind
transpose-Redraws s top_left dims n scr bytes clean narrow across le short down =
    let x = top_left.x in
    let y = top_left.y in
    let bottom = y + dims.height in
    let m = transpose_rows dims.height s s.memory x y dims.width (negsuc n) (pos 0) in
    let top = y - suc n in
    let up : sub_ℕ y (n + 1) ≡ pos top = ground (arith, le) in
    let (from, low, covers) =
      row_end_lem top bottom s.row_height scr.tall (omega (arith, le)) down in
    let (dirty, run, clean', marked) =
      mark_dirty-IsClean s scr m top (top + dims.height)
        (record {
          ends = omega (arith, down, le);
          kept = λ a out.
              transpose_rows_outside s scr x dims.width n across narrow dims.height y top
                (top + dims.height) a s.memory bytes le short (omega (arith, down)) (omega arith)
                (omega arith) out;
        })
        (top / s.row_height) (row_end bottom s.row_height) clean from low
        (λ k.
          rows_held k s.row_height top (top + dims.height) (row_end bottom s.row_height)
            (omega (arith, covers, le))) in
    record {
      memory = m;
      dirty = dirty;
      returns =
          rw (transpose, up)
            (ap (λ (e : ℕ). mark_dirty s (top / s.row_height) e m)
                (row_above-row_end bottom s.row_height)
              ∙ run);
      bytes =
          transpose_rows-IsBytes s scr x dims.width n across narrow dims.height y s.memory bytes le
            short (omega (arith, down));
      clean = clean';
      pixels = λ px py lx ly.
          transpose_rows_lem s scr x dims.width n across narrow dims.height y s.memory px py bytes
            le short (omega (arith, down)) lx;
    }
