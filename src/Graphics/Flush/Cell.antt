-- ===== src/Graphics/Flush/Cell.antt =====
-- `WriteBackCell` shows one row and clears its mark.
use vardar_os.Prelude.{
  Bool-cases, arith, bit_and, complement64, if◌then◌else◌, inl, inr, refl, some, sym, ℕ, ◌*◌, ◌+◌,
  ◌<◌, ◌==◌, ◌^◌, ◌∙◌, ◌≡◌, ◌≢◌, ◌≤◌, ◌⊎◌,
}
use vardar_os.Memory.{IsBytes, Memory}
use vardar_os.Graphics.{Screen, write_back_cell, write_back_rows}
use vardar_os.Graphics.Shown.{
  IsClean, IsScreen, IsShown, back_at, back_inside, front_at, front_inside, multiples_le,
  row_inside,
}
use vardar_os.Graphics.Flush.{
  write_back_rows-IsBytes, write_back_rows_copy, write_back_rows_outside,
}
use vardar_os.Bits.Single.{bit_at, bit_at-bit_and, bit_at-lt, bit_at_complement, bit_at_pow}
use vardar_os.Bits.Pow.{pow_lt}
use vardar_os.Utils.Misc.{clear_nth_bit}

-- The state of the screen with other contents and other marks.
abbrev pub redrawn : Screen → Memory → ℕ → Screen
redrawn s m dirty = record s { memory = m; dirty_block_str = dirty }

pub IsScreen-redrawn :
    {s : Screen} → IsScreen s → (m : Memory) (dirty : ℕ) → IsScreen (redrawn s m dirty)
IsScreen-redrawn scr m dirty = record {
  deep = scr.deep;
  masks = scr.masks;
  rows = scr.rows;
  tall = scr.tall;
  wide = scr.wide;
  small = scr.small;
  fits = scr.fits;
  apart = scr.apart;
}

-- Writing back leaves all but the frame buffer, and the row `c` is shown and not marked.
pub record Shows (s : Screen) (c : ℕ) (t : Screen) : Type 0 where
  pub memory : Memory
  pub dirty : ℕ
  pub state : t ≡ redrawn s memory dirty
  pub bytes : IsBytes memory
  pub clean : IsClean (redrawn s memory dirty)
  pub bits : (i : ℕ) → i < 64 → bit_at dirty i ≡ (if c == i then 0 else bit_at s.dirty_block_str i)
  pub outside :
      (a : ℕ)
      → (a < s.fb.framebuffer_addr)
        ⊎ (s.fb.framebuffer_addr + 64 * s.row_height * s.fb.framebuffer_pitch ≤ a)
      → memory a ≡ s.memory a

clear_bit :
    (num n i : ℕ)
    → n < 64
    → i < 64
    → bit_at (bit_and num (complement64 (2 ^ n))) i ≡ (if n == i then 0 else bit_at num i)
clear_bit num n i h k = ground (
  arith,
  bit_at-bit_and num (complement64 (2 ^ n)) i,
  bit_at_complement 64 (2 ^ n) i (pow_lt n 64 h) k,
  bit_at_pow n i,
  bit_at-lt num i,
)

module _ (s : Screen) (scr : IsScreen s) (bytes : IsBytes s.memory) (c : ℕ) (low : c < 64) where
  cell : Memory
  cell =
      write_back_rows s.row_height s s.memory (c * s.row_height * s.fb.framebuffer_width)
        (c * s.row_height * s.fb.framebuffer_pitch)

  cell_outside :
      (a : ℕ)
      → (a < s.fb.framebuffer_addr + c * s.row_height * s.fb.framebuffer_pitch)
        ⊎ (s.fb.framebuffer_addr
              + c * s.row_height * s.fb.framebuffer_pitch
              + s.row_height * s.fb.framebuffer_pitch
            ≤ a)
      → cell a ≡ s.memory a
  unfolding cell
  cell_outside a out =
      write_back_rows_outside s scr.deep scr.wide s.row_height s.memory _ _ a bytes out

  -- The frame buffer outside the row `c`, and the back buffer, stay.
  cell_back :
      (c' i b : ℕ)
      → c' < 64
      → i < s.row_height
      → b < s.fb.framebuffer_width * 4
      → cell (back_at s c' i b) ≡ s.memory (back_at s c' i b)
  cell_back c' i b low' lt lb =
      let row = row_inside s scr c low in
      let at = back_inside s scr c' i b low' lt lb in
      cell_outside (back_at s c' i b) (elim scr.apart [
        | inl below ↦ inl (omega (arith, at, below))
        | inr above ↦ inr (omega (arith, row, above))
      ])

  cell_front :
      (c' i b : ℕ)
      → c' < 64
      → c' ≢ c
      → i < s.row_height
      → b < s.fb.framebuffer_width * 4
      → cell (front_at s c' i b) ≡ s.memory (front_at s c' i b)
  cell_front c' i b low' ne lt lb =
      let at = front_inside s scr c' i b low' lt lb in
      let before = multiples_le c' c (s.row_height * s.fb.framebuffer_pitch) in
      let behind = multiples_le c c' (s.row_height * s.fb.framebuffer_pitch) in
      let order : (c' < c) ⊎ (c < c') = ground (arith, ne) in
      cell_outside (front_at s c' i b) (elim order [
        | inl lt' ↦ inl (omega (arith, at, before lt'))
        | inr gt ↦ inr (omega (arith, behind gt))
      ])

  cell-IsShown : IsShown s cell c
  unfolding IsShown cell
  cell-IsShown i b lt lb =
      write_back_rows_copy s scr.deep scr.wide s.row_height s.memory
        (c * s.row_height * s.fb.framebuffer_width) (c * s.row_height * s.fb.framebuffer_pitch) i b
        bytes
        (let row = row_inside s scr c low in
          let back = multiples_le c 64 (s.row_height * s.fb.framebuffer_width) low in
          elim scr.apart [
            | inl below ↦ inl (omega (arith, back, below))
            | inr above ↦ inr (omega (arith, row, above))
          ])
        lt lb
      ∙ sym (cell_back c i b low lt lb)

  cell_kept : (c' : ℕ) → c' < 64 → c' ≢ c → IsShown s s.memory c' → IsShown s cell c'
  unfolding IsShown
  cell_kept c' low' ne shown i b lt lb =
      cell_front c' i b low' ne lt lb ∙ shown i b lt lb ∙ sym (cell_back c' i b low' lt lb)

  pub write_back_cell-Shows :
      IsClean s → (t : Screen) × (write_back_cell s c ≡ some t) × Shows s c t
  unfolding write_back_cell clear_nth_bit IsClean IsShown
  write_back_cell-Shows clean =
      let dirty = bit_and s.dirty_block_str (complement64 (2 ^ c)) in
      (
        redrawn s cell dirty,
        unfold cell in ground arith,
        record {
          memory = cell;
          dirty = dirty;
          state = refl;
          bytes =
              unfold cell in
              write_back_rows-IsBytes s scr.deep scr.wide s.row_height s.memory _ _ bytes;
          clean = λ c' low' unmarked. elim (Bool-cases (c == c')) [
            | inl same ↦ let e : c' ≡ c = ground (arith, same) in rw e cell-IsShown
            | inr other ↦
                let ne : c' ≢ c = λ e. ground (arith, other, e) in
                cell_kept c' low' ne (
                  clean c' low'
                    (ground (arith, unmarked, clear_bit s.dirty_block_str c c' low low', other)))
          ];
          bits = λ i lt. clear_bit s.dirty_block_str c i low lt;
          outside = λ a out.
              let row = row_inside s scr c low in
              cell_outside a (elim out [
                | inl below ↦ inl (omega (arith, below))
                | inr above ↦ inr (omega (arith, row, above))
              ]);
        },
      )
