-- ===== src/Graphics/Flush/Whole.antt =====
-- `WriteBack` shows all rows.
use mathlib.Core.Option
use vardar_os.Prelude.{
  Bool-cases, ap, arith, inl, inr, refl, some, suc, zero, ℕ, ◌*◌, ◌+◌, ◌<◌, ◌==◌, ◌∙◌, ◌≡◌, ◌≤◌,
  ◌⊎◌,
}
use vardar_os.Graphics.{Screen, write_back, write_back_cell, write_back_from}
use vardar_os.Memory.{IsBytes, Memory}
use vardar_os.Graphics.Shown.{IsClean, IsScreen, IsShown}
use vardar_os.Graphics.Flush.Cell.{IsScreen-redrawn, Shows, redrawn, write_back_cell-Shows}
use vardar_os.Bits.Single.{bit_at, bit_at-lt}
use vardar_os.Utils.Misc.Laws.{get_nth_bit-bit_at}

-- All rows are shown and none is marked; nothing but the frame buffer has changed.
pub record Flushes (s t : Screen) : Type 0 where
  pub memory : Memory
  pub dirty : ℕ
  pub state : t ≡ redrawn s memory dirty
  pub bytes : IsBytes memory
  pub shown : (c : ℕ) → c < 64 → IsShown s memory c
  pub unmarked : (c : ℕ) → c < 64 → bit_at dirty c ≡ 0
  pub outside :
      (a : ℕ)
      → (a < s.fb.framebuffer_addr)
        ⊎ (s.fb.framebuffer_addr + 64 * s.row_height * s.fb.framebuffer_pitch ≤ a)
      → memory a ≡ s.memory a

Shows-Flushes :
    {s t : Screen} {c : ℕ} (u : Screen) (shows : Shows s c u)
    → Flushes (redrawn s shows.memory shows.dirty) t
    → Flushes s t
unfolding IsShown
Shows-Flushes u shows f = record {
  memory = f.memory;
  dirty = f.dirty;
  state = f.state;
  bytes = f.bytes;
  shown = f.shown;
  unmarked = f.unmarked;
  outside = λ a out. f.outside a out ∙ shows.outside a out;
}

from_unmarked :
    (rows x : ℕ) (s : Screen)
    → x < 64
    → bit_at s.dirty_block_str x ≡ 0
    → write_back_from (suc rows) s x ≡ write_back_from rows s (x + 1)
unfolding write_back_from Option.bind
from_unmarked rows x s lt unset =
    rw (get_nth_bit-bit_at s.dirty_block_str x lt ∙ ap some unset) refl

from_marked :
    (rows x : ℕ) (s u : Screen)
    → x < 64
    → bit_at s.dirty_block_str x ≡ 1
    → write_back_cell s x ≡ some u
    → write_back_from (suc rows) s x ≡ write_back_from rows u (x + 1)
unfolding write_back_from Option.bind
from_marked rows x s u lt set cell =
    rw (get_nth_bit-bit_at s.dirty_block_str x lt ∙ ap some set, cell) refl

write_back_from-Flushes :
    (rows x : ℕ) (s : Screen)
    → IsScreen s
    → IsBytes s.memory
    → IsClean s
    → x + rows ≡ 64
    → ((c : ℕ) → c < x → bit_at s.dirty_block_str c ≡ 0)
    → (t : Screen) × (write_back_from rows s x ≡ some t) × Flushes s t
unfolding write_back_from IsClean
write_back_from-Flushes zero x s scr bytes clean end done = (
  s,
  refl,
  record {
    memory = s.memory;
    dirty = s.dirty_block_str;
    state = refl;
    bytes = bytes;
    shown = λ c low. clean c low (done c (omega arith));
    unmarked = λ c low. done c (omega arith);
    outside = λ a out. refl;
  },
)
write_back_from-Flushes (suc rows) x s scr bytes clean end done =
    elim (Bool-cases (bit_at s.dirty_block_str x == 0)) [
      | inl unset ↦
          let (t, run, f) =
            write_back_from-Flushes rows (x + 1) s scr bytes clean (omega arith)
              (λ c lt. ground (arith, done c, unset, lt)) in
          (t, from_unmarked rows x s (omega arith) (ground (arith, unset)) ∙ run, f)
      | inr set ↦
          let (u, cell, shows) = write_back_cell-Shows s scr bytes x (omega arith) clean in
          let (t, run, f) =
            write_back_from-Flushes rows (x + 1) (redrawn s shows.memory shows.dirty)
              (IsScreen-redrawn scr shows.memory shows.dirty) shows.bytes shows.clean (omega arith)
              (λ c lt. ground (arith, done c, shows.bits c (omega arith), lt)) in
          (
            t,
            from_marked rows x s u (omega arith)
                  (ground (arith, set, bit_at-lt s.dirty_block_str x)) cell
                ∙ ap (λ (v : Screen). write_back_from rows v (x + 1)) shows.state
                ∙ run,
            Shows-Flushes u shows f,
          )
    ]

-- Where every row that is not marked as dirty is shown already, `WriteBack` ends with all 64 rows of
-- the back buffer shown in the frame buffer and none marked; it changes no byte outside the frame
-- buffer.
pub write_back-Flushes :
    (s : Screen)
    → IsScreen s
    → IsBytes s.memory
    → IsClean s
    → (t : Screen) × (write_back s ≡ some t) × Flushes s t
unfolding write_back
write_back-Flushes s scr bytes clean =
    write_back_from-Flushes s.num_rows 0 s scr bytes clean (omega (arith, scr.rows))
      (λ c lt. absurd (omega (arith, lt)))
