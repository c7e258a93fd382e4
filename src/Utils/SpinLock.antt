-- ===== src/Utils/SpinLock.antt =====
-- src/kernel/utils/spin_lock.c: a lock that several cores use at once. The loop of `wait` reads the
-- lock in one step and sets it in another; both steps of a core may have those of other cores in
-- between.
pub mod Overlap
pub mod Calm
use vardar_os.Prelude.{Bool, false, if◌then◌else◌, true, ℕ, ◌==◌, ◌≡◌}

-- Where a core stands: outside, in the loop of `wait`, behind the loop, and behind the call.
pub data Pc : Type 0 where
  outside : Pc
  testing : Pc
  setting : Pc
  holding : Pc

-- The value of `*spin_lock`, and the place of each core.
pub record Cores : Type 0 where
  pub locked : Bool
  pub pc : ℕ → Pc

-- One round of `while(*spin_lock);`.
unfoldable pub test_lock : Bool → Pc
test_lock locked = if locked then Pc.testing else Pc.setting

unfoldable pub move_core : ℕ → Pc → (ℕ → Pc) → ℕ → Pc
move_core i p pc j = if j == i then p else pc j

-- The steps of a core: into `wait`, one round of its loop, the assignment behind it, and `release`.
unfoldable pub call_wait : Cores → ℕ → Cores
call_wait s i = record { locked = s.locked; pc = move_core i Pc.testing s.pc }

unfoldable pub wait_round : Cores → ℕ → Cores
wait_round s i = record { locked = s.locked; pc = move_core i (test_lock s.locked) s.pc }

unfoldable pub wait_set : Cores → ℕ → Cores
wait_set s i = record { locked = true; pc = move_core i Pc.holding s.pc }

unfoldable pub release : Cores → ℕ → Cores
release s i = record { locked = false; pc = move_core i Pc.outside s.pc }

-- One step of one of the cores.
pub data Step : Cores → Cores → Type 0 where
  calls : (s : Cores) (i : ℕ) → s.pc i ≡ Pc.outside → Step s (call_wait s i)
  tests : (s : Cores) (i : ℕ) → s.pc i ≡ Pc.testing → Step s (wait_round s i)
  sets : (s : Cores) (i : ℕ) → s.pc i ≡ Pc.setting → Step s (wait_set s i)
  releases : (s : Cores) (i : ℕ) → s.pc i ≡ Pc.holding → Step s (release s i)

-- The lock is free, and no core is in a call.
abbrev pub at_start : Cores
at_start = record { locked = false; pc = λ i. Pc.outside }

pub data Reach : Cores → Type 0 where
  start : Reach at_start
  later : {s t : Cores} → Reach s → Step s t → Reach t
