-- ===== src/Utils/SpinLock/Overlap.antt =====
-- The lock does not keep the cores apart.
use mathlib.Core.Path.{subst}
use vardar_os.Prelude.{
  ap, arith, false, if◌then◌else◌, ltb, refl, suc, sym, zero, ℕ, ◌<◌, ◌∙◌, ◌≡◌, ◌≤◌,
}
use vardar_os.Utils.SpinLock.{
  Cores, Pc, Reach, Step, at_start, call_wait, move_core, test_lock, wait_round, wait_set,
}

-- The cores below `k` stand at `p`, the others as in `pc`.
unfoldable Row : ℕ → Pc → (ℕ → Pc) → (ℕ → Pc) → Type 0
Row k p pc now = (j : ℕ) → now j ≡ (if ltb j k then p else pc j)

Row-zero : (p : Pc) (pc : ℕ → Pc) → Row 0 p pc pc
unfolding Row
Row-zero p pc j = ground arith

Row-suc : (k : ℕ) (p : Pc) (pc now : ℕ → Pc) → Row k p pc now → Row (suc k) p pc (move_core k p now)
unfolding Row move_core
Row-suc k p pc now row j = ground (arith, row j)

Row-self : (k : ℕ) (p : Pc) (pc now : ℕ → Pc) → Row k p pc now → now k ≡ pc k
unfolding Row
Row-self k p pc now row = ground (arith, row k)

Row-below : (k : ℕ) (p : Pc) (pc now : ℕ → Pc) (j : ℕ) → Row k p pc now → j < k → now j ≡ p
unfolding Row
Row-below k p pc now j row lt = ground (arith, row j)

-- Two steps of the core `k`, seen as one move.
Row-twice :
    (k : ℕ) (p q : Pc) (pc now : ℕ → Pc)
    → Row k p pc now
    → Row (suc k) p pc (move_core k p (move_core k q now))
unfolding Row move_core
Row-twice k p q pc now row j = ground (arith, row j)

move_core_self : (k : ℕ) (p : Pc) (pc : ℕ → Pc) → move_core k p pc k ≡ p
unfolding move_core
move_core_self k p pc = ground arith

-- A core goes into `wait` and out of its loop.
entered : Cores → ℕ → Cores
entered s k = wait_round (call_wait s k) k

entered-Reach : (s : Cores) (k : ℕ) → Reach s → s.pc k ≡ Pc.outside → Reach (entered s k)
unfolding entered call_wait
entered-Reach s k reach at =
    Reach.later (Reach.later reach (Step.calls s k at))
      (Step.tests (call_wait s k) k (move_core_self k Pc.testing s.pc))

entered-free :
    (s : Cores) (k : ℕ)
    → s.locked ≡ false
    → ((entered s k).locked ≡ false)
      × ((entered s k).pc ≡ move_core k Pc.setting (move_core k Pc.testing s.pc))
unfolding entered wait_round call_wait test_lock
entered-free s k free = (
  free,
  ap (λ t. move_core k (if t then Pc.testing else Pc.setting) (move_core k Pc.testing s.pc)) free,
)

-- Each of the first `k` cores calls `wait` and leaves its loop before any of them sets the lock.
enter_all :
    (k : ℕ) → (s : Cores) × Reach s × (s.locked ≡ false) × Row k Pc.setting (λ i. Pc.outside) s.pc
enter_all zero = (at_start, Reach.start, refl, Row-zero Pc.setting (λ i. Pc.outside))
enter_all (suc k) =
    let (s, reach, free, row) = enter_all k in
    let (free', pc') = entered-free s k free in
    (
      entered s k,
      entered-Reach s k reach (Row-self k Pc.setting (λ i. Pc.outside) s.pc row),
      free',
      subst (Row (suc k) Pc.setting (λ i. Pc.outside)) (sym pc')
          (Row-twice k Pc.setting Pc.testing (λ i. Pc.outside) s.pc row),
    )

wait_set-pc : (s : Cores) (k : ℕ) → (wait_set s k).pc ≡ move_core k Pc.holding s.pc
unfolding wait_set
wait_set-pc s k = refl

-- All that are behind the loop set the lock.
set_all :
    (n k : ℕ) (s : Cores)
    → Reach s
    → Row n Pc.setting (λ i. Pc.outside) s.pc
    → k ≤ n
    → (t : Cores) × Reach t × Row k Pc.holding s.pc t.pc
set_all n zero s reach row le = (s, reach, Row-zero Pc.holding s.pc)
set_all n (suc k) s reach row le =
    let (t, reach', row') = set_all n k s reach row (omega arith) in
    let at =
      Row-self k Pc.holding s.pc t.pc row'
      ∙ Row-below n Pc.setting (λ i. Pc.outside) s.pc k row (omega arith) in
    (
      wait_set t k,
      Reach.later reach' (Step.sets t k at),
      subst (Row (suc k) Pc.holding s.pc) (sym (wait_set-pc t k))
          (Row-suc k Pc.holding s.pc t.pc row'),
    )

-- Any number of cores may hold the lock at once: from a free lock, calls of `wait` and their steps
-- lead to a state in which each of the first `n` cores is behind its call.
pub wait-overlap : (n : ℕ) → (t : Cores) × Reach t × ((j : ℕ) → j < n → t.pc j ≡ Pc.holding)
wait-overlap n =
    let (s, reach, free, row) = enter_all n in
    let (t, reach', row') = set_all n n s reach row (omega arith) in
    (t, reach', (λ j lt. Row-below n Pc.holding s.pc t.pc j row' lt))
