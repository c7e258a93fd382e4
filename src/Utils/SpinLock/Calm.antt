-- ===== src/Utils/SpinLock/Calm.antt =====
-- The lock where no core is interrupted between the last test and the assignment.
use vardar_os.Prelude.{ap, Bool-cases, inl, inr, arith, false, refl, true, ℕ, ◌≡◌}
use vardar_os.Utils.SpinLock.{
  Cores, Pc, Reach, Step, at_start, call_wait, move_core, release, test_lock, wait_round, wait_set,
}

-- The assignment of `wait`, where the core has left the loop.
unfoldable pub set_behind : Pc → Cores → ℕ → Cores
set_behind Pc.outside s i = s
set_behind Pc.testing s i = s
set_behind Pc.setting s i = wait_set s i
set_behind Pc.holding s i = s

-- One round of the loop of `wait`, and right behind it, where it leaves the loop, the assignment.
unfoldable pub wait_alone : Cores → ℕ → Cores
wait_alone s i = set_behind ((wait_round s i).pc i) (wait_round s i) i

-- The runs in which no step of another core comes between the two.
pub data Calm : Cores → Type 0 where
  start : Calm at_start
  calls : (s : Cores) (i : ℕ) → Calm s → s.pc i ≡ Pc.outside → Calm (call_wait s i)
  waits : (s : Cores) (i : ℕ) → Calm s → s.pc i ≡ Pc.testing → Calm (wait_alone s i)
  releases : (s : Cores) (i : ℕ) → Calm s → s.pc i ≡ Pc.holding → Calm (release s i)

wait_round-testing : (s : Cores) (i : ℕ) → s.locked ≡ true → (wait_round s i).pc i ≡ Pc.testing
unfolding wait_round test_lock move_core
wait_round-testing s i set = ground (arith, set)

wait_round-setting : (s : Cores) (i : ℕ) → s.locked ≡ false → (wait_round s i).pc i ≡ Pc.setting
unfolding wait_round test_lock move_core
wait_round-setting s i free = ground (arith, free)

-- A round of the loop on a lock that is set, and on a free one.
wait_alone_set : (s : Cores) (i : ℕ) → s.locked ≡ true → wait_alone s i ≡ wait_round s i
unfolding wait_alone set_behind
wait_alone_set s i set = ap (λ p. set_behind p (wait_round s i) i) (wait_round-testing s i set)

wait_alone_free :
    (s : Cores) (i : ℕ) → s.locked ≡ false → wait_alone s i ≡ wait_set (wait_round s i) i
unfolding wait_alone set_behind
wait_alone_free s i free = ap (λ p. set_behind p (wait_round s i) i) (wait_round-setting s i free)

-- They are runs of the cores.
pub Calm-Reach : (s : Cores) → Calm s → Reach s
Calm-Reach s start = Reach.start
Calm-Reach s (calls t i calm at) = Reach.later (Calm-Reach t calm) (Step.calls t i at)
Calm-Reach s (waits t i calm at) = elim (Bool-cases t.locked) [
  | inl set ↦ rw (wait_alone_set t i set) (Reach.later (Calm-Reach t calm) (Step.tests t i at))
  | inr free ↦ rw (wait_alone_free t i free) (
      Reach.later (Reach.later (Calm-Reach t calm) (Step.tests t i at))
        (Step.sets (wait_round t i) i (wait_round-setting t i free)))
]
Calm-Reach s (releases t i calm at) = Reach.later (Calm-Reach t calm) (Step.releases t i at)

-- At most one core is behind its call of `wait`, and then the lock is set.
abbrev pub IsExclusive : Cores → Type 0
IsExclusive s =
    ((i : ℕ) → s.pc i ≡ Pc.holding → s.locked ≡ true)
    × ((i j : ℕ) → s.pc i ≡ Pc.holding → s.pc j ≡ Pc.holding → i ≡ j)

-- Where each core sets the lock right after the test that lets it out of the loop of `wait`, with no step
-- of another core in between: at most one core is behind its call at any time, and while one is, the
-- lock is set.
pub Calm-IsExclusive : (s : Cores) → Calm s → IsExclusive s
unfolding call_wait wait_round wait_set release move_core test_lock
Calm-IsExclusive s start =
    ((λ i held. ground (arith, held)), λ i j held held'. ground (arith, held))
Calm-IsExclusive s (calls t i calm at) =
    let (locked, one) = Calm-IsExclusive t calm in
    (
      (λ j held. ground (arith, held, locked j)),
      λ j k held held'. ground (arith, held, held', one j k),
    )
Calm-IsExclusive s (waits t i calm at) =
    let (locked, one) = Calm-IsExclusive t calm in
    elim (Bool-cases t.locked) [
      | inl set ↦
          rw (wait_alone_set t i set)
            ((λ j held. set), λ j k held held'. ground (arith, held, held', set, one j k))
      | inr free ↦ rw (wait_alone_free t i free) (
        (λ j held. refl),
        λ j k held held'. ground (arith, held, held', free, locked j, locked k),
      )
    ]
Calm-IsExclusive s (releases t i calm at) =
    let (locked, one) = Calm-IsExclusive t calm in
    (
      (λ j held. ground (arith, held, at, one i j)),
      λ j k held held'. ground (arith, held, held', one j k),
    )
