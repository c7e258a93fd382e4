-- ===== src/Pmm/Ahead.antt =====
-- `AllocFirstFrame` while free pages remain between the last used page and the end: it takes the
-- first of them, without going round.
use mathlib.Core.Path.{subst}
use vardar_os.Prelude.{
  Bool-cases, Option, ap, arith, false, inl, inr, int_pattern, none, refl, some, suc, sym, zero, ℕ,
  ◌+◌, ◌-◌, ◌<◌, ◌^◌, ◌∙◌, ◌≡◌, ◌≢◌, ◌≤◌,
}
use vardar_os.Pmm.{
  MemMap, Pmm, alloc_first_frame, clear, count_free, find_free, hand_out, page_is_used, take_frame,
}
use vardar_os.Pmm.Valid.{IsValid}
use vardar_os.Pmm.Search.{next_index}
use vardar_os.Pmm.Frame.{
  IsAllocated, IsAllocated-IsValid, take_frame-IsAllocated, take_frame-IsBytes,
}
use vardar_os.Pmm.Count.{count_free_cong}

-- The free pages behind page `i`, below `num_entries`.
abbrev pub free_behind : Pmm → ℕ → ℕ
free_behind s i = count_free s (i + 1) (s.mem_map.num_entries - (i + 1))

abbrev pub free_ahead : Pmm → ℕ
free_ahead s = free_behind s s.mem_map.last_used

-- What the search finds from `i`: the first free page, and how many are left behind it.
abbrev FoundAhead : ℕ → Pmm → ℕ → ℕ → Type 0
FoundAhead fuel s i left =
    (k : ℕ) × (find_free fuel s i ≡ some (some k))
    × (i ≤ k)
    × (k < i + left)
    × (page_is_used s k ≡ false)
    × (count_free s (k + 1) (i + left - (k + 1)) + 1 ≡ count_free s i left)

count_pos : (s : Pmm) (i left : ℕ) → 1 ≤ count_free s i left → 1 ≤ left
unfolding count_free
count_pos s i zero h = absurd (omega arith)
count_pos s i (suc left) h = omega arith

find_free_ahead :
    (left fuel : ℕ) (s : Pmm) (i : ℕ)
    → s.mem_map.num_entries < 2 ^ 31
    → i + left ≡ s.mem_map.num_entries
    → s.mem_map.last_used < i
    → 1 ≤ count_free s i left
    → left < fuel
    → FoundAhead fuel s i left
unfolding find_free count_free
find_free_ahead zero fuel s i small e past some_free f = absurd (omega arith)
find_free_ahead (suc left) zero s i small e past some_free f = absurd (omega arith)
find_free_ahead (suc left) (suc fuel) s i small e past some_free f =
    elim (Bool-cases (page_is_used s i)) [
      | inr unused ↦
          let same : i + suc left - (i + 1) ≡ left = omega arith in
          (i, ground arith, omega arith, omega arith, unused, rw same (ground arith))
      | inl used ↦
          let (k, run, lo, hi, unused, count) =
            find_free_ahead left fuel s (i + 1) small (omega arith) (omega arith) (ground arith)
              (omega arith) in
          let same : i + suc left - (k + 1) ≡ i + 1 + left - (k + 1) = omega arith in
          (
            k,
            ground (
              arith,
              next_index i s.mem_map.num_entries,
              run,
              count_pos s (i + 1) left (ground arith),
            ),
            omega arith,
            omega arith,
            unused,
            rw same (ground (arith, count)),
          )
    ]

left_behind :
    {s : Pmm} {frame : ℕ} {t : Pmm} (v : IsValid s) (a : IsAllocated s frame t)
    → free_ahead t ≡ free_behind s a.page
left_behind {s} {t} v a = simp a.mem_map (
    count_free_cong s t (a.page + 1) (s.mem_map.num_entries - (a.page + 1))
      (λ j p q. ground (arith, a.bits j (omega (arith, v.covers)))))

take_frame-ne :
    {s : Pmm} (v : IsValid s) (k : ℕ)
    → s.mem_map.last_used < k
    → k < s.mem_map.num_entries
    → (take_frame s k).0 ≢ 0
unfolding take_frame
take_frame-ne v k lo hi = omega (arith, v.small)

-- What a run of `AllocFirstFrame` with a free page ahead comes to.
abbrev pub TakesAhead : Pmm → Option (ℕ × Pmm) → Type 0
TakesAhead s result =
    (frame : ℕ) × (t : Pmm) × (result ≡ some (frame, t))
    × IsValid t
    × IsAllocated s frame t
    × (free_ahead t + 1 ≡ free_ahead s)
    × (frame ≢ 0)

take_frame-last : (s : Pmm) (k : ℕ) → (take_frame s k).1.mem_map.last_used ≡ k
unfolding take_frame clear
take_frame-last s k = refl

take_frame-TakesAhead :
    {s : Pmm} (v : IsValid s) (k : ℕ)
    → page_is_used s k ≡ false
    → k < s.mem_map.num_entries
    → s.mem_map.last_used < k
    → free_behind s k + 1 ≡ free_ahead s
    → TakesAhead s (some (take_frame s k))
take_frame-TakesAhead {s} v k unused hi lo count =
    let a = take_frame-IsAllocated v k unused hi in
    let e : a.page ≡ k = sym (ap (λ (m : MemMap). m.last_used) a.mem_map) ∙ take_frame-last s k in
    (
      (take_frame s k).0,
      (take_frame s k).1,
      refl,
      IsAllocated-IsValid v (take_frame-IsBytes s k v.bytes) a,
      a,
      ap (λ (x : ℕ). x + 1) (left_behind v a ∙ ap (free_behind s) e) ∙ count,
      λ e. take_frame-ne v k lo hi e,
    )

-- Where a free page lies ahead of the last used one, `AllocFirstFrame` returns the first of them,
-- and one fewer lies ahead afterwards.
pub alloc_first_frame_ahead :
    (fuel : ℕ) (s : Pmm)
    → IsValid s
    → 1 ≤ free_ahead s
    → s.mem_map.num_entries < fuel
    → TakesAhead s (alloc_first_frame fuel s)
unfolding alloc_first_frame hand_out
alloc_first_frame_ahead fuel s v some_free f =
    let after = s.mem_map.last_used + 1 in
    let limit = s.mem_map.num_entries in
    let start : int_pattern after ≡ after = ground (arith, v.small, v.last_in) in
    let room : 1 ≤ limit - after = count_pos s after (limit - after) some_free in
    let (k, run, lo, hi, unused, count) =
      find_free_ahead (limit - after) fuel s after v.small (omega arith) (omega arith) some_free
        (omega arith) in
    let e : after + (limit - after) - (k + 1) ≡ limit - (k + 1) = omega arith in
    subst
      (λ (o : Option (Option ℕ)).
        TakesAhead s
          (elim o as (λ x. Option (ℕ × Pmm)) [ none ↦ none | some r ↦ some (hand_out s r) ]))
      (sym (ap (find_free fuel s) start ∙ run))
      (take_frame-TakesAhead v k unused (omega arith) (omega arith) (rw e at count))
