-- ===== src/Vmm/Multiple.antt =====
-- The loop of `MapMultiple` over a range of pages, with the frames that it takes.
use mathlib.Core.Path.{subst}
use vardar_os.Prelude.{
  Bool, Option, add64, arith, inl, inr, lt→ltb, refl, some, suc, true, zero, ℕ, ◌%◌, ◌*◌, ◌+◌, ◌-◌,
  ◌/◌, ◌<◌, ◌^◌, ◌∙◌, ◌≡◌, ◌≢◌, ◌≤◌, ◌⊎◌,
}
use vardar_os.Pmm.{Pmm, frame_size}
use vardar_os.Pmm.Ahead.{free_ahead}
use vardar_os.Vmm.{get_page, map_multiple, map_page}
use vardar_os.Vmm.Tables.{IsTables}
use vardar_os.Vmm.Present.{get_page-same_tables, map_page-again}
use vardar_os.Vmm.Map.{IsMapped, map_page-IsMapped}
use vardar_os.Vmm.Growth.{IsFlags}
use vardar_os.Vmm.Range.{IsRange, IsRange-next, IsRange-none, mapped_at}

-- A round of the loop, where the page is mapped.
map_multiple_next :
    (rounds fuel root frame bound offset flags : ℕ) (s t : Pmm)
    → frame * frame_size < bound
    → frame * frame_size + frame_size < 2 ^ 64
    → map_page fuel s root (mapped_at frame offset 0) ((frame + 0) * frame_size) flags
      ≡ some (true, t)
    → map_multiple (suc rounds) fuel s root (frame * frame_size) bound offset flags
      ≡ map_multiple rounds fuel t root ((frame + 1) * frame_size) bound offset flags
unfolding map_multiple
map_multiple_next rounds fuel root frame bound offset flags s t below fits run =
    let same : frame + 0 ≡ frame = omega arith in
    let less = lt→ltb (frame * frame_size) bound below in
    let next : add64 (frame * frame_size) frame_size ≡ (frame + 1) * frame_size = omega arith in
    rw
      (
        map_multiple,
        less,
        subst
            (λ (x : ℕ).
              map_page fuel s root (add64 (x * frame_size) offset) (x * frame_size) flags
              ≡ some (true, t))
            same run,
        next,
      )
      refl

-- The borders of 2 MB between the first and the last page of a range.
abbrev borders : ℕ → ℕ → ℕ → ℕ
borders frame offset n =
    let first = (frame * frame_size + offset) / 4096 in (first + n - 1) / 512 - first / 512

-- Three frames for each border in the range, and three for its first page where that has no entry.
unfoldable Room : Pmm → ℕ → ℕ → ℕ → ℕ → ℕ → Type 0
Room s root frame offset n budget =
    (n ≡ 0)
    ⊎ ((3 * borders frame offset n + 3 ≤ budget)
        ⊎ ((get_page s.memory (root * frame_size) (mapped_at frame offset 0) ≢ 0)
            × (3 * borders frame offset n ≤ budget)))

Room-next :
    {s t : Pmm} (root frame offset n paddr budget : ℕ)
    → IsMapped s root (mapped_at frame offset 0) paddr t
    → 3 * borders frame offset (suc n) ≤ budget
    → Room t root (frame + 1) offset n budget
unfolding Room
Room-next root frame offset n paddr budget m room = elim place_of_page [
  | inl none_left ↦ inl none_left
  | inr (inl inner) ↦ inr (
      inr (
        get_page-same_tables m.tables root (mapped_at frame offset 0)
            (mapped_at (frame + 1) offset 0) m.at_root (omega (arith, inner)) m.entry,
        omega (arith, inner, room),
      ))
  | inr (inr (more, last)) ↦ inr (inl (omega (arith, more, last, room)))
]
  where
    place_of_page :
        (n ≡ 0)
        ⊎ (((frame * frame_size + offset) / 4096 % 512 < 511)
            ⊎ ((0 < n) × ((frame * frame_size + offset) / 4096 % 512 ≡ 511)))
    place_of_page = omega arith

-- What `MapPage` does with the first page of a range.
record MapsFirst (s : Pmm) (root frame offset n budget : ℕ) (result : Option (Bool × Pmm))
    : Type 0 where
  state : Pmm
  spent : ℕ
  returns : result ≡ some (true, state)
  maps : IsMapped s root (mapped_at frame offset 0) ((frame + 0) * frame_size) state
  within : spent ≤ budget
  ahead : free_ahead s ≤ free_ahead state + spent
  count : state.mem_map.num_entries ≡ s.mem_map.num_entries
  room : Room state root (frame + 1) offset n (budget - spent)

map_page-MapsFirst :
    {s : Pmm} {level : ℕ → ℕ} (w : IsTables s level) (fuel root frame offset flags n budget : ℕ)
    → level root ≡ 4
    → (frame + 0) * frame_size + flags < 2 ^ 64
    → IsFlags flags
    → Room s root frame offset (suc n) budget
    → budget ≤ free_ahead s
    → s.mem_map.num_entries < fuel
    → MapsFirst s root frame offset n budget (
        map_page fuel s
          (root * frame_size)
          (mapped_at frame offset 0)
          ((frame + 0) * frame_size)
          flags)
unfolding Room
map_page-MapsFirst w fuel root frame offset flags n budget at_root fits flagged room le f =
    let vaddr = mapped_at frame offset 0 in
    elim room [
      | inl none_left ↦ absurd (omega (arith, none_left))
      | inr (inl wide) ↦
          let (t, run, m, ahead, count) =
            map_page-IsMapped w fuel root vaddr (frame + 0) flags at_root fits flagged
              (omega (arith, wide, le)) f in
          record {
            state = t;
            spent = 3;
            returns = run;
            maps = m;
            within = omega (arith, wide);
            ahead = ahead;
            count = count;
            room = Room-next root frame offset n _ (budget - 3) m (omega (arith, wide));
          }
      | inr (inr (there, narrow)) ↦
          let (t, run, m, ahead, count) =
            map_page-again w fuel root vaddr (frame + 0) flags at_root fits flagged there in
          record {
            state = t;
            spent = 0;
            returns = run;
            maps = m;
            within = omega arith;
            ahead = omega (arith, ahead);
            count = count;
            room = Room-next root frame offset n _ (budget - 0) m (omega (arith, narrow));
          }
    ]

map_multiple-Room :
    (n rounds : ℕ) {s : Pmm} {level : ℕ → ℕ} (w : IsTables s level)
    (fuel root frame bound offset flags budget : ℕ)
    → level root ≡ 4
    → bound ≤ (frame + n) * frame_size
    → (frame + n) * frame_size < bound + frame_size
    → (frame + n) * frame_size + flags < 2 ^ 64
    → n < 2 ^ 36
    → IsFlags flags
    → Room s root frame offset n budget
    → budget ≤ free_ahead s
    → s.mem_map.num_entries < fuel
    → n < rounds
    → (t : Pmm) × (map_multiple rounds fuel s
          (root * frame_size)
          (frame * frame_size)
          bound
          offset
          flags
        ≡ some (true, t))
      × IsRange s root frame offset n budget t
unfolding map_multiple
map_multiple-Room n zero w fuel root frame bound offset flags budget at_root hi lo fits small
      flagged room le f enough =
    absurd (omega arith)
map_multiple-Room zero (suc rounds) {s} w fuel root frame bound offset flags budget at_root hi lo
      fits small flagged room le f enough =
    (s, ground (arith, hi), IsRange-none w root frame offset budget at_root)
map_multiple-Room (suc n) (suc rounds) {s} w fuel root frame bound offset flags budget at_root hi lo
      fits small flagged room le f enough =
    let p =
      map_page-MapsFirst w fuel root frame offset flags n budget at_root (omega arith) flagged room
        le f in
    let m = p.maps in
    let (u, rest, r) =
      map_multiple-Room n rounds m.tables fuel root (frame + 1) bound offset flags
        (budget - p.spent) m.at_root (omega arith) (omega arith) (omega arith) (omega arith) flagged
        p.room (omega (arith, p.ahead, p.within, le)) (omega (arith, p.count)) (omega arith) in
    let total : p.spent + (budget - p.spent) ≡ budget = omega (arith, p.within) in
    (
      u,
      map_multiple_next rounds fuel (root * frame_size) frame bound offset flags s p.state
            (omega arith) (omega arith) p.returns
          ∙ rest,
      subst (λ (x : ℕ). IsRange s root frame offset (suc n) x u) total
          (IsRange-next root frame offset n p.spent (budget - p.spent) small m p.ahead p.count r),
    )

-- In a tree of page tables with `spent` free frames ahead, three for each of the parts of 2 MB that `n`
-- pages may lie in, `MapMultiple` of the `n` pages from a page up to a bound succeeds. Afterwards the
-- tree is a tree of tables, `VAddrToPAddr` translates each of the pages, moved by the offset, to itself,
-- and translates as before each address that had an entry and is in none of these pages; and at most
-- `spent` frames are used.
pub map_multiple-IsRange :
    {s : Pmm} {level : ℕ → ℕ} (w : IsTables s level)
    (n rounds fuel root frame bound offset flags spent : ℕ)
    → level root ≡ 4
    → bound ≤ (frame + n) * frame_size
    → (frame + n) * frame_size < bound + frame_size
    → (frame + n) * frame_size + flags < 2 ^ 64
    → n < 2 ^ 36
    → IsFlags flags
    → spent ≡ 3 * ((n + 1022) / 512)
    → spent ≤ free_ahead s
    → s.mem_map.num_entries < fuel
    → n < rounds
    → (t : Pmm) × (map_multiple rounds fuel s
          (root * frame_size)
          (frame * frame_size)
          bound
          offset
          flags
        ≡ some (true, t))
      × IsRange s root frame offset n spent t
unfolding Room
map_multiple-IsRange w n rounds fuel root frame bound offset flags spent at_root hi lo fits small
      flagged frames room f enough =
    map_multiple-Room n rounds w fuel root frame bound offset flags spent at_root hi lo fits small
      flagged
      (elim none_or_some [ inl e ↦ inl e | inr more ↦ inr (inl (omega (arith, frames, more))) ])
      room f enough
  where
    none_or_some : (n ≡ 0) ⊎ (0 < n)
    none_or_some = omega arith
