-- ===== src/Pmm/History.antt =====
-- The bitmap over any sequence of calls of `AllocFirstFrame` and `FreeFrame`.
use vardar_os.Prelude.{
  Bool, List, [], arith, false, if◌then◌else◌, inl, inr, not, refl, some, sym, true, ℕ, ◌&&◌, ◌*◌,
  ◌+◌, ◌/◌, ◌<◌, ◌==◌, ◌||◌, ◌∙◌, ◌∷◌, ◌≡◌, ◌≢◌, ◌≤◌,
}
use vardar_os.Pmm.{Pmm, alloc_first_frame, clear, frame_size, free_frame, page_is_used}
use mathlib.Core.Path.{subst}
use mathlib.Core.Option.{some-injective}
use vardar_os.Memory.{IsBytes}
use vardar_os.Pmm.Valid.{IsValid}
use vardar_os.Pmm.Frame.{
  IsAllocated, alloc_first_frame_lem, clear-IsBytes, free_frame-mem_map, free_frame_lem,
  set_page_free-IsBytes,
}

-- Page `p` is in the list.
unfoldable pub holds : ℕ → List ℕ → Bool
holds p [] = false
holds p (q ∷ held) = q == p || holds p held

-- The list without page `p`.
unfoldable pub give_back : ℕ → List ℕ → List ℕ
give_back p [] = []
give_back p (q ∷ held) = let rest = give_back p held in if q == p then rest else q ∷ rest

-- No page is in the list twice.
unfoldable pub is_distinct : List ℕ → Bool
is_distinct [] = true
is_distinct (q ∷ held) = not (holds q held) && is_distinct held

-- The pages held after a call of `AllocFirstFrame` that returned `frame`, where 0 is `NULL`.
unfoldable pub grant : ℕ → List ℕ → List ℕ
grant frame held = if frame == 0 then held else (frame / frame_size) ∷ held

grant_null : (held : List ℕ) → grant 0 held ≡ held
unfolding grant
grant_null held = refl

-- Calls from `start`, with the pages that their callers hold: what `AllocFirstFrame` returns is held,
-- and `FreeFrame` is called for pages that are held.
pub data FrameRun (start : Pmm) : List ℕ → Pmm → Type 0 where
  here : FrameRun start [] start
  granted :
      {held : List ℕ} {s t : Pmm} (fuel frame : ℕ)
      → FrameRun start held s
      → s.mem_map.last_used + 1 < s.mem_map.num_entries
      → s.mem_map.num_entries ≤ fuel
      → alloc_first_frame fuel s ≡ some (frame, t)
      → FrameRun start (grant frame held) t
  freed :
      {held : List ℕ} {s : Pmm} (page : ℕ)
      → FrameRun start held s
      → holds page held ≡ true
      → FrameRun start (give_back page held) (free_frame s (page * frame_size))

holds-give_back :
    (p j : ℕ) (held : List ℕ) → holds j (give_back p held) ≡ (not (p == j) && holds j held)
unfolding holds give_back
holds-give_back p j [] = ground arith
holds-give_back p j (q ∷ held) = ground (arith, holds-give_back p j held)

is_distinct-give_back :
    (p : ℕ) (held : List ℕ) → is_distinct held ≡ true → is_distinct (give_back p held) ≡ true
unfolding is_distinct give_back
is_distinct-give_back p [] d = refl
is_distinct-give_back p (q ∷ held) d =
    ground (arith, d, is_distinct-give_back p held, holds-give_back p q held)

-- The pages used are those used at the start and those held, each once.
pub record IsShared (start : Pmm) (held : List ℕ) (s : Pmm) : Type 0 where
  pub valid : IsValid s
  pub same_count : s.mem_map.num_entries ≡ start.mem_map.num_entries
  pub same_size : s.mem_map.bitmap_size ≡ start.mem_map.bitmap_size
  pub same_bitmap : s.mem_map.bitmap ≡ start.mem_map.bitmap
  pub distinct : is_distinct held ≡ true
  pub unused_before :
      (j : ℕ)
      → holds j held ≡ true
      → (j < start.mem_map.num_entries) × (page_is_used start j ≡ false)
  pub bits :
      (j : ℕ)
      → j < 8 * start.mem_map.bitmap_size
      → page_is_used s j ≡ (page_is_used start j || holds j held)

free_frame-IsBytes : (s : Pmm) (frame : ℕ) → IsBytes s.memory → IsBytes (free_frame s frame).memory
unfolding free_frame
free_frame-IsBytes s frame h =
    set_page_free-IsBytes (clear s frame frame_size) (frame / frame_size)
      (clear-IsBytes s frame frame_size h)

module _ (start : Pmm) (ready : IsValid start) (first : page_is_used start 0 ≡ true) where
  IsShared-granted :
      {held : List ℕ} {s t : Pmm} {frame : ℕ}
      → IsShared start held s
      → IsValid t
      → IsAllocated s frame t
      → IsShared start (grant frame held) t
  unfolding grant holds is_distinct
  IsShared-granted {held} {s} {t} {frame} i v a =
      let inside : a.page < 8 * start.mem_map.bitmap_size =
        omega (arith, a.inside, ready.covers, i.same_count) in
      let unheld = i.bits a.page inside in
      let nonzero : a.page ≢ 0 = λ e. ground (arith, e, first, a.was_free, unheld) in
      let list : grant frame held ≡ (a.page ∷ held) = ground (arith, a.at_page, nonzero) in
      rw list (record {
        valid = v;
        same_count = ground (arith, a.mem_map, i.same_count);
        same_size = ground (arith, a.mem_map, i.same_size);
        same_bitmap = ground (arith, a.mem_map, i.same_bitmap);
        distinct = ground (arith, unheld, a.was_free, i.distinct);
        unused_before = λ j at.
            ground (arith, unheld, a.was_free, a.inside, i.same_count, i.unused_before j, at);
        bits = λ j lt. ground (arith, a.bits j, i.same_size, i.bits j, lt);
      })

  IsShared-released :
      {held : List ℕ} {s : Pmm} (page : ℕ)
      → IsShared start held s
      → holds page held ≡ true
      → IsShared start (give_back page held) (free_frame s (page * frame_size))
  IsShared-released {held} {s} page i at =
      let (inside, unused) = i.unused_before page at in
      let t = free_frame s (page * frame_size) in
      let same = free_frame-mem_map s (page * frame_size) in
      let apart : (k : ℕ) → k < s.mem_map.bitmap_size → (s.mem_map.bitmap + k) / frame_size ≢ page =
        λ k lt e. ground (arith, e, unused, i.same_bitmap, i.same_size, ready.reserved k, lt) in
      let bits = free_frame_lem s page i.valid.bytes apart in
      record {
        valid = record {
          bytes = free_frame-IsBytes s (page * frame_size) i.valid.bytes;
          small = ground (arith, same, i.valid.small);
          covers = ground (arith, same, i.valid.covers);
          last_in = ground (arith, same, i.valid.last_in);
          placed = ground (arith, same, i.valid.placed);
          reserved = λ k lt. ground (
            arith,
            same,
            bits ((s.mem_map.bitmap + k) / frame_size),
            i.valid.reserved k,
            i.valid.placed,
            apart k,
          );
        };
        same_count = ground (arith, same, i.same_count);
        same_size = ground (arith, same, i.same_size);
        same_bitmap = ground (arith, same, i.same_bitmap);
        distinct = is_distinct-give_back page held i.distinct;
        unused_before = λ j h. i.unused_before j (ground (arith, h, holds-give_back page j held));
        bits = λ j lt.
            ground (arith, bits j, i.bits j, i.same_size, lt, holds-give_back page j held, unused);
      }

  -- From a valid bitmap whose page 0 is used, over any sequence of calls of `AllocFirstFrame`, while the
  -- last used page is not the last of all, and of `FreeFrame` of pages that are held: the bitmap stays
  -- valid, no page is held twice, every page that is held was free at the start, and the pages used are
  -- exactly those used at the start and those that are held.
  pub FrameRun-IsShared : {held : List ℕ} {s : Pmm} → FrameRun start held s → IsShared start held s
  unfolding holds is_distinct
  FrameRun-IsShared here = record {
    valid = ready;
    same_count = refl;
    same_size = refl;
    same_bitmap = refl;
    distinct = refl;
    unused_before = λ j h. ground (arith, h);
    bits = λ j lt. ground arith;
  }
  FrameRun-IsShared (granted {held} {s} {t} fuel frame run room enough returns) =
      let i = FrameRun-IsShared run in
      let (frame', t', returns', v, out) = alloc_first_frame_lem fuel s i.valid room enough in
      let shared' : IsShared start (grant frame' held) t' = elim out [
        | inl a ↦ IsShared-granted i v a
        | inr (null, kept, all) ↦ rw (null, kept, grant_null held) i
      ] in
      subst (λ r. IsShared start (grant r.0 held) r.1)
        (some-injective (frame', t') (frame, t) (sym returns' ∙ returns)) shared'
  FrameRun-IsShared (freed page run at) = IsShared-released page (FrameRun-IsShared run) at
