-- ===== src/Pmm/Frame.antt =====
-- `AllocFirstFrame` and `FreeFrame`: which pages change, what is zeroed, and the invariant.
use mathlib.Core.Path.{subst}
use vardar_os.Prelude.{
  Bool, Option, ap, arith, false, inl, inr, int_pattern, none, not, refl, some, sym, true, u64, ℕ,
  ◌&&◌, ◌*◌, ◌+◌, ◌-◌, ◌/◌, ◌<◌, ◌==◌, ◌||◌, ◌∙◌, ◌≡◌, ◌≢◌, ◌≤◌, ◌⊎◌,
}
use vardar_os.Memory.{IsBytes, write8}
use vardar_os.Utils.String.Copy.{memset_lem}
use vardar_os.Pmm.{
  Pmm, alloc_first_frame, clear, find_free, frame_size, free_frame, hand_out, page_is_used,
  set_page_free, set_page_used, take_frame,
}
use vardar_os.Pmm.Bitmap.{
  byte_of, page_is_used-clear, page_is_used-set_page_free, page_is_used-set_page_used,
  page_is_used_cong,
}
use vardar_os.Pmm.Valid.{IsValid, free_page_apart}
use vardar_os.Memory.Laws.{write8-IsBytes}
use vardar_os.Pmm.Search.{Outcome, find_free_lem}

-- `frame` is a free page of `s` that `t` has handed out: marked used, and zeroed.
pub record IsAllocated (s : Pmm) (frame : ℕ) (t : Pmm) : Type 0 where
  pub page : ℕ
  pub at_page : frame ≡ page * frame_size
  pub inside : page < s.mem_map.num_entries
  pub was_free : page_is_used s page ≡ false
  pub bits :
      (j : ℕ) → j < 8 * s.mem_map.bitmap_size → page_is_used t j ≡ (page == j || page_is_used s j)
  pub zeroed : (b : ℕ) → frame ≤ b → b < frame + frame_size → t.memory b ≡ 0
  pub elsewhere :
      (b : ℕ)
      → (b < frame) ⊎ (frame + frame_size ≤ b)
      → (b < s.mem_map.bitmap) ⊎ (s.mem_map.bitmap + s.mem_map.bitmap_size ≤ b)
      → t.memory b ≡ s.memory b
  pub mem_map : t.mem_map ≡ record (s.mem_map) { last_used = page }

pub set_page_used-IsBytes :
    (s : Pmm) (i : ℕ) → IsBytes s.memory → IsBytes (set_page_used s i).memory
unfolding set_page_used
set_page_used-IsBytes s i h = write8-IsBytes s.memory (byte_of s i) _ h

pub set_page_free-IsBytes :
    (s : Pmm) (i : ℕ) → IsBytes s.memory → IsBytes (set_page_free s i).memory
unfolding set_page_free
set_page_free-IsBytes s i h = write8-IsBytes s.memory (byte_of s i) _ h

pub clear-IsBytes : (s : Pmm) (at len : ℕ) → IsBytes s.memory → IsBytes (clear s at len).memory
unfolding clear
clear-IsBytes s at len h b = ground (arith, memset_lem len s.memory at 0 b, h b)

pub set_page_used-mem_map : (s : Pmm) (i : ℕ) → (set_page_used s i).mem_map ≡ s.mem_map
unfolding set_page_used
set_page_used-mem_map s i = refl

-- The state of `AllocFirstFrame` when it calls `memset`.
abbrev marked : Pmm → ℕ → Pmm
marked s i = record (set_page_used s i) {
  mem_map = record ((set_page_used s i).mem_map) { last_used = i };
}

page_is_used-marked :
    (s : Pmm) (i j : ℕ)
    → IsBytes s.memory
    → page_is_used (marked s i) j ≡ (i == j || page_is_used s j)
page_is_used-marked s i j h =
    page_is_used_cong (set_page_used s i) (marked s i) j refl refl
    ∙ page_is_used-set_page_used s i j h

clear_at : (s : Pmm) (at len b : ℕ) → at ≤ b → b < at + len → (clear s at len).memory b ≡ 0
unfolding clear
clear_at s at len b p q = ground (arith, memset_lem len s.memory at 0 b)

clear_outside :
    (s : Pmm) (at len b : ℕ) → (b < at) ⊎ (at + len ≤ b) → (clear s at len).memory b ≡ s.memory b
unfolding clear
clear_outside s at len b h = ground (arith, memset_lem len s.memory at 0 b)

set_page_used_outside :
    (s : Pmm) (i b : ℕ) → b ≢ byte_of s i → (set_page_used s i).memory b ≡ s.memory b
unfolding set_page_used write8
set_page_used_outside s i b h = ground arith

pub take_frame-IsAllocated :
    {s : Pmm} (v : IsValid s) (i : ℕ)
    → page_is_used s i ≡ false
    → i < s.mem_map.num_entries
    → IsAllocated s (take_frame s i).0 (take_frame s i).1
unfolding take_frame
take_frame-IsAllocated {s} v i unused h =
    let frame : u64 (i * frame_size) ≡ i * frame_size = omega (arith, v.small) in
    record {
      page = i;
      at_page = frame;
      inside = h;
      was_free = unused;
      bits = λ j p.
          page_is_used-clear (marked s i) (u64 (i * frame_size)) frame_size j
            (ground (arith, frame, free_page_apart v i j unused p, set_page_used-mem_map s i))
          ∙ page_is_used-marked s i j v.bytes;
      elsewhere = λ b p q.
          clear_outside (marked s i) (u64 (i * frame_size)) frame_size b (ground (arith, frame))
          ∙ set_page_used_outside s i b (λ e. omega (arith, v.covers));
      zeroed = λ b p q. clear_at (marked s i) (u64 (i * frame_size)) frame_size b p q;
      mem_map = unfold set_page_used clear in refl;
    }

-- The state after an allocation is valid again.
pub IsAllocated-IsValid :
    {s : Pmm} {frame : ℕ} {t : Pmm}
    → IsValid s
    → IsBytes t.memory
    → IsAllocated s frame t
    → IsValid t
IsAllocated-IsValid {s} {t} v bytes a = record {
  bytes = bytes;
  small = ground (arith, v.small, a.mem_map);
  covers = ground (arith, v.covers, a.mem_map);
  last_in = ground (arith, a.inside, a.mem_map);
  placed = ground (arith, v.placed, a.mem_map);
  reserved = λ k h.
      ground
        (arith, a.mem_map, a.bits ((s.mem_map.bitmap + k) / frame_size), v.reserved k, v.placed);
}

pub take_frame-IsBytes : (s : Pmm) (i : ℕ) → IsBytes s.memory → IsBytes (take_frame s i).1.memory
unfolding take_frame
take_frame-IsBytes s i h =
    clear-IsBytes (marked s i) (u64 (i * frame_size)) frame_size (set_page_used-IsBytes s i h)

-- What a run of `AllocFirstFrame` from `s` comes to.
abbrev pub Allocates : Pmm → Option (ℕ × Pmm) → Type 0
Allocates s result =
    (frame : ℕ) × (t : Pmm) × (result ≡ some (frame, t))
    × IsValid t
    × (IsAllocated s frame t
        ⊎ ((frame ≡ 0)
            × (t ≡ s)
            × ((j : ℕ)
                → j < s.mem_map.num_entries
                → j ≢ s.mem_map.last_used
                → page_is_used s j ≡ true)))

handed :
    {s : Pmm} (v : IsValid s) (r : Option ℕ)
    → Outcome s (s.mem_map.last_used + 1) r
    → Allocates s (some (hand_out s r))
unfolding hand_out
handed {s} v none all = (0, s, refl, v, inr (refl, refl, λ j h ne. all j (omega arith)))
handed {s} v (some i) (unused, inside, ne) =
    let a = take_frame-IsAllocated v i unused inside in
    (
      (take_frame s i).0,
      (take_frame s i).1,
      refl,
      IsAllocated-IsValid v (take_frame-IsBytes s i v.bytes) a,
      inl a,
    )

-- On a valid bitmap whose last used page is not the last of all, `AllocFirstFrame` returns, within
-- as many rounds as there are pages: either a page that was free, now marked used and zeroed, with
-- every other page of the bitmap as it was, or `NULL` and the state as it was, and then every page
-- but the last used one is used. The new state is valid too.
pub alloc_first_frame_lem :
    (fuel : ℕ) (s : Pmm)
    → IsValid s
    → s.mem_map.last_used + 1 < s.mem_map.num_entries
    → s.mem_map.num_entries ≤ fuel
    → Allocates s (alloc_first_frame fuel s)
unfolding alloc_first_frame
alloc_first_frame_lem fuel s v room enough =
    let start : int_pattern (s.mem_map.last_used + 1) ≡ s.mem_map.last_used + 1 =
      ground (arith, v.small) in
    let (r, run, out) =
      find_free_lem s fuel (s.mem_map.last_used + 1) (s.mem_map.num_entries - 1) v.small v.last_in
        room (omega (arith, v.last_in)) (omega (arith, v.last_in)) in
    subst
      (λ (o : Option (Option ℕ)).
        Allocates s (elim o [ none ↦ none | some q ↦ some (hand_out s q) ]))
      (sym (ap (find_free fuel s) start ∙ run)) (handed v r out)

-- `FreeFrame` of a page that shares no byte with the bitmap frees exactly this page in the bitmap.
pub free_frame_lem :
    (s : Pmm) (page : ℕ)
    → IsBytes s.memory
    → ((k : ℕ) → k < s.mem_map.bitmap_size → (s.mem_map.bitmap + k) / frame_size ≢ page)
    → (j : ℕ) → j < 8 * s.mem_map.bitmap_size
    → page_is_used (free_frame s (page * frame_size)) j ≡ (not (page == j) && page_is_used s j)
unfolding free_frame
free_frame_lem s page h apart j p =
    let at_page : page * frame_size / frame_size ≡ page = omega arith in
    rw at_page (
      page_is_used-set_page_free (clear s (page * frame_size) frame_size) page j
        (clear-IsBytes s (page * frame_size) frame_size h)
      ∙ ap (λ (b : Bool). not (page == j) && b)
          (page_is_used-clear s (page * frame_size) frame_size j (ground (arith, apart (j / 8)))))

pub free_frame-mem_map : (s : Pmm) (frame : ℕ) → (free_frame s frame).mem_map ≡ s.mem_map
unfolding free_frame clear set_page_free
free_frame-mem_map s frame = refl
