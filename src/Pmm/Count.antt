-- ===== src/Pmm/Count.antt =====
-- `NumFreeFrames` against the bitmap: an allocation lowers it by one, a release raises it by one.
use vardar_os.Prelude.{
  Bool-cases, arith, false, inl, inr, refl, suc, true, zero, ℕ, ◌*◌, ◌+◌, ◌/◌, ◌<◌, ◌==◌, ◌||◌, ◌≡◌,
  ◌≢◌, ◌≤◌,
}
use vardar_os.Memory.{IsBytes}
use vardar_os.Pmm.{Pmm, count_free, frame_size, free_frame, num_free_frames, page_is_used}
use vardar_os.Pmm.Valid.{IsValid}
use vardar_os.Pmm.Frame.{IsAllocated, free_frame-mem_map, free_frame_lem}

pub count_free_cong :
    (s t : Pmm) (i left : ℕ)
    → ((j : ℕ) → i ≤ j → j < i + left → page_is_used t j ≡ page_is_used s j)
    → count_free t i left ≡ count_free s i left
unfolding count_free
count_free_cong s t i zero same = refl
count_free_cong s t i (suc left) same =
    ground (
      arith,
      same i,
      count_free_cong s t (i + 1) left (λ j p q. same j (omega arith) (omega arith)),
    )

-- Where every page is free, all of them count.
pub count_free_all :
    (s : Pmm) (i left : ℕ)
    → ((j : ℕ) → i ≤ j → j < i + left → page_is_used s j ≡ false)
    → count_free s i left ≡ left
unfolding count_free
count_free_all s i zero free = refl
count_free_all s i (suc left) free =
    ground
      (arith, free i, count_free_all s (i + 1) left (λ j p q. free j (omega arith) (omega arith)))

-- A run of free pages counts.
pub count_free_run :
    (s : Pmm) (p n i left : ℕ)
    → i ≤ p
    → p + n ≤ i + left
    → ((j : ℕ) → p ≤ j → j < p + n → page_is_used s j ≡ false)
    → n ≤ count_free s i left
unfolding count_free
count_free_run s p n i zero le fits free = omega (arith, le, fits)
count_free_run s p zero i (suc left) le fits free = omega arith
count_free_run s p (suc n) i (suc left) le fits free = elim (Bool-cases (i == p)) [
  | inl here ↦
      let rest =
        count_free_run s (p + 1) n (i + 1) left (ground (arith, here)) (omega (arith, fits))
          (λ j lo hi. free j (omega (arith, lo)) (omega (arith, hi))) in
      ground (arith, here, free i, rest)
  | inr before ↦
      let rest =
        count_free_run s p (suc n) (i + 1) left (ground (arith, before, le)) (omega (arith, fits))
          free in
      ground (arith, rest)
]

-- Where just page `p` goes from free to used, the count falls by one.
count_free_mark :
    (s t : Pmm) (p i left : ℕ)
    → page_is_used s p ≡ false
    → i ≤ p
    → p < i + left
    → ((j : ℕ) → i ≤ j → j < i + left → page_is_used t j ≡ (p == j || page_is_used s j))
    → count_free t i left + 1 ≡ count_free s i left
unfolding count_free
count_free_mark s t p i zero unused lo hi bits = absurd (omega arith)
count_free_mark s t p i (suc left) unused lo hi bits = elim (Bool-cases (p == i)) [
  | inl here ↦
      let same =
        count_free_cong s t (i + 1) left
          (λ j a b. ground (arith, bits j (omega arith) (omega arith))) in
      ground (arith, bits i, same)
  | inr later ↦
      let rest =
        count_free_mark s t p (i + 1) left unused (ground arith) (omega arith)
          (λ j a b. bits j (omega arith) (omega arith)) in
      ground (arith, bits i, rest)
]

-- An allocation takes one page out of the free ones.
pub num_free_frames-IsAllocated :
    {s : Pmm} {frame : ℕ} {t : Pmm}
    → IsValid s
    → IsAllocated s frame t
    → num_free_frames t + 1 ≡ num_free_frames s
unfolding num_free_frames
num_free_frames-IsAllocated {s} {t} v a = ground (
  arith,
  a.mem_map,
  count_free_mark s t a.page 0 s.mem_map.num_entries a.was_free (omega arith)
      (omega (arith, a.inside)) (λ j p q. a.bits j (omega (arith, v.covers))),
)

-- `FreeFrame` of a used page within the count, whose bytes are not the bitmap's, adds one page.
pub num_free_frames-free_frame :
    (s : Pmm) (page : ℕ)
    → IsBytes s.memory
    → s.mem_map.num_entries < 8 * s.mem_map.bitmap_size
    → ((k : ℕ) → k < s.mem_map.bitmap_size → (s.mem_map.bitmap + k) / frame_size ≢ page)
    → page < s.mem_map.num_entries
    → page_is_used s page ≡ true
    → num_free_frames (free_frame s (page * frame_size)) ≡ num_free_frames s + 1
unfolding num_free_frames
num_free_frames-free_frame s page h covers apart inside used =
    let t = free_frame s (page * frame_size) in
    let bits =
      λ (j : ℕ) (q : j < s.mem_map.num_entries). free_frame_lem s page h apart j (omega arith) in
    ground (
      arith,
      free_frame-mem_map s (page * frame_size),
      count_free_mark t s page 0 s.mem_map.num_entries (ground (arith, bits page inside))
          (omega arith) (omega arith) (λ j p q. ground (arith, bits j (omega arith))),
    )
