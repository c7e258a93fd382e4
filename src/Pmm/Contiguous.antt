-- ===== src/Pmm/Contiguous.antt =====
-- `AllocContiguous`: the pages that a returned chunk stands on, and those that become used.
use vardar_os.Prelude.{
  Bool-cases, Option-cases, arith, false, inl, inr, leb, ltb, none, refl, some, suc, true, u64,
  zero, ℕ, ◌%◌, ◌&&◌, ◌*◌, ◌+◌, ◌/◌, ◌<◌, ◌==◌, ◌^◌, ◌||◌, ◌∙◌, ◌≡◌, ◌≤◌, ◌⊎◌,
}
use vardar_os.Memory.{IsBytes}
use vardar_os.Pmm.{
  Pmm, alloc_contiguous, clear, contiguous_loop, first_used, frame_size, page_is_used, pages_of,
  set_page_used, set_used_from, take_chunk,
}
use vardar_os.Pmm.Bitmap.{
  byte_of, page_is_used-clear, page_is_used-set_page_used, page_is_used_cong,
}
use vardar_os.Pmm.Valid.{IsValid}
use vardar_os.Pmm.Frame.{set_page_used-IsBytes, set_page_used-mem_map}
use vardar_os.Pmm.Search.{mod_small}

first_used-none :
    (s : Pmm) (tail left : ℕ)
    → first_used s tail left ≡ none
    → (j : ℕ) → tail ≤ j
    → j < tail + left
    → page_is_used s j ≡ false
unfolding first_used
first_used-none s tail zero h j p q = absurd (omega arith)
first_used-none s tail (suc left) h j p q = elim (Bool-cases (page_is_used s tail)) [
  | inl used ↦ ground arith
  | inr unused ↦ elim (Bool-cases (j == tail)) [
    | inl here ↦ ground arith
    | inr later ↦ first_used-none s (tail + 1) left (ground arith) j (ground arith) (omega arith)
  ]
]

set_used_from-bits :
    (s : Pmm) (i left j : ℕ)
    → IsBytes s.memory
    → page_is_used (set_used_from s i left) j ≡ ((leb i j && ltb j (i + left)) || page_is_used s j)
unfolding set_used_from
set_used_from-bits s i zero j h = ground arith
set_used_from-bits s i (suc left) j h = ground (
  arith,
  set_used_from-bits (set_page_used s i) (i + 1) left j (set_page_used-IsBytes s i h),
  page_is_used-set_page_used s i j h,
)

set_used_from-mem_map : (s : Pmm) (i left : ℕ) → (set_used_from s i left).mem_map ≡ s.mem_map
unfolding set_used_from
set_used_from-mem_map s i zero = refl
set_used_from-mem_map s i (suc left) =
    set_used_from-mem_map (set_page_used s i) (i + 1) left ∙ set_page_used-mem_map s i

-- `frame` is the first of `pages` free pages of `s`, and the one behind them is free too; in `t`
-- these and one more are used, and no other page of the bitmap changed.
pub record IsChunk (s : Pmm) (pages frame : ℕ) (t : Pmm) : Type 0 where
  pub head : ℕ
  pub at_head : frame ≡ u64 (head * frame_size)
  pub was_free : (j : ℕ) → head ≤ j → j < head + pages + 1 → page_is_used s j ≡ false
  pub bits :
      (j : ℕ)
      → j < 8 * s.mem_map.bitmap_size
      → page_is_used t j ≡ ((leb head j && ltb j (head + (pages + 2))) || page_is_used s j)

-- The cleared bytes of the chunk are no bytes of the bitmap.
chunk_apart :
    {s : Pmm} (v : IsValid s) (head pages j : ℕ)
    → ((i : ℕ) → head ≤ i → i < head + pages + 1 → page_is_used s i ≡ false)
    → j < 8 * s.mem_map.bitmap_size
    → (byte_of s j < head * frame_size) ⊎ (head * frame_size + frame_size * pages ≤ byte_of s j)
chunk_apart {s} v head pages j unused h =
    let p = (s.mem_map.bitmap + j / 8) / frame_size in ground (arith, v.reserved (j / 8), unused p)

-- The state when the chunk has been marked and cleared.
abbrev cleared : Pmm → ℕ → ℕ → Pmm
cleared s head pages =
    clear (set_used_from s head (pages + 2)) (u64 (head * frame_size)) (u64 (frame_size * pages))

set_used_from-IsBytes :
    (s : Pmm) (i left : ℕ) → IsBytes s.memory → IsBytes (set_used_from s i left).memory
unfolding set_used_from
set_used_from-IsBytes s i zero h = h
set_used_from-IsBytes s i (suc left) h =
    set_used_from-IsBytes (set_page_used s i) (i + 1) left (set_page_used-IsBytes s i h)

take_chunk-IsChunk :
    {s : Pmm} (v : IsValid s) (head pages : ℕ)
    → head * frame_size + frame_size * pages < 2 ^ 64
    → ((j : ℕ) → head ≤ j → j < head + pages + 1 → page_is_used s j ≡ false)
    → IsChunk s pages (take_chunk s head pages).0 (take_chunk s head pages).1
unfolding take_chunk
take_chunk-IsChunk {s} v head pages fits unused =
    let base : u64 (head * frame_size) ≡ head * frame_size = omega arith in
    let size : u64 (frame_size * pages) ≡ frame_size * pages = omega arith in
    record {
      head = head;
      at_head = refl;
      was_free = unused;
      bits = λ j p.
          page_is_used_cong (cleared s head pages) (take_chunk s head pages).1 j refl refl
          ∙ page_is_used-clear (set_used_from s head (pages + 2)) (u64 (head * frame_size))
              (u64 (frame_size * pages)) j
              (ground (
                arith,
                base,
                size,
                chunk_apart v head pages j unused p,
                set_used_from-mem_map s head (pages + 2),
              ))
          ∙ set_used_from-bits s head (pages + 2) j v.bytes;
    }

pub first_used-some :
    (s : Pmm) (tail left k : ℕ)
    → first_used s tail left ≡ some k
    → (page_is_used s k ≡ true) × (tail ≤ k) × (k < tail + left)
unfolding first_used
first_used-some s tail zero k h = absurd (cc)
first_used-some s tail (suc left) k h = elim (Bool-cases (page_is_used s tail)) [
  | inl used ↦ ground arith
  | inr unused ↦ ground (arith, first_used-some s (tail + 1) left k (ground arith))
]

-- The search cannot jump over a run of free pages ahead of it.
contiguous_loop-IsChunk :
    (fuel : ℕ) (s : Pmm) (pages head h : ℕ)
    → IsValid s
    → pages < 2 ^ 32
    → s.mem_map.last_used < head
    → head ≤ h
    → h + pages < s.mem_map.num_entries
    → ((j : ℕ) → h ≤ j → j < h + pages + 1 → page_is_used s j ≡ false)
    → h < fuel + head
    → (frame : ℕ) × (t : Pmm) × (contiguous_loop fuel s pages head ≡ some (frame, t))
      × IsChunk s pages frame t
unfolding contiguous_loop
contiguous_loop-IsChunk zero s pages head h v small past le room unused f = absurd (omega arith)
contiguous_loop-IsChunk (suc fuel) s pages head h v small past le room unused f =
    elim (Option-cases (first_used s head (pages + 1))) [
      | inl all ↦ (
        (take_chunk s head pages).0,
        (take_chunk s head pages).1,
        ground arith,
        take_chunk-IsChunk v head pages (omega (arith, v.small))
            (λ j p q. first_used-none s head (pages + 1) all j p (omega arith)),
      )
      | inr (tail, found) ↦
          let at = first_used-some s head (pages + 1) tail found in
          let below : tail < h = ground (arith, unused tail) in
          let next : u64 (tail + 1) % s.mem_map.num_entries ≡ tail + 1 =
            ground (arith, v.small, mod_small (tail + 1) s.mem_map.num_entries) in
          let (frame, t, run, chunk) =
            contiguous_loop-IsChunk fuel s pages (tail + 1) h v small (omega arith) (omega arith)
              room unused (omega arith) in
          (frame, t, ground (arith, run, next), chunk)
    ]

-- Where a run of free pages long enough lies ahead of the last used page, `AllocContiguous`
-- returns on a valid bitmap, for a size below 2 ^ 32: it returns the first of such a run, whose
-- pages are used afterwards, and so are the page behind them, which was free, and the page after
-- that. No other page of the bitmap changes.
pub alloc_contiguous-IsChunk :
    (fuel : ℕ) (s : Pmm) (size h : ℕ)
    → IsValid s
    → size < 2 ^ 32
    → s.mem_map.last_used < h
    → h + pages_of size < s.mem_map.num_entries
    → ((j : ℕ) → h ≤ j → j < h + pages_of size + 1 → page_is_used s j ≡ false)
    → h < fuel
    → (frame : ℕ) × (t : Pmm) × (alloc_contiguous fuel s size ≡ some (frame, t))
      × IsChunk s (pages_of size) frame t
unfolding alloc_contiguous
alloc_contiguous-IsChunk fuel s size h v small past room unused f =
    let start : u64 (s.mem_map.last_used + 1) ≡ s.mem_map.last_used + 1 =
      omega (arith, v.last_in, v.small) in
    rw start (
      contiguous_loop-IsChunk fuel s (pages_of size) (s.mem_map.last_used + 1) h v (ground arith)
        (omega arith) (omega arith) room unused (omega arith))
