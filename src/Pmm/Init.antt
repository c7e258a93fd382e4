-- ===== src/Pmm/Init.antt =====
-- The bitmap after `InitPmm`.
use vardar_os.Utils.String.Copy.{memset_lem}
use vardar_os.Utils.String.{memset}
use vardar_os.Utils.Misc.{round_to_nearest_multiple}
use vardar_os.Prelude.{
  Bool, Bool-cases, List, [], ap, arith, bit_and, false, inl, inr, int_pattern, leb, ltb, map, not,
  refl, some, suc, true, u32, zero, ℕ, ◌%◌, ◌&&◌, ◌*◌, ◌+◌, ◌-◌, ◌/◌, ◌<◌, ◌==◌, ◌>>>◌, ◌^◌, ◌||◌,
  ◌∙◌, ◌∷◌, ◌≡◌,
}
use vardar_os.Memory.{IsBytes, Memory}
use vardar_os.Memory.Laws.{write8-IsBytes}
use vardar_os.Pmm.{
  MemMap, MmapEntry, Pmm, find_mem_entry_by_size, frame_size, init_pmm, page_is_used,
  release_entries, release_entry, set_free_from, set_page_free, uppermost_usable_addr, usable_page,
}
use vardar_os.Pmm.Bitmap.{page_is_used-set_page_free, page_is_used_cong}

-- Page `j` is one of the pages of an entry, whose first page is taken as an `int`: below 2 ^ 43 this
-- changes nothing, and from there it leaves no page.
abbrev pub covers_page : MmapEntry → ℕ → Bool
covers_page e j =
    leb (int_pattern (e.base / frame_size)) j && ltb j (e.base / frame_size + e.length / frame_size)

-- Page `j` lies in a usable entry, other than the one of index `skipped`, from index `i` on.
unfoldable pub is_released : ℕ → ℕ → List MmapEntry → ℕ → Bool
is_released skipped i [] j = false
is_released skipped i (e ∷ entries) j =
    ((e.kind == usable_page && not (i == skipped)) && covers_page e j)
    || is_released skipped (i + 1) entries j

set_page_free-IsBytes : (s : Pmm) (i : ℕ) → IsBytes s.memory → IsBytes (set_page_free s i).memory
unfolding set_page_free
set_page_free-IsBytes s i bytes = write8-IsBytes s.memory _ _ bytes

set_free_from-IsBytes :
    (n : ℕ) (s : Pmm) (i : ℕ) → IsBytes s.memory → IsBytes (set_free_from s i n).memory
unfolding set_free_from
set_free_from-IsBytes zero s i bytes = bytes
set_free_from-IsBytes (suc n) s i bytes =
    set_free_from-IsBytes n (set_page_free s i) (i + 1) (set_page_free-IsBytes s i bytes)

page_is_used-set_free_from :
    (n : ℕ) (s : Pmm) (i j : ℕ)
    → IsBytes s.memory
    → page_is_used (set_free_from s i n) j ≡ (not (leb i j && ltb j (i + n)) && page_is_used s j)
unfolding set_free_from
page_is_used-set_free_from zero s i j bytes = ground arith
page_is_used-set_free_from (suc n) s i j bytes =
    let first = page_is_used-set_page_free s i j bytes in
    let rest =
      page_is_used-set_free_from n (set_page_free s i) (i + 1) j
        (set_page_free-IsBytes s i bytes) in
    ground (arith, first, rest)

-- The same bitmap and the same memory.
page_is_used-last_used :
    (s : Pmm) (map : MemMap) (j : ℕ)
    → map.bitmap ≡ s.mem_map.bitmap
    → page_is_used (record s { mem_map = map }) j ≡ page_is_used s j
page_is_used-last_used s map j same = page_is_used_cong s (record s { mem_map = map }) j same refl

interval : (i j n : ℕ) → (leb i j && ltb j (i + (n - i))) ≡ (leb i j && ltb j n)
interval i j n = ground arith

release_entry-lem :
    (s : Pmm) (e : MmapEntry) (j : ℕ)
    → IsBytes s.memory
    → IsBytes (release_entry s e).memory
      × (page_is_used (release_entry s e) j ≡ (not (covers_page e j) && page_is_used s j))
unfolding release_entry
release_entry-lem s e j bytes =
    let first = int_pattern (e.base / frame_size) in
    let left = e.base / frame_size + e.length / frame_size - first in
    let s' = set_free_from s first left in
    let kept = set_free_from-IsBytes left s first bytes in
    let pages =
      page_is_used-set_free_from left s first j bytes
      ∙ ap (λ b. not b && page_is_used s j)
          (interval first j (e.base / frame_size + e.length / frame_size)) in
    elim (Bool-cases (s'.mem_map.last_used == 0)) [
      | inl unset ↦ rw unset (kept, page_is_used-last_used s' _ j refl ∙ pages)
      | inr set ↦ rw set (kept, pages)
    ]

released_or : (c r u : Bool) → (not r && (not c && u)) ≡ (not (c || r) && u)
released_or true true u = refl
released_or true false u = refl
released_or false true u = refl
released_or false false u = refl

release_entries-lem :
    (entries : List MmapEntry) (s : Pmm) (skipped i j : ℕ)
    → IsBytes s.memory
    → page_is_used (release_entries s skipped i entries) j
      ≡ (not (is_released skipped i entries j) && page_is_used s j)
unfolding release_entries is_released
release_entries-lem [] s skipped i j bytes = refl
release_entries-lem (e ∷ entries) s skipped i j bytes =
    elim (Bool-cases (e.kind == usable_page && not (i == skipped))) [
      | inl released ↦
          let (kept, pages) = release_entry-lem s e j bytes in
          let ih = release_entries-lem entries (release_entry s e) skipped (i + 1) j kept in
          rw released (
            ih
            ∙ rw pages (
                released_or (covers_page e j) (is_released skipped (i + 1) entries j)
                  (page_is_used s j)))
      | inr other ↦ rw other (release_entries-lem entries s skipped (i + 1) j bytes)
    ]

pub release_entries-IsBytes :
    (entries : List MmapEntry) (s : Pmm) (skipped i : ℕ)
    → IsBytes s.memory
    → IsBytes (release_entries s skipped i entries).memory
unfolding release_entries
release_entries-IsBytes [] s skipped i bytes = bytes
release_entries-IsBytes (e ∷ entries) s skipped i bytes =
    elim (Bool-cases (e.kind == usable_page && not (i == skipped))) [
      | inl released ↦
          rw (release_entries, released)
            (release_entries-IsBytes entries (release_entry s e) skipped (i + 1)
              (release_entry-lem s e 0 bytes).0)
      | inr other ↦
          rw (release_entries, other) (release_entries-IsBytes entries s skipped (i + 1) bytes)
    ]

and_true : (b : Bool) → (b && true) ≡ b
and_true true = refl
and_true false = refl

ones : (k : ℕ) → k < 8 → bit_and (255 >>> k) 1 ≡ 1
ones zero lt = refl
ones (suc zero) lt = refl
ones (suc (suc zero)) lt = refl
ones (suc (suc (suc zero))) lt = refl
ones (suc (suc (suc (suc zero)))) lt = refl
ones (suc (suc (suc (suc (suc zero))))) lt = refl
ones (suc (suc (suc (suc (suc (suc zero)))))) lt = refl
ones (suc (suc (suc (suc (suc (suc (suc zero))))))) lt = refl
ones (suc (suc (suc (suc (suc (suc (suc (suc k)))))))) lt = absurd (omega (arith, lt))

pub memset-IsBytes : (n : ℕ) (m : Memory) (dest val : ℕ) → IsBytes m → IsBytes (memset m dest val n)
memset-IsBytes n m dest val bytes b = ground (arith, memset_lem n m dest val b, bytes b)

-- A bitmap of bytes 255 has every page used.
page_is_used-memset :
    (s : Pmm) (map : MemMap) (size j : ℕ)
    → j < 8 * size
    → page_is_used
        (record { mem_map = map; memory = memset s.memory map.bitmap (2 ^ 32 - 1) size })
        j
      ≡ true
unfolding page_is_used
page_is_used-memset s map size j lt =
    let byte : memset s.memory map.bitmap (2 ^ 32 - 1) size (map.bitmap + j / 8) ≡ 255 =
      ground (arith, memset_lem size s.memory map.bitmap (2 ^ 32 - 1) (map.bitmap + j / 8), lt) in
    let bit = ones (j % 8) (omega arith) in rw (byte, bit) refl

-- The bytes of the bitmap.
abbrev pub bitmap_bytes : List MmapEntry → ℕ
bitmap_bytes entries =
    u32
      (round_to_nearest_multiple (u32 (uppermost_usable_addr entries / frame_size / 8)) frame_size)

-- The state in which `InitPmm` begins to release pages, with the bitmap in the entry `e`.
abbrev pub all_used : Pmm → List MmapEntry → MmapEntry → Pmm
all_used s entries e = record {
  mem_map = record (s.mem_map) {
    num_entries = uppermost_usable_addr entries / frame_size;
    bitmap_size = bitmap_bytes entries;
    uppermost_addr = uppermost_usable_addr entries;
    bitmap = e.base;
  };
  memory = memset s.memory e.base (2 ^ 32 - 1) (bitmap_bytes entries);
}

pub init_pmm-found :
    (s : Pmm) (entries : List MmapEntry) (k : ℕ) (e : MmapEntry)
    → find_mem_entry_by_size entries 0 (bitmap_bytes entries) ≡ some (k, e)
    → init_pmm s entries ≡ (true, release_entries (all_used s entries e) k 0 entries)
unfolding init_pmm
init_pmm-found s entries k e found = rw (init_pmm, found) refl

pub page_is_used-all_used :
    (s : Pmm) (entries : List MmapEntry) (k : ℕ) (e : MmapEntry) (j : ℕ)
    → IsBytes s.memory
    → j < 8 * bitmap_bytes entries
    → page_is_used (release_entries (all_used s entries e) k 0 entries) j
      ≡ not (is_released k 0 entries j)
page_is_used-all_used s entries k e j bytes lt =
    release_entries-lem entries (all_used s entries e) k 0 j
      (memset-IsBytes (bitmap_bytes entries) s.memory e.base (2 ^ 32 - 1) bytes)
    ∙ ap (λ b. not (is_released k 0 entries j) && b)
        (page_is_used-memset s (all_used s entries e).mem_map (bitmap_bytes entries) j lt)
    ∙ and_true (not (is_released k 0 entries j))
