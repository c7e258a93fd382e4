-- ===== src/Vmm/Store.antt =====
-- A store to one entry of a table: the other entries, the bitmap and the counts stay.
use vardar_os.Prelude.{
  Bool-cases, arith, if◌then◌else◌, inl, inr, refl, ℕ, ◌%◌, ◌&&◌, ◌*◌, ◌+◌, ◌-◌, ◌/◌, ◌<◌, ◌==◌,
  ◌^◌, ◌∙◌, ◌≡◌, ◌≢◌,
}
use vardar_os.Memory.Laws.{read64-write64, read64-write64-Apart, write64-IsBytes, write64_outside}
use vardar_os.Pmm.{Pmm, frame_size, page_is_used}
use vardar_os.Pmm.Bitmap.{byte_of, page_is_used_cong}
use vardar_os.Pmm.Valid.{IsValid}
use vardar_os.Pmm.Count.{count_free_cong}
use vardar_os.Pmm.Ahead.{free_ahead}
use vardar_os.Vmm.{entry_at, store64}
use vardar_os.Vmm.Tables.{IsTables, OffBitmap, entry_of}

-- The state after a store to entry `index` of the table in page `p`.
abbrev pub stored : Pmm → ℕ → ℕ → ℕ → Pmm
stored s p index v = store64 s (entry_at (p * frame_size) index) v

pub entry_of-stored :
    (s : Pmm) (p index v q i : ℕ)
    → index < 512
    → i < 512
    → v < 2 ^ 64
    → entry_of (stored s p index v) q i ≡ (if p == q && index == i then v else entry_of s q i)
entry_of-stored s p index v q i h k fits = elim (Bool-cases (p == q && index == i)) [
  | inl same ↦
      let e : p ≡ q = ground arith in
      let e' : index ≡ i = ground arith in
      ground (arith, e, e', read64-write64 s.memory (entry_at (p * frame_size) index) v fits)
  | inr other ↦ ground (
    arith,
    read64-write64-Apart s.memory (entry_at (p * frame_size) index) (entry_at (q * frame_size) i) v
        (ground arith),
  )
]

page_is_used-stored :
    (s : Pmm) (p index v j : ℕ)
    → OffBitmap s p
    → index < 512
    → j < 8 * s.mem_map.bitmap_size
    → page_is_used (stored s p index v) j ≡ page_is_used s j
page_is_used-stored s p index v j off h k = page_is_used_cong s (stored s p index v) j refl (
    write64_outside s.memory (entry_at (p * frame_size) index) v (byte_of s j)
      (ground (arith, off (j / 8))))

pub stored-IsValid :
    {s : Pmm} (p index v : ℕ)
    → IsValid s
    → OffBitmap s p
    → index < 512
    → IsValid (stored s p index v)
stored-IsValid {s} p index v valid off h = record {
  bytes = write64-IsBytes s.memory (entry_at (p * frame_size) index) v valid.bytes;
  small = valid.small;
  covers = valid.covers;
  last_in = valid.last_in;
  placed = valid.placed;
  reserved = λ k b.
      page_is_used-stored s p index v ((s.mem_map.bitmap + k) / frame_size) off h
        (omega (arith, valid.placed))
      ∙ valid.reserved k b;
}

pub free_ahead-stored :
    {s : Pmm} (p index v : ℕ)
    → IsValid s
    → OffBitmap s p
    → index < 512
    → free_ahead (stored s p index v) ≡ free_ahead s
free_ahead-stored {s} p index v valid off h =
    count_free_cong s (stored s p index v) (s.mem_map.last_used + 1)
      (s.mem_map.num_entries - (s.mem_map.last_used + 1))
      (λ j a b. page_is_used-stored s p index v j off h (omega (arith, valid.covers)))

-- Where the stored value keeps the tree a tree, the whole invariant is kept.
pub stored-IsTables :
    {s : Pmm} {level : ℕ → ℕ} (w : IsTables s level) (p index v : ℕ)
    → 0 < level p
    → index < 512
    → v < 2 ^ 64
    → (1 < level p → v % 2 ≡ 1 → (c : ℕ) × (v - v % 512 ≡ c * frame_size) × (level c + 1 ≡ level p))
    → (1 < level p
        → v % 2 ≡ 1
        → (q i : ℕ) → 1 < level q
        → i < 512
        → entry_of s q i % 2 ≡ 1
        → entry_of s q i - entry_of s q i % 512 ≢ v - v % 512)
    → IsTables (stored s p index v) level
stored-IsTables {s} {level} w p index v pos h fits leads alone = record {
  valid = stored-IsValid p index v w.valid (w.off_bitmap p pos) h;
  used = λ q l.
      page_is_used-stored s p index v q (w.off_bitmap p pos) h
        (omega (arith, w.inside q l, w.valid.covers))
      ∙ w.used q l;
  inside = w.inside;
  off_bitmap = w.off_bitmap;
  child = λ q i l k here. stored_child q i l k (entry_of-stored s p index v q i h k fits) here;
  one_parent = λ a i b j la li lb lj oa ob same.
      stored_parent a i b j la li lb lj (entry_of-stored s p index v a i h li fits)
        (entry_of-stored s p index v b j h lj fits) oa ob same;
}
  where
    stored_child :
        (q i : ℕ)
        → 1 < level q
        → i < 512
        → entry_of (stored s p index v) q i ≡ (if p == q && index == i then v else entry_of s q i)
        → entry_of (stored s p index v) q i % 2 ≡ 1
        → (c : ℕ) × (entry_of (stored s p index v) q i - entry_of (stored s p index v) q i % 512
            ≡ c * frame_size)
          × (level c + 1 ≡ level q)
    stored_child q i l k e here = elim (Bool-cases (p == q && index == i)) [
      | inl same ↦
          let e' : p ≡ q = ground arith in
          let (c, at, lc) = leads (rw e' l) (ground (arith, e)) in
          (c, ground (arith, e, at), rw (← e') lc)
      | inr other ↦
          let (c, at, lc) = w.child q i l k (ground (arith, e)) in (c, ground (arith, e, at), lc)
    ]

    stored_parent :
        (a i b j : ℕ)
        → 1 < level a
        → i < 512
        → 1 < level b
        → j < 512
        → entry_of (stored s p index v) a i ≡ (if p == a && index == i then v else entry_of s a i)
        → entry_of (stored s p index v) b j ≡ (if p == b && index == j then v else entry_of s b j)
        → entry_of (stored s p index v) a i % 2 ≡ 1
        → entry_of (stored s p index v) b j % 2 ≡ 1
        → entry_of (stored s p index v) a i - entry_of (stored s p index v) a i % 512
          ≡ entry_of (stored s p index v) b j - entry_of (stored s p index v) b j % 512
        → (a ≡ b) × (i ≡ j)
    stored_parent a i b j la li lb lj ea eb oa ob same = elim (Bool-cases (p == a && index == i)) [
      | inl here ↦ elim (Bool-cases (p == b && index == j)) [
        | inl there ↦ (ground (arith, here, there), ground (arith, here, there))
        | inr apart ↦
            let e : p ≡ a = ground (arith, here) in
            absurd (
              alone (rw e la) (ground (arith, ea, here)) b j lb lj (ground (arith, eb, apart))
                (ground (arith, ea, eb, here, apart, same)))
      ]
      | inr apart ↦ elim (Bool-cases (p == b && index == j)) [
        | inl there ↦
            let e : p ≡ b = ground (arith, there) in
            absurd (
              alone (rw e lb) (ground (arith, eb, there)) a i la li (ground (arith, ea, apart))
                (ground (arith, ea, eb, there, apart, same)))
        | inr other ↦
            w.one_parent a i b j la li lb lj (ground (arith, ea, apart)) (ground (arith, eb, other))
              (ground (arith, ea, eb, apart, other, same))
      ]
    ]
