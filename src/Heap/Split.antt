-- ===== src/Heap/Split.antt =====
-- `split_block`, in its two branches that leave well-formed tags.
use vardar_os.Prelude.{
  ap, arith, bit_and, bit_or, false, inl, inr, refl, true, u32, ℕ, ◌+◌, ◌-◌, ◌/◌, ◌<◌, ◌^◌, ◌∙◌,
  ◌≡◌, ◌≤◌, ◌⊎◌,
}
use vardar_os.Bits.{bit_or_fields}
use vardar_os.Memory.{Memory, read32, write32}
use vardar_os.Heap.{Heap, footer_from_header, next_header, size_at, size_mask, split_block}
use vardar_os.Heap.Blocks.{Block, IsSize, size_mask-tag, tag}
use vardar_os.Memory.Laws.{read32-write32, read32-write32-Apart}

pub used_tag : (r : ℕ) → IsSize r → u32 (bit_or r 1) ≡ r + 1
used_tag r h = ground (arith, h, bit_or_fields 1 (r / 2) 1)

pub size_at-tag :
    (m : Memory) (a : ℕ) (b : Block) → read32 m a ≡ tag b → IsSize b.size → size_at m a ≡ b.size
unfolding size_at
size_at-tag m a b h size = ap (λ t. bit_and t size_mask) h ∙ size_mask-tag b size

-- The tags of a block and of the rest behind it.
unfoldable pub split_tags : Memory → ℕ → ℕ → ℕ → Memory
split_tags m a n r =
    write32 (write32 (write32 (write32 m a (r + 1)) (a + 4 + r) (r + 1)) (a + r + 8) (n - r - 8))
      (a + 4 + n) (n - r - 8)

pub size_at_head :
    (m : Memory) (a v n : ℕ) → read32 m a ≡ v → (v ≡ n) ⊎ (v ≡ n + 1) → IsSize n → size_at m a ≡ n
size_at_head m a v n h (inl free) size =
    size_at-tag m a (record { size = n; used = false }) (h ∙ free) size
size_at_head m a v n h (inr used) size =
    size_at-tag m a (record { size = n; used = true }) (h ∙ used) size

pub footer_at :
    (m : Memory) (a n : ℕ)
    → size_at m a ≡ n
    → 0 < a
    → a + n + 8 < 2 ^ 64
    → footer_from_header m a ≡ a + 4 + n
unfolding footer_from_header
footer_at m a n h pos lt = ground (arith, h, pos, lt)

pub next_at :
    (h : Heap) (m : Memory) (a n : ℕ)
    → size_at m a ≡ n
    → a + n + 8 < h.start + h.size
    → h.start + h.size < 2 ^ 64
    → next_header h m a ≡ a + n + 8
unfolding next_header
next_at h m a n size below lt = ground (arith, size, below, lt)

pub split_block_rest :
    (h : Heap) (m : Memory) (a n r : ℕ)
    → size_at m a ≡ n
    → IsSize n
    → IsSize r
    → r + 8 ≤ n
    → 0 < a
    → a + n + 8 ≤ h.start + h.size
    → h.start + h.size < 2 ^ 64
    → split_block h m a r ≡ (a, split_tags m a n r)
unfolding split_block split_tags
split_block_rest h m a n r size size_n size_r room pos fits lt =
    let m1 = write32 m a (r + 1) in
    let m2 = write32 m1 (a + 4 + r) (r + 1) in
    let head1 = read32-write32 m a (r + 1) (omega arith) in
    let size1 = size_at_head m1 a (r + 1) r head1 (inr refl) size_r in
    let outer = footer_at m a n size pos (omega arith) in
    let inner = footer_at m1 a r size1 pos (omega arith) in
    let next = next_at h m1 a r size1 (omega arith) lt in
    let last = read32-write32 m2 (a + r + 8) (n - r - 8) (omega arith) in
    ground (arith, used_tag r size_r, size, outer, inner, next, head1, last)

pub split_block_whole :
    (h : Heap) (m : Memory) (a n : ℕ)
    → size_at m a ≡ n
    → IsSize n
    → 0 < a
    → a + n + 8 ≤ h.start + h.size
    → h.start + h.size < 2 ^ 64
    → split_block h m a n ≡ (a, write32 (write32 m a (n + 1)) (a + 4 + n) (n + 1))
unfolding split_block
split_block_whole h m a n size size_n pos fits lt =
    let m1 = write32 m a (n + 1) in
    let head1 = read32-write32 m a (n + 1) (omega arith) in
    let size1 = size_at_head m1 a (n + 1) n head1 (inr refl) size_n in
    let inner = footer_at m1 a n size1 pos (omega arith) in
    ground (arith, used_tag n size_n, size, inner, head1)

-- A free block that is 4 or 6 bytes larger than the allocation gets the used bit in its header, and
-- its footer keeps the tag that it had, so that the two differ.
pub split_block-tight :
    (h : Heap) (m : Memory) (a n r : ℕ)
    → read32 m a ≡ n
    → read32 m (a + 4 + n) ≡ n
    → IsSize n
    → IsSize r
    → r + 4 ≤ n
    → n < r + 8
    → 0 < a
    → a + n + 8 < 2 ^ 64
    → (read32 (split_block h m a r).1 a ≡ n + 1) × (read32 (split_block h m a r).1 (a + 4 + n) ≡ n)
unfolding split_block
split_block-tight h m a n r head foot size_n size_r room tight pos lt =
    let m1 = write32 m a (r + 1) in
    let m2 = write32 m1 (a + 4 + r) (r + 1) in
    let m3 = write32 m2 a (n + 1) in
    let size = size_at_head m a n n head (inl refl) size_n in
    let head1 = read32-write32 m a (r + 1) (omega arith) in
    let size1 = size_at_head m1 a (r + 1) r head1 (inr refl) size_r in
    let inner = footer_at m1 a r size1 pos (omega arith) in
    let head3 = read32-write32 m2 a (n + 1) (omega arith) in
    let out1 = read32-write32-Apart m a (a + 4 + n) (r + 1) (inl (omega arith)) in
    let out2 = read32-write32-Apart m1 (a + 4 + r) (a + 4 + n) (r + 1) (inl (omega arith)) in
    let out3 = read32-write32-Apart m2 a (a + 4 + n) (n + 1) (inl (omega arith)) in
    let out4 = read32-write32-Apart m3 (a + 4 + r) (a + 4 + n) (n + 1) (inl (omega arith)) in
    let back = read32-write32-Apart m3 (a + 4 + r) a (n + 1) (inr (omega arith)) in
    ground (
      arith,
      used_tag r size_r,
      used_tag n size_n,
      size,
      inner,
      head1,
      head3,
      out1,
      out2,
      out3,
      out4,
      back,
    )
