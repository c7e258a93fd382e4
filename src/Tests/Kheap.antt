-- ===== src/Tests/Kheap.antt =====
-- A heap of 64 bytes at 4096: a used block of 8 bytes and a free one of 40.
use mathlib.Core.Path.{subst}
use vardar_os.Heap.Boot.{format_heap-HeapRun, format_heap-size}
use vardar_os.Heap.History.{HeapRun, HeapStep, IsTidy}
use vardar_os.Heap.Setup.{format_heap}
use vardar_os.Heap.Merged.{Border, IsMerged}
use vardar_os.Heap.RoundTrip.{kfree-kalloc}
use vardar_os.Heap.Kfree.{kfree-coalesce}
use vardar_os.Heap.Free.{coalesce}
use vardar_os.Heap.Zipper.{extent, onto}
use vardar_os.Prelude.{
  List, [], arith, false, if◌then◌else◌, inl, inr, refl, some, true, ℕ, ◌%◌, ◌++◌, ◌+◌, ◌-◌, ◌<◌,
  ◌==◌, ◌^◌, ◌∷◌, ◌≡◌, ◌≤◌, ◌⊎◌,
}
use vardar_os.Memory.{Memory, read32, write32}
use vardar_os.Heap.{
  Heap, is_used_at, kalloc, kalloc_at, kalloc_scan, kfree, round_even, size_at, split_block,
}
use vardar_os.Heap.Blocks.{Block, Blocks, IsSize}
use vardar_os.Heap.Split.{split_block-tight}
use vardar_os.Heap.Alloc.{HasRoom, IsAlloc, kalloc-first_fit}
use vardar_os.Heap.Place.{place}
use vardar_os.Heap.Realloc.{krealloc}
use vardar_os.Heap.Realloc.Forward.{krealloc-forward}

abbrev heap_memory : Memory
heap_memory a =
    if a == 4096
    then 9
    else if a == 4108
    then 9
    else if a == 4112
    then 40
    else if a == 4156
    then 40
    else 0

abbrev heap : Heap
heap = record { start = 4096; size = 64 }

abbrev blocks : List Block
blocks = record { size = 8; used = true } ∷ record { size = 40; used = false } ∷ []

heap_blocks : Blocks heap_memory 4096 blocks 4160
unfolding Blocks read32
heap_blocks = (refl, refl, (refl, omega arith), (refl, refl, (refl, omega arith), refl))

blocks_room : HasRoom 10 blocks
unfolding HasRoom
blocks_room = inr (omega arith)

kalloc-first_fit_example :
    (r : ℕ × Memory) × (kalloc 3 heap heap_memory 10 ≡ some r)
    × IsAlloc heap heap_memory 10 4096 blocks r
kalloc-first_fit_example =
    kalloc-first_fit heap heap_memory 10 blocks 3 heap_blocks blocks_room (omega arith)
      (omega arith) (omega arith)

free_head : read32 heap_memory 4112 ≡ 40
unfolding read32
free_head = refl

free_foot : read32 heap_memory (4112 + 4 + 40) ≡ 40
unfolding read32
free_foot = refl

split_block-tight_example :
    (read32 (split_block heap heap_memory 4112 36).1 4112 ≡ 40 + 1)
    × (read32 (split_block heap heap_memory 4112 36).1 (4112 + 4 + 40) ≡ 40)
split_block-tight_example =
    split_block-tight heap heap_memory 4112 40 36 free_head free_foot (refl, omega arith)
      (refl, omega arith) (omega arith) (omega arith) (omega arith) (omega arith)

onto-blocks : blocks ≡ onto [] blocks
unfolding onto
onto-blocks = refl

kfree-coalesce_example :
    Blocks
      (kfree heap heap_memory (4096 + 0 + 4))
      4096
      (coalesce [] 8 (record { size = 40; used = false } ∷ []))
      4160
    × ((x : ℕ) → (x < 4096) ⊎ (4160 ≤ x) → kfree heap heap_memory (4096 + 0 + 4) x ≡ heap_memory x)
unfolding extent
kfree-coalesce_example =
    kfree-coalesce heap (omega arith) (omega arith) (omega arith) heap_memory []
      (record { size = 8; used = true }) (record { size = 40; used = false } ∷ [])
      (subst (λ t. Blocks heap_memory 4096 t 4160) onto-blocks heap_blocks)

blocks-IsMerged : IsMerged blocks
unfolding IsMerged Border
blocks-IsMerged = (inl refl, (tt, tt))

kfree-kalloc_example :
    (p : ℕ) × (k : Memory) × (kalloc 3 heap heap_memory 10 ≡ some (p, k))
    × ((p ≡ 0) ⊎ Blocks (kfree heap k p) 4096 blocks 4160)
kfree-kalloc_example =
    kfree-kalloc heap heap_memory 10 blocks 3 heap_blocks blocks-IsMerged blocks_room (omega arith)
      (omega arith) (omega arith) (omega arith)

format_heap-size_example :
    (size_at (format_heap heap_memory 4096 0x20000) 4096 ≡ (0x20000 - 8) % 2 ^ 16)
    × (((0x20000 < 2 ^ 16 + 8)
          × (size_at (format_heap heap_memory 4096 0x20000) 4096 ≡ 0x20000 - 8))
        ⊎ ((2 ^ 16 + 8 ≤ 0x20000)
            × (size_at (format_heap heap_memory 4096 0x20000) 4096 < 0x20000 - 8)))
format_heap-size_example =
    format_heap-size heap_memory 4096 0x20000 refl (omega arith) (omega arith)

abbrev new_heap : Memory
new_heap = format_heap heap_memory 4096 64

one_block : List Block
one_block = record { size = 56; used = false } ∷ []

new-Blocks : Blocks new_heap 4096 one_block 4160
unfolding Blocks read32 format_heap write32 one_block
new-Blocks = (refl, refl, (refl, omega arith), refl)

new_room : HasRoom 10 one_block
unfolding HasRoom one_block
new_room = inr (omega arith)

new_kalloc : kalloc 2 heap new_heap 10 ≡ some (4100, (kalloc_at heap new_heap 10 4096).1)
unfolding kalloc kalloc_scan kalloc_at is_used_at size_at read32 format_heap write32 split_block
new_kalloc = refl

format_heap-HeapRun_example : IsTidy heap (kalloc_at heap new_heap 10 4096).1
format_heap-HeapRun_example =
    format_heap-HeapRun heap heap_memory (kalloc_at heap new_heap 10 4096).1 refl (omega arith)
      (omega arith) (omega arith) (omega arith)
      (HeapRun.next HeapRun.here
        (HeapStep.allocate 2 10 4100 one_block new-Blocks new_room new_kalloc))

even20 : round_even 20 ≡ 20
even20 = refl

realloc-IsSize : IsSize 20
realloc-IsSize = (refl, omega arith)

krealloc-forward_example :
    (k : Memory) × (krealloc 3 heap heap_memory (4096 + 0 + 4) 20 ≡ some (4096 + 0 + 4, k))
    × Blocks k 4096 (onto [] (place 56 20 ++ [])) 4160
    × ((i : ℕ) → i < 8 → i < 20 → k (4096 + 0 + 4 + i) ≡ heap_memory (4096 + 0 + 4 + i))
    × ((x : ℕ) → (x < 4096) ⊎ (4160 ≤ x) → k x ≡ heap_memory x)
unfolding extent
krealloc-forward_example =
    krealloc-forward heap (omega arith) (omega arith) heap_memory 3 20 20 []
      (record { size = 8; used = true }) (record { size = 40; used = false }) []
      (subst (λ t. Blocks heap_memory 4096 t 4160) onto-blocks heap_blocks) refl refl even20
      realloc-IsSize (inr (omega arith)) (omega arith)
