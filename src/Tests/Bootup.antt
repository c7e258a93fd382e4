-- ===== src/Tests/Bootup.antt =====
-- The kernel before `InitPageTable`: 32000 pages, the first eight used, and the bitmap in page 1.
use vardar_os.Prelude.{
  List, [], ap, arith, false, if◌then◌else◌, refl, some, true, ℕ, ◌%◌, ◌+◌, ◌/◌, ◌<◌, ◌==◌, ◌^◌,
  ◌∙◌, ◌∷◌, ◌≡◌, ◌≤◌,
}
use vardar_os.Memory.{Memory}
use vardar_os.Bits.Single.{bit_at, bit_at-zero}
use vardar_os.Pmm.{MmapEntry, Pmm, frame_size, page_is_used}
use vardar_os.Pmm.Bitmap.{page_bit}
use vardar_os.Pmm.Count.{count_free_all}
use vardar_os.Pmm.Ahead.{free_ahead}
use vardar_os.Pmm.Valid.{IsValid}
use vardar_os.Vmm.Kernel.{Pmr, Vmm, init_page_table}
use vardar_os.Vmm.Boot.Sequence.{
  AllMappable, AllMappableEntries, IsMappableEntry, entries_frames, entry_frames, kernel_frames,
  pmrs_frames,
}
use vardar_os.Vmm.Boot.Whole.{IsBooted, init_page_table-IsBooted}

abbrev first_byte : Memory
first_byte a = if a == 4096 then 255 else 0

abbrev many_frames : Pmm
many_frames = record {
  mem_map = record {
    num_entries = 32000;
    last_used = 7;
    bitmap_size = 4096;
    bitmap = 4096;
    mem_size = 0;
    max_blocks = 0;
    uppermost_addr = 0;
    used_blocks = 0;
  };
  memory = first_byte;
}

one_page : (k : ℕ) → k < 4096 → (4096 + k) / frame_size ≡ 1
one_page k lt = omega (arith, lt)

many_frames-IsValid : IsValid many_frames
unfolding page_is_used
many_frames-IsValid = record {
  bytes = λ a. ground arith;
  small = omega arith;
  covers = omega arith;
  last_in = omega arith;
  placed = omega arith;
  reserved = λ k lt. ap (page_is_used many_frames) (one_page k lt);
}

free_page : (j : ℕ) → 8 ≤ j → page_is_used many_frames j ≡ false
free_page j le =
    let clear_byte : first_byte (4096 + j / 8) ≡ 0 = ground (arith, le) in
    page_bit many_frames j
    ∙ ap (λ (b : ℕ). bit_at b (j % 8) == 1) clear_byte
    ∙ ap (λ (b : ℕ). b == 1) (bit_at-zero (j % 8))

many_frames-free_ahead : free_ahead many_frames ≡ 31992
many_frames-free_ahead = count_free_all many_frames 8 31992 (λ j lo hi. free_page j lo)

-- A frame buffer of 1000 pages, and usable memory.
abbrev screen_entry : MmapEntry
screen_entry = record { base = 0xfd000000; length = 0x3e8000; kind = 0x1002 }

abbrev usable_entry : MmapEntry
usable_entry = record { base = 0x100000; length = 0x7c00000; kind = 1 }

abbrev image : Pmr
image = record { base = 0xffffffff80001000; length = 0x20000 }

abbrev unmapped : Vmm
unmapped = record {
  kernel_root = 0;
  mmap = usable_entry ∷ screen_entry ∷ [];
  physical_base = 0x200000;
  virtual_base = 0xffffffff80000000;
  pmrs = image ∷ [];
  pmm = many_frames;
}

unmapped_frames : kernel_frames unmapped ≡ 6171
unfolding pmrs_frames entries_frames entry_frames
unmapped_frames = refl

unmapped-AllMappable : AllMappable (2 ^ 20) 0x200000 0xffffffff80000000 (image ∷ [])
unfolding AllMappable
unmapped-AllMappable = ((refl, omega arith, omega arith, omega arith, omega arith), tt)

unmapped-AllMappableEntries : AllMappableEntries (2 ^ 20) (usable_entry ∷ screen_entry ∷ [])
unfolding AllMappableEntries IsMappableEntry
unmapped-AllMappableEntries = (
  λ need. absurd (ground (arith, need)),
  ((λ need. (refl, omega arith, omega arith, omega arith, omega arith)), tt),
)

init_page_table-IsBooted_example :
    (k' : Vmm) × (init_page_table (2 ^ 20) 32001 unmapped ≡ some (true, k')) × IsBooted k'
init_page_table-IsBooted_example =
    init_page_table-IsBooted (2 ^ 20) 32001 unmapped many_frames-IsValid
      (omega (arith, unmapped_frames, many_frames-free_ahead)) (omega arith) (omega arith)
      unmapped-AllMappable unmapped-AllMappableEntries

-- A map of memory with 126 MB behind 1 MB, before `InitPmm`.
abbrev low_memory : MmapEntry
low_memory = record { base = 0x1000; length = 0x9e000; kind = 1 }

abbrev high_memory : MmapEntry
high_memory = record { base = 0x100000; length = 0x7d00000; kind = 1 }

abbrev memory_map : List MmapEntry
memory_map = low_memory ∷ high_memory ∷ screen_entry ∷ []

abbrev started : Vmm
started = record {
  kernel_root = 0;
  mmap = memory_map;
  physical_base = 0x200000;
  virtual_base = 0xffffffff80000000;
  pmrs = image ∷ [];
  pmm = many_frames;
}

abbrev no_frames : Pmm
no_frames = record {
  mem_map = record {
    num_entries = 0;
    last_used = 0;
    bitmap_size = 0;
    bitmap = 0;
    mem_size = 0;
    max_blocks = 0;
    uppermost_addr = 0;
    used_blocks = 0;
  };
  memory = λ a. 0;
}
