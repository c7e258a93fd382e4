-- ===== src/Tests/Frames.antt =====
-- The bitmap of frames after boot, on a small map of memory.
use vardar_os.Pmm.History.{
  FrameRun, FrameRun-IsShared, IsShared, freed, give_back, grant, granted, here, holds,
}
use vardar_os.Prelude.{
  List, [], arith, false, inr, refl, some, true, ℕ, ◌*◌, ◌+◌, ◌/◌, ◌<◌, ◌∷◌, ◌≡◌,
}
use vardar_os.Pmm.{
  MmapEntry, Pmm, alloc_first_frame, find_free, find_mem_entry_by_size, frame_size, free_frame,
  hand_out, init_pmm, page_is_used, take_frame, uppermost_loop, uppermost_usable_addr,
}
use vardar_os.Pmm.Init.{bitmap_bytes, is_released}
use vardar_os.Pmm.Ready.{AllBelow}
use vardar_os.Pmm.Usable.{init_pmm-FrameRun}
use vardar_os.Utils.Misc.{round_to_nearest_multiple}
use vardar_os.Tests.Paging.{booted, booted-IsValid}

abbrev fresh_pmm : Pmm
fresh_pmm = record {
  mem_map = record {
    num_entries = 0;
    last_used = 0;
    bitmap_size = 0;
    bitmap = 0;
    mem_size = 0;
    max_blocks = 0;
    uppermost_addr = 0;
    used_blocks = 0;
  };
  memory = λ a. 0;
}

-- Two pages, of which the first holds the bitmap.
abbrev low_entry : MmapEntry
low_entry = record { base = 4096; length = 8192; kind = 1 }

abbrev high_entry : MmapEntry
high_entry = record { base = 12288; length = 24576; kind = 1 }

abbrev two_entries : List MmapEntry
two_entries = low_entry ∷ high_entry ∷ []

uppermost-two : uppermost_usable_addr two_entries ≡ 36863
unfolding uppermost_usable_addr uppermost_loop
uppermost-two = refl

bytes-two : bitmap_bytes two_entries ≡ 4096
unfolding uppermost_usable_addr uppermost_loop round_to_nearest_multiple
bytes-two = refl

found_two : find_mem_entry_by_size two_entries 0 (bitmap_bytes two_entries) ≡ some (0, low_entry)
unfolding find_mem_entry_by_size
found_two = rw bytes-two refl

bitmap_page : (x : ℕ) → x < 4096 → is_released 0 0 two_entries ((4096 + x) / frame_size) ≡ false
unfolding is_released
bitmap_page x lt = let page : (4096 + x) / 4096 ≡ 1 = omega (arith, lt) in rw page refl

init_pmm-FrameRun_example :
    (t : Pmm) × (init_pmm fresh_pmm two_entries ≡ (true, t))
    × ((held : List ℕ) (u : Pmm)
        → FrameRun t held u
        → IsShared t held u
          × ((j : ℕ) → holds j held ≡ true → is_released 0 0 two_entries j ≡ true))
unfolding AllBelow
init_pmm-FrameRun_example =
    init_pmm-FrameRun fresh_pmm two_entries 0 low_entry (λ b. omega arith) refl found_two
      (rw uppermost-two (omega arith)) (rw uppermost-two (omega arith))
      (rw uppermost-two (
        inr (omega arith, omega arith),
        omega arith,
        (inr (omega arith, omega arith), omega arith, tt),
      ))
      (rw (bytes-two, uppermost-two) (omega arith))
      (λ x lt. bitmap_page x (omega (arith, bytes-two, lt)))

one_page : alloc_first_frame 12 booted ≡ some (12288, (take_frame booted 3).1)
unfolding alloc_first_frame find_free page_is_used hand_out take_frame
one_page = refl

held_page : holds 3 (grant 12288 []) ≡ true
unfolding holds grant
held_page = refl

FrameRun-IsShared_example :
    IsShared booted
      (give_back 3 (grant 12288 []))
      (free_frame (take_frame booted 3).1 (3 * frame_size))
unfolding page_is_used
FrameRun-IsShared_example =
    FrameRun-IsShared booted booted-IsValid refl
      (freed 3 (granted 12 12288 here (omega arith) (omega arith) one_page) held_page)
