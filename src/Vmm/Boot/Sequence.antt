-- ===== src/Vmm/Boot/Sequence.antt =====
-- `MapKernelPmrs`: the calls of `MapMultiple` for the boot structures, one after the other.

use vardar_os.Prelude.{
  Bool, List, Option, [], add64, arith, false, if◌then◌else◌, inl, inr, leb, none, refl, some,
  sub64, true, ℕ, ◌&&◌, ◌*◌, ◌+◌, ◌<◌, ◌==◌, ◌||◌, ◌∙◌, ◌∷◌, ◌≡◌, ◌⊎◌,
}
use vardar_os.Pmm.{MmapEntry, Pmm, frame_size}
use vardar_os.Vmm.Kernel.{
  Pmr, Vmm, bootloader_reclaimable, four_gb, framebuffer, joined, map_entries, map_entry,
  map_kernel_pmrs, map_pmrs, ◌>>◌,
}
use vardar_os.Vmm.Boot.{Grown, IsMappable, Maps, frames_for, map_multiple-Maps}
use vardar_os.Vmm.{kernel_data, kernel_page, map_multiple}

-- The first and the last address that a structure of the kernel's image is mapped from.
abbrev pub pmr_base : ℕ → ℕ → Pmr → ℕ
pmr_base physical_base virtual_base r = add64 physical_base (sub64 r.base virtual_base)

abbrev pub pmr_bound : ℕ → ℕ → Pmr → ℕ
pmr_bound physical_base virtual_base r = add64 (pmr_base physical_base virtual_base r) r.length

abbrev pub entry_bound : MmapEntry → ℕ
entry_bound e = add64 e.base e.length

-- The frames that the tables for the structures may take.
unfoldable pub pmrs_frames : ℕ → ℕ → List Pmr → ℕ
pmrs_frames physical_base virtual_base [] = 0
pmrs_frames physical_base virtual_base (r ∷ pmrs) =
    frames_for (pmr_base physical_base virtual_base r) (pmr_bound physical_base virtual_base r)
    + pmrs_frames physical_base virtual_base pmrs

abbrev frames_if : Bool → ℕ → ℕ
frames_if b n = if b then n else 0

unfoldable pub entry_frames : MmapEntry → ℕ
entry_frames e =
    let n = frames_for e.base (entry_bound e) in
    let is_fb = e.kind == framebuffer in
    frames_if (is_fb || e.kind == bootloader_reclaimable) n
    + (frames_if is_fb n + (if leb (entry_bound e) four_gb then 0 else n + n))

unfoldable pub entries_frames : List MmapEntry → ℕ
entries_frames [] = 0
entries_frames (e ∷ mmap) = entry_frames e + entries_frames mmap

-- The frames that the tables for `MapKernelPmrs` may take.
abbrev pub kernel_frames : Vmm → ℕ
kernel_frames k =
    frames_for 0x1000 four_gb
    + (pmrs_frames k.physical_base k.virtual_base k.pmrs + entries_frames k.mmap)

-- What `MapKernelPmrs` maps of an entry can be mapped.
unfoldable pub IsMappableEntry : ℕ → MmapEntry → Type 0
IsMappableEntry rounds e =
    (e.kind ≡ framebuffer) ⊎ ((e.kind ≡ bootloader_reclaimable) ⊎ (four_gb < entry_bound e))
    → IsMappable rounds e.base (entry_bound e)

unfoldable pub AllMappableEntries : ℕ → List MmapEntry → Type 0
AllMappableEntries rounds [] = Unit
AllMappableEntries rounds (e ∷ mmap) = IsMappableEntry rounds e × AllMappableEntries rounds mmap

unfoldable pub AllMappable : ℕ → ℕ → ℕ → List Pmr → Type 0
AllMappable rounds physical_base virtual_base [] = Unit
AllMappable rounds physical_base virtual_base (r ∷ pmrs) =
    IsMappable rounds (pmr_base physical_base virtual_base r)
      (pmr_bound physical_base virtual_base r)
    × AllMappable rounds physical_base virtual_base pmrs

module _ (rounds fuel root : ℕ) where
  Grown-trans :
      (s t u : Pmm) (first second : ℕ)
      → Grown s root first t
      → Grown t root second u
      → Grown s root (first + second) u
  Grown-trans s t u first second a b = record {
    level = b.level;
    tables = b.tables;
    at_root = b.at_root;
    ahead = omega (arith, a.ahead, b.ahead);
    count = b.count ∙ a.count;
  }

  Maps-none : Maps rounds fuel root 0 (λ s. some (true, s))
  unfolding Maps
  Maps-none s level w at_root room f = (
    s,
    refl,
    record { level = level; tables = w; at_root = at_root; ahead = omega arith; count = refl },
  )

  -- A call behind another that succeeds.
  Maps-bind :
      (first second : ℕ) (c : Pmm → Option (Bool × Pmm)) (k : Bool → Pmm → Option (Bool × Pmm))
      → Maps rounds fuel root first c
      → Maps rounds fuel root second (k true)
      → Maps rounds fuel root
          (first + second)
          (λ s. elim (c s) [ none ↦ none | some (b, s') ↦ k b s' ])
  unfolding Maps
  Maps-bind first second c k maps maps' s level w at_root room f =
      let (t, run, g) = maps s level w at_root (omega (arith, room)) f in
      let (u, run', g') =
        maps' t g.level g.tables g.at_root (omega (arith, room, g.ahead))
          (omega (arith, f, g.count)) in
      (u, rw run run', Grown-trans s t u first second g g')

  -- A call under a test.
  Maps-if :
      (b : Bool) (spent : ℕ) (c : Pmm → Option (Bool × Pmm))
      → (b ≡ true → Maps rounds fuel root spent c)
      → Maps rounds fuel root (frames_if b spent) (λ s. if b then c s else some (true, s))
  Maps-if true spent c maps = maps refl
  Maps-if false spent c maps = Maps-none

  pub map_pmrs-Maps :
      (physical_base virtual_base : ℕ) (pmrs : List Pmr)
      → AllMappable rounds physical_base virtual_base pmrs
      → Maps rounds fuel root
          (pmrs_frames physical_base virtual_base pmrs)
          (map_pmrs rounds fuel (root * frame_size) physical_base virtual_base true pmrs)
  unfolding map_pmrs AllMappable pmrs_frames
  map_pmrs-Maps physical_base virtual_base [] all = Maps-none
  map_pmrs-Maps physical_base virtual_base (r ∷ pmrs) (here, all) =
      let phys = pmr_base physical_base virtual_base r in
      Maps-bind _ _ _
        (λ b s'.
          map_pmrs rounds fuel (root * frame_size) physical_base virtual_base (true && b) pmrs s')
        (map_multiple-Maps rounds fuel root phys (add64 phys r.length) (sub64 r.base phys) here)
        (map_pmrs-Maps physical_base virtual_base pmrs all)

  -- Two calls, where the result of the first is ignored, and a call whose result is joined.
  Maps-then :
      (first second : ℕ) (c d : Pmm → Option (Bool × Pmm))
      → Maps rounds fuel root first c
      → Maps rounds fuel root second d
      → Maps rounds fuel root (first + second) (λ s. ◌>>◌ (c s) d)
  Maps-then first second c d = Maps-bind first second c (λ b. d)

  Maps-joined :
      (spent : ℕ) (c : Pmm → Option (Bool × Pmm))
      → Maps rounds fuel root spent c
      → Maps rounds fuel root spent (λ s. joined true (c s))
  unfolding Maps
  Maps-joined spent c maps s level w at_root room f =
      let (t, run, g) = maps s level w at_root room f in (t, rw run refl, g)

  -- What is mapped of an entry that ends above 4 GB.
  Maps-unless :
      (b : Bool) (n : ℕ) (c d : Pmm → Option (Bool × Pmm))
      → (b ≡ false → Maps rounds fuel root n c)
      → (b ≡ false → Maps rounds fuel root n d)
      → Maps rounds fuel root (if b then 0 else n + n) (λ s.
        if b
        then some (true, s)
        else elim (c s) [ none ↦ none | some (b', s') ↦ joined (true && b') (d s') ])
  Maps-unless true n c d maps maps' = Maps-none
  Maps-unless false n c d maps maps' =
      Maps-bind n n c (λ b' s'. joined (true && b') (d s')) (maps refl)
        (Maps-joined n d (maps' refl))

  map_entry-Maps :
      (e : MmapEntry)
      → IsMappableEntry rounds e
      → Maps rounds fuel root (entry_frames e) (map_entry rounds fuel (root * frame_size) true e)
  unfolding map_entry IsMappableEntry entry_frames
  map_entry-Maps e mappable =
      let n = frames_for e.base (entry_bound e) in
      let is_fb = e.kind == framebuffer in
      let above = leb (entry_bound e) four_gb in
      let at = λ (offset : ℕ) (s : Pmm).
        map_multiple rounds fuel s (root * frame_size) e.base (entry_bound e) offset kernel_page in
      let maps = λ (offset : ℕ) (here : IsMappable rounds e.base (entry_bound e)).
        map_multiple-Maps rounds fuel root e.base (entry_bound e) offset here in
      Maps-then _ _
        (λ s. if is_fb || e.kind == bootloader_reclaimable then at 0 s else some (true, s)) _
        (Maps-if (is_fb || e.kind == bootloader_reclaimable) n (at 0)
          (λ h. maps 0 (mappable (ground (arith, h)))))
        (Maps-then _ _ (λ s. if is_fb then at kernel_data s else some (true, s)) _
          (Maps-if is_fb n (at kernel_data)
            (λ h. maps kernel_data (mappable (inl (ground (arith, h))))))
          (Maps-unless above n (at 0) (at kernel_data)
            (λ h. maps 0 (mappable (inr (inr (ground (arith, h))))))
            (λ h. maps kernel_data (mappable (inr (inr (ground (arith, h))))))))

  pub map_entries-Maps :
      (mmap : List MmapEntry)
      → AllMappableEntries rounds mmap
      → Maps rounds fuel root
          (entries_frames mmap)
          (map_entries rounds fuel (root * frame_size) true mmap)
  unfolding map_entries AllMappableEntries entries_frames
  map_entries-Maps [] all = Maps-none
  map_entries-Maps (e ∷ mmap) (here, all) =
      Maps-bind _ _ _ (λ b s'. map_entries rounds fuel (root * frame_size) b mmap s')
        (map_entry-Maps e here) (map_entries-Maps mmap all)

  pub map_kernel_pmrs-Maps :
      (k : Vmm)
      → IsMappable rounds 0x1000 four_gb
      → AllMappable rounds k.physical_base k.virtual_base k.pmrs
      → AllMappableEntries rounds k.mmap
      → Maps rounds fuel root (kernel_frames k) (map_kernel_pmrs rounds fuel k (root * frame_size))
  unfolding map_kernel_pmrs
  map_kernel_pmrs-Maps k whole image mmap =
      Maps-then _ _
        (λ s. map_multiple rounds fuel s (root * frame_size) 0x1000 four_gb kernel_data kernel_page)
        _ (map_multiple-Maps rounds fuel root 0x1000 four_gb kernel_data whole)
        (Maps-bind _ _
          (map_pmrs rounds fuel (root * frame_size) k.physical_base k.virtual_base true k.pmrs)
          (λ b. map_entries rounds fuel (root * frame_size) b k.mmap)
          (map_pmrs-Maps k.physical_base k.virtual_base k.pmrs image)
          (map_entries-Maps k.mmap mmap))
