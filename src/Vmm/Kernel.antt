-- ===== src/Vmm/Kernel.antt =====
-- The kernel's own page table: its mappings at boot, and the variants of the operations that work
-- on it. `rounds` bounds each `MapMultiple`.
use mathlib.Core.Option
use vardar_os.Prelude.{
  Bool, List, Option, [], add64, bit_and, complement64, false, if◌then◌else◌, leb, none, some,
  sub64, true, ℕ, ◌&&◌, ◌<<<◌, ◌==◌, ◌>>>◌, ◌||◌, ◌∷◌,
}
use vardar_os.Memory.{read64}
use vardar_os.Pmm.{MmapEntry, Pmm, alloc_first_frame}
use vardar_os.Vmm.{
  entry_at, get_page, get_page_table, kernel_data, kernel_page, map_multiple, map_page, unmap_page,
  vaddr_to_paddr,
}

-- `struct stivale2_pmr`, less its permissions, which the code does not read.
pub record Pmr : Type 0 where
  pub base : ℕ
  pub length : ℕ

-- The statics of the file, and the frames.
pub record Vmm : Type 0 where
  pub kernel_root : ℕ
  pub mmap : List MmapEntry
  pub physical_base : ℕ
  pub virtual_base : ℕ
  pub pmrs : List Pmr
  pub pmm : Pmm

abbrev pub four_gb : ℕ
four_gb = 0x100000000

-- `STIVALE2_MMAP_BOOTLOADER_RECLAIMABLE` and `STIVALE2_MMAP_FRAMEBUFFER`.
abbrev pub bootloader_reclaimable : ℕ
bootloader_reclaimable = 0x1000

abbrev pub framebuffer : ℕ
framebuffer = 0x1002

-- A call whose result the code ignores, and one that it joins to `success`.
abbrev pub ◌>>◌ : Option (Bool × Pmm) → (Pmm → Option (Bool × Pmm)) → Option (Bool × Pmm)
◌>>◌ m k = elim m [ none ↦ none | some (_, s) ↦ k s ]

abbrev pub joined : Bool → Option (Bool × Pmm) → Option (Bool × Pmm)
joined success = Option.map (λ (b, s). (success && b, s))

module _ (rounds fuel : ℕ) where
  -- The first loop of `MapKernelPmrs`.
  unfoldable pub map_pmrs : ℕ → ℕ → ℕ → Bool → List Pmr → Pmm → Option (Bool × Pmm)
  map_pmrs root physical_base virtual_base success [] s = some (success, s)
  map_pmrs root physical_base virtual_base success (r ∷ pmrs) s =
      let phys = add64 physical_base (sub64 r.base virtual_base) in
      let offset = sub64 r.base phys in
      elim (map_multiple rounds fuel s root phys (add64 phys r.length) offset kernel_page) [
        | none ↦ none
        | some (b, s') ↦ map_pmrs root physical_base virtual_base (success && b) pmrs s'
      ]

  -- The body of the second loop for the entry `e`. `KERNEL_PAGE & EXECUTABLE` is `KERNEL_PAGE`.
  unfoldable pub map_entry : ℕ → Bool → MmapEntry → Pmm → Option (Bool × Pmm)
  map_entry root success e s =
      let bound = add64 e.base e.length in
      let is_fb = e.kind == framebuffer in
      let low = λ (s : Pmm).
        if is_fb || e.kind == bootloader_reclaimable
        then map_multiple rounds fuel s root e.base bound 0 kernel_page
        else some (true, s) in
      let high = λ (s : Pmm).
        if is_fb
        then map_multiple rounds fuel s root e.base bound kernel_data kernel_page
        else some (true, s) in
      let rest = λ (s : Pmm).
        if leb bound four_gb
        then some (success, s)
        else elim (map_multiple rounds fuel s root e.base bound 0 kernel_page) [
          | none ↦ none
          | some (b, s') ↦
              joined (success && b)
                (map_multiple rounds fuel s' root e.base bound kernel_data kernel_page)
        ] in
      ◌>>◌ (low s) (λ s'. ◌>>◌ (high s') rest)

  unfoldable pub map_entries : ℕ → Bool → List MmapEntry → Pmm → Option (Bool × Pmm)
  map_entries root success [] s = some (success, s)
  map_entries root success (e ∷ mmap) s = elim (map_entry root success e s) [
    | none ↦ none
    | some (b, s') ↦ map_entries root b mmap s'
  ]

  unfoldable pub map_kernel_pmrs : Vmm → ℕ → Pmm → Option (Bool × Pmm)
  map_kernel_pmrs k root s =
      ◌>>◌ (map_multiple rounds fuel s root 0x1000 four_gb kernel_data kernel_page) (λ s'.
        elim (map_pmrs root k.physical_base k.virtual_base true k.pmrs s') [
          | none ↦ none
          | some (b, s'') ↦ map_entries root b k.mmap s''
        ])

  -- `InitPageTable`, with the boot structures that it stores already in the state.
  unfoldable pub init_page_table : Vmm → Option (Bool × Vmm)
  init_page_table k = elim (alloc_first_frame fuel k.pmm) [
    | none ↦ none
    | some (root, s) ↦
        let k' = record k { kernel_root = root; pmm = s } in
        if root == 0 then some (false, k') else elim (map_kernel_pmrs k' root s) [
          | none ↦ none
          | some (b, s') ↦ elim (map_multiple rounds fuel s' root 0x1000 four_gb 0 kernel_page) [
            | none ↦ none
            | some (b', s'') ↦
                Option.map (λ (b'', s'''). (b && b' && b'', record k' { pmm = s''' }))
                  (map_multiple rounds fuel s'' root 0x1000 four_gb kernel_data kernel_page)
          ]
        ]
  ]

  unfoldable pub map_multiple_kernel : Vmm → ℕ → ℕ → ℕ → ℕ → Option (Bool × Pmm)
  map_multiple_kernel k base bound offset flags =
      map_multiple rounds fuel k.pmm k.kernel_root base bound offset flags

unfoldable pub get_kernel_page : Vmm → ℕ → ℕ
get_kernel_page k vaddr = get_page k.pmm.memory k.kernel_root vaddr

unfoldable pub map_kernel_page : ℕ → Vmm → ℕ → ℕ → ℕ → Option (Bool × Pmm)
map_kernel_page fuel k vaddr paddr flags = map_page fuel k.pmm k.kernel_root vaddr paddr flags

unfoldable pub unmap_kernel_page : Vmm → ℕ → Bool × Pmm
unmap_kernel_page k vaddr = unmap_page k.pmm k.kernel_root vaddr

unfoldable pub kernel_vaddr_to_paddr : Vmm → ℕ → ℕ
kernel_vaddr_to_paddr k vaddr = vaddr_to_paddr k.pmm.memory k.kernel_root vaddr

-- `RemapKernelPage`; like `RemapPage` it leaves `new_vaddr` unused.
unfoldable pub remap_kernel_page : ℕ → Vmm → ℕ → ℕ → ℕ → Option (Bool × Pmm)
remap_kernel_page fuel k former_vaddr new_vaddr flags =
    let paddr = kernel_vaddr_to_paddr k former_vaddr in
    let (unmapped, s) = unmap_kernel_page k former_vaddr in
    Option.map (λ (mapped, s'). (unmapped && mapped, s'))
      (map_kernel_page fuel (record k { pmm = s }) former_vaddr paddr flags)

-- The index that `AssertKernelMapping` computes at bit `shift`.
abbrev assert_index : ℕ → ℕ → ℕ
assert_index virt_addr shift = bit_and virt_addr (0x1ff <<< shift) >>> shift

-- `AssertKernelMapping`. `! pml1[pml1_entry] & PRESENT` is `(! pml1[pml1_entry]) & PRESENT`, so the
-- test is for an entry of 0.
unfoldable pub assert_kernel_mapping : Vmm → ℕ → ℕ → Bool
assert_kernel_mapping k phys_addr virt_addr =
    let m = k.pmm.memory in
    let pml3 = get_page_table m k.kernel_root (assert_index virt_addr 39) in
    let pml2 = get_page_table m pml3 (assert_index virt_addr 30) in
    let pml1 = get_page_table m pml2 (assert_index virt_addr 21) in
    let entry = read64 m (entry_at pml1 (assert_index virt_addr 12)) in
    if k.kernel_root == 0 || pml3 == 0 || pml2 == 0 || pml1 == 0 || entry == 0
    then false
    else bit_and entry (complement64 511) == phys_addr
