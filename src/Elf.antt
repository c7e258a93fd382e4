-- ===== src/Elf.antt =====
-- src/kernel/proc/elf.c and proc.h: the loader of processes. The file and the frames lie in the
-- memory of the physical memory manager, and so does `ELF_MAGIC`, whose address is given.
use mathlib.Core.Option
use vardar_os.Prelude.{
  Option, add64, if◌then◌else◌, ltb, none, some, suc, u64, zero, ℕ, ◌+◌, ◌-◌, ◌<<<◌, ◌==◌, ◌>>>◌,
}
use vardar_os.Prelude.Int.{is_zero, negsuc, pos, ℤ}
use vardar_os.Memory.{Memory, read16, read32, read64}
use vardar_os.Utils.String.{memmove, strncmp}
use vardar_os.Pmm.{Pmm, alloc_first_frame}
use vardar_os.Vmm.{map_page}
use vardar_os.Vmm.Kernel.{Vmm, map_kernel_pmrs}
use vardar_os.Heap.{Heap}
use vardar_os.Heap.Setup.{map_heap}

-- The fields of `elf_hdr_t` that are read, but for the magic number.
pub record ElfHdr : Type 0 where
  pub entry_pt : ℕ
  pub phdr_offset : ℕ
  pub phdr_num_entries : ℕ

-- `elf_phdr_t`.
pub record ElfPhdr : Type 0 where
  pub kind : ℕ
  pub flags : ℕ
  pub offset : ℕ
  pub vaddr : ℕ
  pub paddr : ℕ
  pub file_size : ℕ
  pub mem_size : ℕ
  pub alignment : ℕ

-- The fields of `pcb_t` that `parse_elf` writes.
pub record Pcb : Type 0 where
  pub pagemap : ℕ
  pub rip : ℕ
  pub rsp : ℕ
  pub rbp : ℕ

abbrev pub elf_phdr_load : ℕ
elf_phdr_load = 1

abbrev pub default_stack_base : ℕ
default_stack_base = 0xFFFFFFFF

-- `PRESENT | READ_WRITABLE | USER_ACCESSIBLE`.
abbrev pub user_proc_page : ℕ
user_proc_page = 7

unfoldable pub read_elf_hdr : Memory → ℕ → ElfHdr
read_elf_hdr m a = record {
  entry_pt = read64 m (a + 24);
  phdr_offset = read64 m (a + 32);
  phdr_num_entries = read16 m (a + 56);
}

-- A program header has 56 bytes.
unfoldable pub read_elf_phdr : Memory → ℕ → ElfPhdr
read_elf_phdr m a = record {
  kind = read32 m a;
  flags = read32 m (a + 4);
  offset = read64 m (a + 8);
  vaddr = read64 m (a + 16);
  paddr = read64 m (a + 24);
  file_size = read64 m (a + 32);
  mem_size = read64 m (a + 40);
  alignment = read64 m (a + 48);
}

-- The bound is rounded up to a page.
unfoldable pub seg_bound_of : ElfPhdr → ℕ
seg_bound_of p = u64 ((u64 (add64 p.vaddr p.mem_size + 4096 - 1) >>> 12) <<< 12)

-- One page of a segment: a frame, the contents, and the mapping, whose result is ignored.
unfoldable pub load_page : ℕ → Pmm → ℕ → ℕ → ℕ → ℕ → Option Pmm
load_page fuel s pagemap segment seg_base off =
    Option.bind (alloc_first_frame fuel s) (λ (frame, s1).
      let s2 = record s1 { memory = memmove s1.memory frame (add64 segment off) 0x1000 } in
      Option.map (λ (mapped, s3). s3)
        (map_page fuel s2 pagemap (add64 seg_base off) frame user_proc_page))

-- The loop over the pages, which runs to `seg_bound` from offset 0.
unfoldable pub load_pages : ℕ → ℕ → Pmm → ℕ → ℕ → ℕ → ℕ → ℕ → Option Pmm
load_pages zero fuel s pagemap segment seg_base seg_bound off = none
load_pages (suc rounds) fuel s pagemap segment seg_base seg_bound off =
    let rest =
      Option.bind (load_page fuel s pagemap segment seg_base off)
        (λ t. load_pages rounds fuel t pagemap segment seg_base seg_bound (add64 off 0x1000)) in
    if ltb off seg_bound then rest else some s

-- The loop over the program headers.
unfoldable pub load_segments : ℕ → ℕ → ℕ → Pmm → ℕ → ℕ → ℕ → Option Pmm
load_segments zero rounds fuel s pagemap raw_elf phdr = some s
load_segments (suc left) rounds fuel s pagemap raw_elf phdr =
    let p = read_elf_phdr s.memory phdr in
    Option.bind
      (if p.kind == elf_phdr_load
        then load_pages rounds fuel s pagemap (add64 raw_elf p.offset) p.vaddr (seg_bound_of p) 0
        else some s)
      (λ t. load_segments left rounds fuel t pagemap raw_elf (phdr + 56))

-- `DEFAULT_STACK_BASE`, which is the last byte below 4 GiB, is mapped as it is.
unfoldable pub map_stack : ℕ → Pmm → ℕ → Option Pmm
map_stack fuel s pagemap = Option.bind (alloc_first_frame fuel s) (λ (stack, s1).
    Option.map (λ (mapped, s2). s2)
      (map_page fuel s1 pagemap default_stack_base stack user_proc_page))

-- The mappings of the kernel and of the heap in the tables of the process; their results are ignored.
unfoldable pub map_kernel : ℕ → ℕ → Vmm → Heap → ℕ → Pmm → Option Vmm
map_kernel rounds fuel k h pagemap s =
    Option.bind (map_kernel_pmrs rounds fuel k pagemap s) (λ (mapped, s1).
      let k1 : Vmm = record k { pmm = s1 } in
      Option.map (λ (heap_mapped, s2). record k1 { pmm = s2 }) (map_heap rounds fuel k1 h pagemap))

-- What `parse_elf` does with a file whose magic number is right.
unfoldable pub load_elf : ℕ → ℕ → Vmm → Heap → Pmm → ℕ → ℕ → Option (Pcb × Vmm)
load_elf rounds fuel k h s pagemap raw_elf =
    let header = read_elf_hdr s.memory raw_elf in
    let pcb : Pcb = record {
      pagemap = pagemap;
      rip = header.entry_pt;
      rsp = default_stack_base;
      rbp = default_stack_base;
    } in
    Option.bind
      (load_segments header.phdr_num_entries rounds fuel s pagemap raw_elf
        (add64 raw_elf header.phdr_offset))
      (λ s1.
        Option.bind (map_stack fuel s1 pagemap)
          (λ s2. Option.map (λ k'. (pcb, k')) (map_kernel rounds fuel k h pagemap s2)))

-- `parse_elf`: its code, the control block and the state. The frame of the page map is taken before
-- the magic number is looked at, and kept.
unfoldable pub parse_elf : ℕ → ℕ → Vmm → Heap → ℕ → ℕ → Pcb → Option (ℤ × Pcb × Vmm)
parse_elf rounds fuel k h elf_magic raw_elf pcb =
    Option.bind (alloc_first_frame fuel k.pmm) (λ (pagemap, s).
      if is_zero (strncmp s.memory raw_elf elf_magic 4)
      then Option.map (λ (pcb', k'). (pos 0, pcb', k')) (load_elf rounds fuel k h s pagemap raw_elf)
      else some (negsuc 0, record pcb { pagemap = pagemap }, record k { pmm = s }))
