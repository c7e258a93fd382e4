-- ===== src/Vmm/Boot/Memory.antt =====
-- `InitPageTable` behind `InitPmm`: `_start` calls `InitAcpi` and `ParseMadt` between them, which change
-- neither the frames nor the tables.
use vardar_os.Pmm.{Pmm}
use vardar_os.Vmm.Kernel.{Vmm}
