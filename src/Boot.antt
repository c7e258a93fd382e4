-- ===== src/Boot.antt =====
-- The start of the kernel: `stivale2_get_tag` of src/kernel/kernel.c, and hal/cpu_init.c.
pub mod Tags
use mathlib.Core.Option
use vardar_os.Prelude.{List, Option, [], if◌then◌else◌, none, some, suc, zero, ℕ, ◌+◌, ◌==◌, ◌∷◌}
use vardar_os.Memory.{Memory, read64}
use vardar_os.Pmm.{Pmm, alloc_first_frame}

-- The loop of `stivale2_get_tag` at `current_tag`: a tag is its identifier and the pointer to the
-- next one.
unfoldable pub get_tag_from : ℕ → Memory → ℕ → ℕ → Option ℕ
get_tag_from zero m id current_tag = none
get_tag_from (suc fuel) m id current_tag =
    let rest = get_tag_from fuel m id (read64 m (current_tag + 8)) in
    if current_tag == 0
    then some 0
    else if read64 m current_tag == id
    then some current_tag
    else rest

-- `tags` of `stivale2_struct` stands behind its two names of 64 bytes.
unfoldable pub stivale2_get_tag : ℕ → Memory → ℕ → ℕ → Option ℕ
stivale2_get_tag fuel m stivale2_struct id =
    get_tag_from fuel m id (read64 m (stivale2_struct + 128))

-- `stivale2_smp_info`.
pub record CpuInfo : Type 0 where
  pub processor_id : ℕ
  pub lapic_id : ℕ
  pub target_stack : ℕ
  pub goto_address : ℕ
  pub extra_argument : ℕ

-- The loop of `startup_aps`: each core but the first gets a frame for its stack and its entry point.
unfoldable pub startup_loop : ℕ → Pmm → ℕ → ℕ → List CpuInfo → Option (List CpuInfo × Pmm)
startup_loop fuel s bsp_lapic_id ap_entry [] = some ([], s)
startup_loop fuel s bsp_lapic_id ap_entry (c ∷ cpus) =
    Option.bind
      (if c.lapic_id == bsp_lapic_id
        then some (c, s)
        else Option.map
            (λ (frame, t). (record c { target_stack = frame; goto_address = ap_entry }, t))
            (alloc_first_frame fuel s))
      (λ (c', t).
        Option.map (λ (rest, u). (c' ∷ rest, u)) (startup_loop fuel t bsp_lapic_id ap_entry cpus))
