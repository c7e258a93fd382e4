-- ===== src/Interrupts.antt =====
-- src/kernel/interrupts: the interrupt descriptor table (idt.c), the state of the keyboard and its
-- consumer (idt.c, keycodes.c), and the table of system calls (syscall.c). An address of code is a
-- number; an effect on a port is a command to it.
pub mod Gate
pub mod Keyboard
use vardar_os.Prelude.{List, [], bit_and, bit_or, if◌then◌else◌, ℕ, ◌*◌, ◌+◌, ◌==◌, ◌>>>◌, ◌^◌, ◌∷◌}

-- `IdtEntry`.
pub record IdtEntry : Type 0 where
  pub handler_low : ℕ
  pub segment : ℕ
  pub ist : ℕ
  pub attributes : ℕ
  pub handler_mid : ℕ
  pub handler_high : ℕ
  pub reserved : ℕ

-- `SetIdtEntry`.
unfoldable pub set_idt_entry : (ℕ → IdtEntry) → ℕ → ℕ → ℕ → ℕ → IdtEntry
set_idt_entry idt vector isr flags =
    let desc : IdtEntry = record {
      handler_low = bit_and isr 0xFFFF;
      handler_mid = bit_and (isr >>> 16) 0xFFFF;
      handler_high = bit_and (isr >>> 32) 0xFFFFFFFF;
      segment = 0x28;
      ist = 0;
      attributes = flags;
      reserved = 0;
    } in
    λ v. if v == vector then desc else idt v

-- A write of a byte to a port.
pub data Command : Type 0 where
  out : ℕ → ℕ → Command

abbrev pub master_pic_command : ℕ
master_pic_command = 0x20

abbrev pub master_pic_data : ℕ
master_pic_data = 0x21

abbrev pub slave_pic_command : ℕ
slave_pic_command = 0xa0

abbrev pub slave_pic_data : ℕ
slave_pic_data = 0xa1

-- The commands of `RemapPic`, between whose first two the masks are read.
unfoldable pub remap_pic : ℕ → ℕ → ℕ → ℕ → List Command
remap_pic master_int_mask slave_int_mask master_offset slave_offset =
    out master_pic_command 0x11
    ∷ out slave_pic_command 0x11
    ∷ out master_pic_data master_offset
    ∷ out slave_pic_data slave_offset
    ∷ out master_pic_data 4
    ∷ out slave_pic_data 2
    ∷ out master_pic_data 1
    ∷ out slave_pic_data 1
    ∷ out master_pic_data master_int_mask
    ∷ out slave_pic_data slave_int_mask
    ∷ []

-- SYSCALLS, by the number of the call; 0 is a NULL pointer.
unfoldable pub register_syscall : (ℕ → ℕ) → ℕ → ℕ → ℕ → ℕ
register_syscall syscalls rax handler n = if n == rax then handler else syscalls n

-- `Isr80Handler`: the handler it calls.
unfoldable pub isr80_handler : (ℕ → ℕ) → ℕ → ℕ
isr80_handler syscalls rax = syscalls rax

abbrev pub interrupt_gate : ℕ
interrupt_gate = 0x8E

abbrev pub user_mode_int : ℕ
user_mode_int = 0x60

-- The addresses of the handlers in idt_asm.asm and syscall.c.
pub record Handlers : Type 0 where
  pub isr1 : ℕ
  pub isr2 : ℕ
  pub isr80 : ℕ
  pub syscall_1 : ℕ
  pub syscall_3c : ℕ

-- `InitializeIdt` without `lidt`: the tables and the commands to the PICs.
unfoldable pub initialize_idt :
    Handlers → (ℕ → IdtEntry) → (ℕ → ℕ) → (ℕ → IdtEntry) × (ℕ → ℕ) × List Command
initialize_idt h idt syscalls =
    let idt1 = set_idt_entry idt 0x21 h.isr1 interrupt_gate in
    let idt2 = set_idt_entry idt1 0x22 h.isr2 interrupt_gate in
    let idt3 = set_idt_entry idt2 0x80 h.isr80 (bit_or interrupt_gate user_mode_int) in
    (
      idt3,
      register_syscall (register_syscall syscalls 0x01 h.syscall_1) 0x3c h.syscall_3c,
      out slave_pic_data 0xFF ∷ out master_pic_data 0xFF ∷ [],
    )

-- The address that the processor puts together from a gate.
unfoldable pub gate_handler : IdtEntry → ℕ
gate_handler e = e.handler_low + 2 ^ 16 * e.handler_mid + 2 ^ 32 * e.handler_high
