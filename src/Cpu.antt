-- ===== src/Cpu.antt =====
-- include/nspire-utils/platform/CPU.hpp: the program status register, the banked stack pointers and
-- the saved status registers, which the code reaches by switching the processor's mode.
pub mod Banks
use nspire_utils.Base.{
  ℕ, ◌+◌, ◌*◌, ◌/◌, ◌%◌, ◌^◌, bit_and, bit_or, Bool, true, false, ◌==◌, if◌then◌else◌,
}
use nspire_utils.Word.{not32, shl32}
use nspire_utils.Machine.{write}

-- The stack pointer and the saved status register by the number of the mode that sees them.
pub record Cpu : Type 0 where
  pub cpsr : ℕ
  pub sp : ℕ → ℕ
  pub spsr : ℕ → ℕ

-- User and system mode see one stack pointer.
abbrev bank : ℕ → ℕ
bank mode = if mode == 0x1f then 0x10 else mode

-- `msr cpsr_c`: the low byte alone is written, and not even that in user mode.
unfoldable pub control_byte : ℕ → ℕ → ℕ
control_byte v cpsr = cpsr / 2 ^ 8 * 2 ^ 8 + v % 2 ^ 8

abbrev pub write_control : ℕ → Cpu → Cpu
write_control v c = if c.cpsr % 2 ^ 5 == 0x10 then c else record c { cpsr = control_byte v c.cpsr }

-- `msr cpsr_cxsf`: the whole word, or in user mode the flags alone.
abbrev write_status : ℕ → Cpu → Cpu
write_status v c =
    if c.cpsr % 2 ^ 5 == 0x10
    then record c { cpsr = v / 2 ^ 24 * 2 ^ 24 + c.cpsr % 2 ^ 24 }
    else record c { cpsr = v }

-- `mov %0, sp` and `mov sp, %0`, `mrs %0, spsr` and `msr spsr_cxsf, %0` in the mode at hand.
-- User and system mode have no saved status register; what such an access does is not defined.
abbrev read_sp : Cpu → ℕ
read_sp c = c.sp (bank (c.cpsr % 2 ^ 5))

abbrev write_sp : ℕ → Cpu → Cpu
write_sp v c = record c { sp = write c.sp (bank (c.cpsr % 2 ^ 5)) v }

abbrev read_spsr : Cpu → ℕ
read_spsr c = c.spsr (c.cpsr % 2 ^ 5)

abbrev write_spsr : ℕ → Cpu → Cpu
write_spsr v c = record c { spsr = write c.spsr (c.cpsr % 2 ^ 5) v }

unfoldable pub irq_enable : Cpu → Cpu
irq_enable c = write_control (bit_and c.cpsr (not32 (shl32 1 7))) c

unfoldable pub irq_disable : Cpu → Cpu
irq_disable c = write_control (bit_or c.cpsr (shl32 1 7)) c

unfoldable pub irq_save : Cpu → Bool
irq_save c = bit_and c.cpsr (shl32 1 7) == 0

unfoldable pub irq_restore : Bool → Cpu → Cpu
irq_restore true c = irq_enable c
irq_restore false c = irq_disable c

pub record CpuState : Type 0 where
  pub cpsr : ℕ
  pub sp_irq : ℕ
  pub sp_fiq : ℕ
  pub spsr_irq : ℕ
  pub spsr_fiq : ℕ
  pub spsr_svc : ℕ

-- `(cpsr & ~0x1F) | mode | 0xC0`
pub mode_cpsr : ℕ → ℕ → ℕ
mode_cpsr cpsr mode = bit_or (bit_or (bit_and cpsr (not32 0x1f)) mode) 0xc0

pub save_cpu_state : Cpu → CpuState × Cpu
save_cpu_state c =
    let irq = write_control (mode_cpsr c.cpsr 0x12) c in
    let fiq = write_control (mode_cpsr c.cpsr 0x11) irq in
    let svc = write_control (mode_cpsr c.cpsr 0x13) fiq in
    (
      record {
        cpsr = c.cpsr;
        sp_irq = read_sp irq;
        sp_fiq = read_sp fiq;
        spsr_irq = read_spsr irq;
        spsr_fiq = read_spsr fiq;
        spsr_svc = read_spsr svc;
      },
      write_control c.cpsr svc,
    )

pub restore_cpu_state : CpuState → Cpu → Cpu
restore_cpu_state state c =
    let irq =
      write_spsr state.spsr_irq (write_sp state.sp_irq (write_control (mode_cpsr c.cpsr 0x12) c)) in
    let fiq =
      write_spsr state.spsr_fiq
        (write_sp state.sp_fiq (write_control (mode_cpsr c.cpsr 0x11) irq)) in
    let svc = write_spsr state.spsr_svc (write_control (mode_cpsr c.cpsr 0x13) fiq) in
    write_status state.cpsr svc

-- `CPU_State_Checkpoint`: its constructor and its destructor.
pub record CpuStateCheckpoint : Type 0 where
  pub state : CpuState

unfoldable pub take_checkpoint : Cpu → CpuStateCheckpoint × Cpu
take_checkpoint c = let saved = save_cpu_state c in (record { state = saved.0 }, saved.1)

unfoldable pub leave_checkpoint : CpuStateCheckpoint → Cpu → Cpu
leave_checkpoint k c = restore_cpu_state k.state c

pub data CpuMode : Type 0 where
  fiq irq supervisor abort undefined system : CpuMode

abbrev mode_number : CpuMode → ℕ
mode_number fiq = 0x11
mode_number irq = 0x12
mode_number supervisor = 0x13
mode_number abort = 0x17
mode_number undefined = 0x1b
mode_number system = 0x1f

unfoldable get_banked_sp : CpuMode → Cpu → ℕ × Cpu
get_banked_sp target c =
    let switched = write_control (mode_cpsr c.cpsr (mode_number target)) c in
    (read_sp switched, write_control c.cpsr switched)

unfoldable pub set_banked_sp : CpuMode → ℕ → Cpu → Cpu
set_banked_sp target v c =
    write_control c.cpsr (write_sp v (write_control (mode_cpsr c.cpsr (mode_number target)) c))
