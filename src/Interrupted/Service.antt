-- ===== src/Interrupted/Service.antt =====
-- tests/interrupted/handleIRQ.S: what the processor runs at an interrupt, in IRQ mode.
pub mod Frame
use nspire_utils.Base.{ℕ, ◌+◌, ◌-◌, ◌*◌, ◌^◌, bit_and, bit_or, List, [], ◌∷◌, length}
use mathlib.Core.List.{map}
use nspire_utils.Word.{sub32, not32, shl32}
use nspire_utils.Machine.{write}
use nspire_utils.Arm.{put_words, load_regs}
use nspire_utils.Cpu.{control_byte}
use nspire_utils.Device.{Bus}
use nspire_utils.Vic.{pl190_base_address}
use nspire_utils.Vic.Offset.{vect_addr}

-- The registers that IRQ mode sees, its saved status register, the memory and the controller. Register 13
-- is the stack pointer and 14 the link register.
pub record Irq (V : Type 0) : Type 0 where
  pub regs : ℕ → ℕ
  pub cpsr : ℕ
  pub spsr : ℕ
  pub mem : ℕ → ℕ
  pub vic : V

-- `r0` to `r12` and `lr`.
abbrev pub saved_registers : List ℕ
saved_registers = 0 ∷ 1 ∷ 2 ∷ 3 ∷ 4 ∷ 5 ∷ 6 ∷ 7 ∷ 8 ∷ 9 ∷ 10 ∷ 11 ∷ 12 ∷ 14 ∷ []

module _ {V : Type 0} where
  abbrev pub set_reg : ℕ → ℕ → Irq V → Irq V
  set_reg r v s = record s { regs = write s.regs r v }

  -- `stmfd sp!, {rs}` and `ldmfd sp!, {rs}`.
  abbrev pub stmfd : List ℕ → Irq V → Irq V
  stmfd rs s =
      let sp = s.regs 13 - 4 * length rs in
      record s { regs = write s.regs 13 sp; mem = put_words sp (map s.regs rs) s.mem }

  abbrev pub ldmfd : List ℕ → Irq V → Irq V
  ldmfd rs s = record s {
    regs = write (load_regs rs (s.regs 13) s.mem s.regs) 13 (s.regs 13 + 4 * length rs);
  }

  -- `mrs r1, spsr` and `msr spsr_cxsf, r1`.
  abbrev pub read_spsr : Irq V → Irq V
  read_spsr s = set_reg 1 s.spsr s

  abbrev pub write_spsr : Irq V → Irq V
  write_spsr s = record s { spsr = s.regs 1 }

  -- `mrs r0, cpsr`, `bic` or `orr` with 0x80, `msr cpsr_c, r0`.
  enable_irq : Irq V → Irq V
  enable_irq s =
      let r0 = bit_and s.cpsr (not32 (shl32 1 7)) in
      record (set_reg 0 r0 s) { cpsr = control_byte r0 s.cpsr }

  disable_irq : Irq V → Irq V
  disable_irq s =
      let r0 = bit_or s.cpsr (shl32 1 7) in
      record (set_reg 0 r0 s) { cpsr = control_byte r0 s.cpsr }

  -- `bl HandleTimer1`, from the address behind the call on; the function is a parameter.
  pub call : (Irq V → Irq V) → ℕ → Irq V → Irq V
  call function return_address s = function (set_reg 14 return_address s)

module _ {V : Type 0} (bus : Bus V) where
  -- `handleIRQ`: the address that it jumps to, and the state behind it.
  unfoldable pub handle_irq : Irq V → ℕ × Irq V
  handle_irq s =
      let based = set_reg 0 pl190_base_address s in
      let vector = bus.read (based.regs 0 + vect_addr) based.vic in
      (vector.0, record based { vic = vector.1 })

  -- What the two service routines have in common: `lr` adjusted, the registers and the saved status saved,
  -- `body`, both restored, the controller told, and the return.
  pub service : (Irq V → Irq V) → Irq V → ℕ × Irq V
  service body s =
      let entered = read_spsr (stmfd saved_registers (set_reg 14 (sub32 (s.regs 14) 4) s)) in
      let served = body (stmfd (1 ∷ []) entered) in
      let left = ldmfd saved_registers (write_spsr (ldmfd (1 ∷ []) served)) in
      let based = set_reg 0 pl190_base_address left in
      let told = record based {
        vic = bus.write (based.regs 0 + vect_addr) (based.regs 0) based.vic;
      } in
      (told.regs 14, record told { cpsr = told.spsr })

  module _ (handle_timer1 : Irq V → Irq V) (return_address : ℕ) where
    -- `Timer_ISR`, which takes further interrupts during the call, and `Timer_ISR2`.
    timer_isr : Irq V → ℕ × Irq V
    unfolding enable_irq disable_irq call service
    timer_isr = service (λ s. disable_irq (call handle_timer1 return_address (enable_irq s)))

    unfoldable pub timer_isr2 : Irq V → ℕ × Irq V
    unfolding call service
    timer_isr2 = service (call handle_timer1 return_address)
