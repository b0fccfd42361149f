-- ===== src/Cpu/Banks.antt =====
-- The mode switches reach the banks that they name and leave the status register as it was.
use nspire_utils.Base.{
  ℕ, ◌+◌, ◌*◌, ◌/◌, ◌%◌, ◌^◌, ◌<◌, bit_and, bit_or, ◌≡◌, ◌≢◌, ◌∙◌, arith, refl, ◌==◌, Bool, true,
  false, Bool-cases, inl, inr, ne→==,
}
use nspire_utils.Word.{not32, shl32}
use nspire_utils.Word.Mask.{bit_and_field, bit_or_sum, bit_and_low}
use nspire_utils.Word.Shift.{bit_or-mod, bit_and-mod, bit_or-zero}
use nspire_utils.Machine.{write}
use nspire_utils.Machine.Store.{write_ne}
use nspire_utils.Cpu.{
  Cpu, CpuState, control_byte, write_control, mode_cpsr, save_cpu_state, restore_cpu_state,
  irq_enable, irq_disable, irq_restore, irq, set_banked_sp,
}

-- The mode that the processor is in after a switch.
in_mode :
    (cpsr mode now : ℕ)
    → cpsr < 2 ^ 32
    → mode < 2 ^ 5
    → control_byte (mode_cpsr cpsr mode) now % 2 ^ 5 ≡ mode
unfolding control_byte mode_cpsr
in_mode cpsr mode now word small =
    let cleared : bit_and cpsr (not32 0x1f) ≡ cpsr / 2 ^ 5 * 2 ^ 5 =
      omega (arith, bit_and_field 27 5 cpsr) in
    let set : bit_or (bit_and cpsr (not32 0x1f)) mode ≡ cpsr / 2 ^ 5 * 2 ^ 5 + mode =
      rw cleared (bit_or_sum 5 (cpsr / 2 ^ 5) mode small) in
    let low : (cpsr / 2 ^ 5 * 2 ^ 5 + mode) % 2 ^ 5 ≡ mode = omega arith in
    let masked : bit_or (cpsr / 2 ^ 5 * 2 ^ 5 + mode) 0xc0 % 2 ^ 5 ≡ mode =
      bit_or-mod 5 (cpsr / 2 ^ 5 * 2 ^ 5 + mode) 0xc0 ∙ rw low (bit_or-zero mode) in
    rw set (omega arith)

-- The processor is still in the mode that it was in.
abbrev pub SameMode : Cpu → Cpu → Type 0
SameMode c c' = (c'.cpsr < 2 ^ 32) × (c'.cpsr % 2 ^ 5 ≡ c.cpsr % 2 ^ 5)

write_control-SameMode :
    (v : ℕ) (c : Cpu)
    → c.cpsr < 2 ^ 32
    → v % 2 ^ 5 ≡ c.cpsr % 2 ^ 5
    → SameMode c (write_control v c)
unfolding control_byte
write_control-SameMode v c word same = elim (Bool-cases (c.cpsr % 2 ^ 5 == 0x10)) [
  | inl user ↦ rw user (word, refl)
  | inr privileged ↦ rw privileged (omega arith, omega arith)
]

pub irq_enable-SameMode : (c : Cpu) → c.cpsr < 2 ^ 32 → SameMode c (irq_enable c)
unfolding irq_enable
irq_enable-SameMode c word =
    write_control-SameMode _ c word
      (bit_and-mod 5 c.cpsr (not32 (shl32 1 7)) ∙ bit_and_low 5 (c.cpsr % 2 ^ 5) ∙ omega arith)

pub irq_restore-SameMode : (b : Bool) (c : Cpu) → c.cpsr < 2 ^ 32 → SameMode c (irq_restore b c)
unfolding irq_restore irq_disable
irq_restore-SameMode true c word = irq_enable-SameMode c word
irq_restore-SameMode false c word =
    write_control-SameMode _ c word (bit_or-mod 5 c.cpsr (shl32 1 7) ∙ bit_or-zero (c.cpsr % 2 ^ 5))

once_back : (cpsr u : ℕ) → control_byte cpsr (control_byte u cpsr) ≡ cpsr
unfolding control_byte
once_back cpsr u = omega arith

-- The status register is not changed by a visit to the IRQ mode's bank, nor by the attempt in user mode.
pub set_banked_sp-cpsr : (v : ℕ) (c : Cpu) → c.cpsr < 2 ^ 32 → (set_banked_sp irq v c).cpsr ≡ c.cpsr
unfolding set_banked_sp
set_banked_sp-cpsr v c word = elim (Bool-cases (c.cpsr % 2 ^ 5 == 0x10)) [
  | inl user ↦ rw (user, user) refl
  | inr privileged ↦
      rw (privileged, in_mode c.cpsr 0x12 c.cpsr word (omega arith)) (once_back c.cpsr _)
]

-- A switch back writes the byte that the switches replaced.
switch_back :
    (cpsr u v w : ℕ)
    → control_byte cpsr (control_byte w (control_byte v (control_byte u cpsr))) ≡ cpsr
unfolding control_byte
switch_back cpsr u v w = omega arith

module _ (c : Cpu) (word : c.cpsr < 2 ^ 32) (privileged : c.cpsr % 2 ^ 5 ≢ 0x10) where
  pub save_cpu_state_lem : save_cpu_state c ≡ (
    record {
      cpsr = c.cpsr;
      sp_irq = c.sp 0x12;
      sp_fiq = c.sp 0x11;
      spsr_irq = c.spsr 0x12;
      spsr_fiq = c.spsr 0x11;
      spsr_svc = c.spsr 0x13;
    },
    c,
  )
  unfolding save_cpu_state
  save_cpu_state_lem =
      let irq = control_byte (mode_cpsr c.cpsr 0x12) c.cpsr in
      let fiq = control_byte (mode_cpsr c.cpsr 0x11) irq in
      let svc = control_byte (mode_cpsr c.cpsr 0x13) fiq in
      rw (
        ne→== (c.cpsr % 2 ^ 5) 0x10 privileged,
        in_mode c.cpsr 0x12 c.cpsr word (omega arith),
        in_mode c.cpsr 0x11 irq word (omega arith),
        in_mode c.cpsr 0x13 fiq word (omega arith),
        switch_back c.cpsr (mode_cpsr c.cpsr 0x12) (mode_cpsr c.cpsr 0x11) (mode_cpsr c.cpsr 0x13),
      )

  restore_cpu_state_lem :
      (state : CpuState)
      → restore_cpu_state state c ≡ record {
        cpsr = state.cpsr;
        sp = write (write c.sp 0x12 state.sp_irq) 0x11 state.sp_fiq;
        spsr =
            write
              (write (write c.spsr 0x12 state.spsr_irq) 0x11 state.spsr_fiq)
              0x13
              state.spsr_svc;
      }
  unfolding restore_cpu_state
  restore_cpu_state_lem state =
      let irq = control_byte (mode_cpsr c.cpsr 0x12) c.cpsr in
      let fiq = control_byte (mode_cpsr c.cpsr 0x11) irq in
      rw (
        ne→== (c.cpsr % 2 ^ 5) 0x10 privileged,
        in_mode c.cpsr 0x12 c.cpsr word (omega arith),
        in_mode c.cpsr 0x11 irq word (omega arith),
        in_mode c.cpsr 0x13 fiq word (omega arith),
      )

module _ (c : Cpu) (word : c.cpsr < 2 ^ 32) (privileged : c.cpsr % 2 ^ 5 ≢ 0x10) where
  -- After RestoreCPUState(state) from a mode other than user mode, and with a status word of such
  -- a mode in the state, SaveCPUState() answers that state, the six words of it, and leaves the
  -- processor as it is; the stack pointers and saved status registers of the modes other than IRQ,
  -- FIQ and supervisor are those from before.
  pub save_cpu_state-restore_cpu_state :
      (state : CpuState) (mode : ℕ)
      → state.cpsr < 2 ^ 32
      → state.cpsr % 2 ^ 5 ≢ 0x10
      → mode ≢ 0x11
      → mode ≢ 0x12
      → mode ≢ 0x13
      → let c' = restore_cpu_state state c in
        (save_cpu_state c' ≡ (state, c')) × (c'.sp mode ≡ c.sp mode) × (c'.spsr mode ≡ c.spsr mode)
  unfolding write
  save_cpu_state-restore_cpu_state state mode fits back n1 n2 n3 =
      let e = restore_cpu_state_lem c word privileged state in
      let restored : Cpu = record {
        cpsr = state.cpsr;
        sp = write (write c.sp 0x12 state.sp_irq) 0x11 state.sp_fiq;
        spsr =
            write (write (write c.spsr 0x12 state.spsr_irq) 0x11 state.spsr_fiq) 0x13
              state.spsr_svc;
      } in
      rw e (
        save_cpu_state_lem restored fits back,
        rw (write_ne (write c.sp 0x12 state.sp_irq) 0x11 state.sp_fiq mode n1)
            (write_ne c.sp 0x12 state.sp_irq mode n2),
        rw
            (
              write_ne (write (write c.spsr 0x12 state.spsr_irq) 0x11 state.spsr_fiq) 0x13
                  state.spsr_svc mode n3,
              write_ne (write c.spsr 0x12 state.spsr_irq) 0x11 state.spsr_fiq mode n1,
            )
            (write_ne c.spsr 0x12 state.spsr_irq mode n2),
      )
