-- ===== src/Interrupted/Service/Frame.antt =====
-- What a service routine of tests/interrupted/handleIRQ.S leaves of the code that it interrupts.
use nspire_utils.Base.{ℕ, ◌+◌, ◌-◌, ◌≤◌, ◌<◌, true, List, [], ◌∷◌, ◌≡◌, ◌≢◌, inr, refl, ◌∙◌, arith}
use mathlib.Core.List.{map}
use nspire_utils.Word.{sub32}
use nspire_utils.Machine.{write}
use nspire_utils.Machine.Store.{write_self, write_ne}
use nspire_utils.Arm.{put_words, load_regs}
use nspire_utils.Arm.Words.{HoldsAt, put_words-outside, put_words-HoldsAt, HoldsAt-put_words}
use nspire_utils.Arm.Run.{has, load_regs-HoldsAt}
use nspire_utils.Device.{Bus}
use nspire_utils.Interrupted.Service.{
  Irq, saved_registers, set_reg, stmfd, ldmfd, read_spsr, write_spsr, service, call, handle_irq,
  timer_isr2,
}

-- A row of words is kept with the memory from its start on.
HoldsAt-same :
    (mem mem' : ℕ → ℕ) (a : ℕ) (ws : List ℕ)
    → ((x : ℕ) → a ≤ x → mem' x ≡ mem x)
    → HoldsAt mem a ws
    → HoldsAt mem' a ws
HoldsAt-same mem mem' a [] same h = tt
HoldsAt-same mem mem' a (w ∷ ws) same h = (
  same a (omega arith) ∙ h.0,
  HoldsAt-same mem mem' (a + 4) ws (λ x le. same x (omega arith)) h.1,
)

-- A call that comes back as the procedure call standard has it: the stack pointer and the memory from there
-- on are as they were.
pub record ComesBack {V : Type 0} (e e' : Irq V) : Type 0 where
  pub same_sp : e'.regs 13 ≡ e.regs 13
  pub above : (x : ℕ) → e.regs 13 ≤ x → e'.mem x ≡ e.mem x

module _ {V : Type 0} (bus : Bus V) (s : Irq V) where
  -- The state at the entry, behind the first push, and at the call.
  abbrev adjusted : Irq V
  adjusted = set_reg 14 (sub32 (s.regs 14) 4) s

  abbrev at_call : Irq V
  at_call = stmfd (1 ∷ []) (read_spsr (stmfd saved_registers adjusted))

  module _ (room : 60 ≤ s.regs 13) {served : Irq V} (back : ComesBack at_call served) where
    abbrev left : Irq V
    left = ldmfd saved_registers (write_spsr (ldmfd (1 ∷ []) served))

    call_sp : at_call.regs 13 ≡ s.regs 13 - 60
    unfolding write
    call_sp = omega arith

    frame_at : HoldsAt served.mem (s.regs 13 - 56) (map adjusted.regs saved_registers)
    unfolding write
    frame_at =
        HoldsAt-same at_call.mem served.mem (s.regs 13 - 56) (map adjusted.regs saved_registers)
          (λ x le. back.above x (omega arith))
          (HoldsAt-put_words (s.regs 13 - 56) (s.regs 13 - 56 - 4)
            (map adjusted.regs saved_registers) (s.spsr ∷ [])
            (put_words (s.regs 13 - 56) (map adjusted.regs saved_registers) s.mem)
            (inr (omega arith))
            (put_words-HoldsAt (s.regs 13 - 56) (map adjusted.regs saved_registers) s.mem))

    row_at : served.regs 13 + 4 ≡ s.regs 13 - 56
    row_at = omega (arith, back.same_sp, call_sp)

    spsr_at : served.mem (served.regs 13) ≡ s.spsr
    unfolding write
    spsr_at =
        let frame = put_words (s.regs 13 - 56) (map adjusted.regs saved_registers) s.mem in
        let here : served.regs 13 ≡ s.regs 13 - 56 - 4 = omega (arith, back.same_sp, call_sp) in
        rw here (
          back.above (s.regs 13 - 56 - 4) (omega arith)
          ∙ (put_words-HoldsAt (s.regs 13 - 56 - 4) (s.spsr ∷ []) frame).0)

    -- The registers behind the second pop, but for the stack pointer, and the stack pointer.
    left_reg : (r : ℕ) → has r saved_registers ≡ true → r ≢ 13 → left.regs r ≡ adjusted.regs r
    left_reg r saved other =
        let popped = write_spsr (ldmfd (1 ∷ []) served) in
        let top : popped.regs 13 ≡ s.regs 13 - 56 =
          write_self (load_regs (1 ∷ []) (served.regs 13) served.mem served.regs) 13
            (served.regs 13 + 4)
          ∙ row_at in
        let row : HoldsAt served.mem (popped.regs 13) (map adjusted.regs saved_registers) =
          rw top frame_at in
        write_ne (load_regs saved_registers (popped.regs 13) served.mem popped.regs) 13
          (popped.regs 13 + 56) r other
        ∙ load_regs-HoldsAt saved_registers (popped.regs 13) served.mem popped.regs adjusted.regs r
            row
        ∙ rw saved refl

    left_sp : left.regs 13 ≡ s.regs 13
    left_sp =
        let popped = write_spsr (ldmfd (1 ∷ []) served) in
        let top : popped.regs 13 ≡ s.regs 13 - 56 =
          write_self (load_regs (1 ∷ []) (served.regs 13) served.mem served.regs) 13
            (served.regs 13 + 4)
          ∙ row_at in
        write_self (load_regs saved_registers (popped.regs 13) served.mem popped.regs) 13
          (popped.regs 13 + 56)
        ∙ omega (arith, top)

    left_spsr : left.spsr ≡ s.spsr
    left_spsr =
        let regs = load_regs (1 ∷ []) (served.regs 13) served.mem served.regs in
        write_ne regs 13 (served.regs 13 + 4) 1 (omega arith)
        ∙ load_regs-HoldsAt (1 ∷ []) (served.regs 13) served.mem served.regs (λ r. s.spsr) 1
            (spsr_at, tt)

    left_mem : (x : ℕ) → s.regs 13 ≤ x → left.mem x ≡ s.mem x
    unfolding put_words write
    left_mem x h =
        let frame = put_words (s.regs 13 - 56) (map adjusted.regs saved_registers) s.mem in
        back.above x (omega (arith, call_sp))
        ∙ put_words-outside (s.regs 13 - 56 - 4) (s.spsr ∷ []) frame x (omega arith)
        ∙ put_words-outside (s.regs 13 - 56) (map adjusted.regs saved_registers) s.mem x
            (omega arith)

has_low : (r : ℕ) → r < 13 → has r saved_registers ≡ true
has_low r h = ground arith

-- From `handleIRQ` to the return of `Timer_ISR2`, where the stack has room for 60 bytes and the C++
-- function comes back: `handleIRQ` jumps where the controller says, and the interrupted code goes on at
-- lr - 4 with its status, its registers r1 to r12, the stack pointer of IRQ mode and the memory from
-- there on as they were, but with the address of the controller in its r0.
pub timer_isr2-r0 :
    {V : Type 0} (bus : Bus V) (handle_timer1 : Irq V → Irq V) (return_address r x : ℕ) (s : Irq V)
    → 60 ≤ s.regs 13
    → 1 ≤ r
    → r < 13
    → s.regs 13 ≤ x
    → (let e = at_call bus (handle_irq bus s).1 in
        ComesBack e (handle_timer1 (set_reg 14 return_address e)))
    → let irq = handle_irq bus s in
      let after = timer_isr2 bus handle_timer1 return_address irq.1 in
      (irq.0 ≡ (bus.read 0xdc000030 s.vic).0)
      × (after.0 ≡ sub32 (s.regs 14) 4)
      × (after.1.cpsr ≡ s.spsr)
      × (after.1.regs 13 ≡ s.regs 13)
      × (after.1.regs r ≡ s.regs r)
      × (after.1.mem x ≡ s.mem x)
      × (after.1.regs 0 ≡ 0xdc000000)
unfolding handle_irq timer_isr2 call service write
timer_isr2-r0 bus handle_timer1 return_address r x s room low high above back =
    let s₁ = (handle_irq bus s).1 in
    (
      refl,
      left_reg bus s₁ room back 14 refl (omega arith),
      left_spsr bus s₁ room back,
      left_sp bus s₁ room back,
      write_ne (left bus s₁ room back).regs 0 0xdc000000 r (omega arith)
          ∙ left_reg bus s₁ room back r (has_low r high) (omega arith)
          ∙ write_ne s₁.regs 14 (sub32 (s₁.regs 14) 4) r (omega arith)
          ∙ write_ne s.regs 0 0xdc000000 r (omega arith),
      left_mem bus s₁ room back x above,
      refl,
    )
