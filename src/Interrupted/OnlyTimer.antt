-- ===== src/Interrupted/OnlyTimer.antt =====
-- Which interrupts the controller lets through while tests/interrupted/main.cpp waits for interrupts.
use nspire_utils.Base.{ℕ, ◌%◌, ◌<◌, ◌==◌, if◌then◌else◌, false, ◌≡◌, refl, ap, ◌∙◌, arith}
use nspire_utils.Word.{any_bit, shl32}
use nspire_utils.Word.Shift.{zero-bit_and}
use nspire_utils.Word.Bit.{test-set}
use nspire_utils.Device.{Bus}
use nspire_utils.Vic.{irq, fiq}
use nspire_utils.Vic.State.{at}
use nspire_utils.Vic.Editor.{
  VicEditor, cleared_state, clear, enable_interrupt, is_interrupt_enabled, get_interrupt_type,
  set_vector_address, set_vector_control, get_vector_address, get_vector_control,
}
use nspire_utils.Vic.Registers.{VicRegs, IsPl190, put, reg_write}
use nspire_utils.Vic.Saved.{restored, restored-tables_at, restored-enable, with_tables}
use nspire_utils.Vic.Restore.{write_lem, write_addr, write_control, restore_state_lem}
use nspire_utils.Vic.Vectors.{get_vector_address_lem, get_vector_control_lem}
use nspire_utils.Vic.Interrupts.{enabled_lem, type_lem}
use nspire_utils.Interrupted.State.{System, on_vic, ◌>>◌, returns}
use nspire_utils.Interrupted.{Handlers, register_timer}

-- The registers of the controller without any of its earlier settings.
abbrev cleared : VicRegs → VicRegs
cleared r = restored cleared_state r

-- What it leaves in the tables and among the enables: nothing.
cleared-tables :
    (r : VicRegs) (i : ℕ) → i < 16 → ((cleared r).addrs i ≡ 0) × ((cleared r).controls i ≡ 0)
cleared-tables r i below =
    let (addr, control) = restored-tables_at cleared_state r i below in
    let zeros : at cleared_state.vect_addrs i ≡ 0 = ground arith in
    (addr ∙ zeros, control ∙ ap (λ k. k % 64) zeros)

cleared-no_bit : (j : ℕ) (r : VicRegs) → any_bit (cleared r).enable j ≡ false
cleared-no_bit j r = rw (restored-enable cleared_state r, zero-bit_and j) refl

module _ {V : Type 0} (vic_bus : Bus V) (handlers : Handlers) (e : VicEditor) where
  -- The controller after `clear` and the three calls of the registration.
  abbrev pub registered : V → V
  registered v =
      let v₁ = (set_vector_control vic_bus e 0 0x32 (clear vic_bus e v).1).1 in
      (enable_interrupt vic_bus e 18 (set_vector_address vic_bus e 0 handlers.timer_isr2 v₁).1).1

  module _ (is : IsPl190 vic_bus e.base_address) where
    open is use {regs}

    abbrev registered_regs : VicRegs → VicRegs
    registered_regs r =
        let r₁ = record (cleared r) { controls = put (cleared r).controls 0 0x32 } in
        reg_write 0x10 (shl32 1 18) (record r₁ { addrs = put r₁.addrs 0 handlers.timer_isr2 })

    -- The same on the registers alone.
    registered_lem : (v : V) → regs (registered v) ≡ registered_regs (regs v)
    unfolding clear set_vector_control set_vector_address enable_interrupt
    registered_lem v =
        let v₀ = (clear vic_bus e v).1 in
        let v₁ = (set_vector_control vic_bus e 0 0x32 v₀).1 in
        let v₂ = (set_vector_address vic_bus e 0 handlers.timer_isr2 v₁).1 in
        let e₀ = restore_state_lem vic_bus e.base_address is cleared_state v in
        let r₁ = record (cleared (regs v)) { controls = put (cleared (regs v)).controls 0 0x32 } in
        let e₁ : regs v₁ ≡ r₁ =
          write_lem vic_bus e.base_address is 0x200 0x32 v₀ (omega arith) e₀
          ∙ write_control 0 0x32 (cleared (regs v)) (omega arith) in
        let e₂ : regs v₂ ≡ record r₁ { addrs = put r₁.addrs 0 handlers.timer_isr2 } =
          write_lem vic_bus e.base_address is 0x100 handlers.timer_isr2 v₁ (omega arith) e₁
          ∙ write_addr 0 handlers.timer_isr2 r₁ (omega arith) in
        write_lem vic_bus e.base_address is 0x10 (shl32 1 18) v₂ refl e₂

    module _ (i j : ℕ) (i_below : i < 16) (j_below : j < 32) where
      enabled : (v : V) → (is_interrupt_enabled vic_bus e j (registered v)).0 ≡ (j == 18)
      unfolding reg_write
      enabled v =
          enabled_lem vic_bus e is j (registered v)
          ∙ ap (λ r. any_bit r.enable (shl32 1 j)) (registered_lem v)
          ∙ test-set j 18 (cleared (regs v)).enable j_below (omega arith)
          ∙ (rw (cleared-no_bit (shl32 1 j) (regs v)) (ground arith))

      irq_type : (v : V) → (get_interrupt_type vic_bus e j (registered v)).0 ≡ irq
      unfolding reg_write restored with_tables
      irq_type v =
          type_lem vic_bus e is j (registered v)
          ∙ ap (λ r. if any_bit r.select (shl32 1 j) then fiq else irq) (registered_lem v)
          ∙ rw (zero-bit_and (shl32 1 j)) refl

      address :
          (v : V)
          → (get_vector_address vic_bus e i (registered v)).0
            ≡ (if i == 0 then handlers.timer_isr2 else 0)
      unfolding reg_write
      address v =
          get_vector_address_lem vic_bus e is i (registered v) i_below
          ∙ ap (λ r. r.addrs i) (registered_lem v)
          ∙ (let (none, _) = cleared-tables (regs v) i i_below in rw none refl)

      control :
          (v : V) → (get_vector_control vic_bus e i (registered v)).0 ≡ (if i == 0 then 0x32 else 0)
      unfolding reg_write
      control v =
          get_vector_control_lem vic_bus e is i (registered v) i_below
          ∙ ap (λ r. r.controls i) (registered_lem v)
          ∙ (let (_, none) = cleared-tables (regs v) i i_below in rw none refl)

      -- On a PL190 in whatever state, registering the timer after `clear` returns with interrupt 18 enabled
      -- and no other, every interrupt an IRQ, vector 0 going to Timer_ISR2 for interrupt 18, and the
      -- other fifteen vectors zero and off; the rest of the system is as it was.
      pub register_timer-clear :
          {H T : Type 0} (s : System H V T)
          → ((on_vic (clear vic_bus e) >> register_timer vic_bus handlers e) s
              ≡ returns tt (record s { vic = registered s.vic }))
            × ((is_interrupt_enabled vic_bus e j (registered s.vic)).0 ≡ (j == 18))
            × ((get_interrupt_type vic_bus e j (registered s.vic)).0 ≡ irq)
            × ((get_vector_address vic_bus e i (registered s.vic)).0
                ≡ (if i == 0 then handlers.timer_isr2 else 0))
            × ((get_vector_control vic_bus e i (registered s.vic)).0 ≡ (if i == 0 then 0x32 else 0))
      unfolding register_timer
      register_timer-clear s = (refl, enabled s.vic, irq_type s.vic, address s.vic, control s.vic)
