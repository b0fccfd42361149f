-- ===== src/Vic/Interrupts.antt =====
-- One interrupt at a time: what enabling, disabling and selecting do to it, and that they leave the
-- other thirty-one alone.
use nspire_utils.Base.{ℕ, ◌+◌, ◌<◌, true, false, ◌==◌, if◌then◌else◌, ◌≡◌, refl, ap, arith}
use nspire_utils.Word.{any_bit, shl32}
use nspire_utils.Word.Bit.{test-set, test-clear}
use nspire_utils.Device.{Bus}
use nspire_utils.Vic.{Pl190InterruptType, irq, fiq}
use nspire_utils.Vic.Editor.{
  VicEditor, enable_interrupt, disable_interrupt, is_interrupt_enabled, set_interrupt_type,
  get_interrupt_type, set_software_interrupt, clear_software_interrupt, get_software_interrupt,
  select_bit,
}
use nspire_utils.Vic.Registers.{IsPl190, reg_write, reg_read}

-- Selecting one interrupt's type leaves those of the others.
pub select_bit-type :
    (j n a : ℕ)
    → j < 32
    → n < 32
    → (type : Pl190InterruptType)
    → (if any_bit (select_bit a n type) (shl32 1 j) then fiq else irq)
      ≡ (if j == n then type else (if any_bit a (shl32 1 j) then fiq else irq))
unfolding select_bit
select_bit-type j n a hj hn fiq = ground (arith, test-set j n a hj hn)
select_bit-type j n a hj hn irq = ground (arith, test-clear j n a hj hn)

module _ {S : Type 0} (bus : Bus S) (e : VicEditor) (is : IsPl190 bus e.base_address) where
  open is use {regs, regs_write, read_value, read_quiet}

  pub enabled_lem :
      (j : ℕ) (s : S) → (is_interrupt_enabled bus e j s).0 ≡ any_bit (regs s).enable (shl32 1 j)
  unfolding is_interrupt_enabled reg_read
  enabled_lem j s = ap (λ v. any_bit v (shl32 1 j)) (read_value 0x10 s refl)

  pub software_lem :
      (j : ℕ) (s : S) → (get_software_interrupt bus e j s).0 ≡ any_bit (regs s).software (shl32 1 j)
  unfolding get_software_interrupt reg_read
  software_lem j s = ap (λ v. any_bit v (shl32 1 j)) (read_value 0x18 s refl)

  pub type_lem :
      (j : ℕ) (s : S)
      → (get_interrupt_type bus e j s).0
        ≡ (if any_bit (regs s).select (shl32 1 j) then fiq else irq)
  unfolding get_interrupt_type reg_read
  type_lem j s = ap (λ v. if any_bit v (shl32 1 j) then fiq else irq) (read_value 0x0c s refl)

  module _ (j n : ℕ) (hj : j < 32) (hn : n < 32) (s : S) where
    -- After `enableInterrupt(n)` interrupt `n` is enabled, and every other one as it was.
    enabled-enable_interrupt :
        (is_interrupt_enabled bus e j (enable_interrupt bus e n s).1).0
        ≡ (if j == n then true else (is_interrupt_enabled bus e j s).0)
    unfolding enable_interrupt reg_write
    enabled-enable_interrupt =
        rw
          (
            enabled_lem j (enable_interrupt bus e n s).1,
            enabled_lem j s,
            regs_write 0x10 (shl32 1 n) s,
          )
          (test-set j n (regs s).enable hj hn)

    -- After `disableInterrupt(n)` interrupt `n` is disabled, and every other one as it was.
    enabled-disable_interrupt :
        (is_interrupt_enabled bus e j (disable_interrupt bus e n s).1).0
        ≡ (if j == n then false else (is_interrupt_enabled bus e j s).0)
    unfolding disable_interrupt reg_write
    enabled-disable_interrupt =
        rw
          (
            enabled_lem j (disable_interrupt bus e n s).1,
            enabled_lem j s,
            regs_write 0x14 (shl32 1 n) s,
          )
          (test-clear j n (regs s).enable hj hn)

    -- `enableInterrupt(n)` enables interrupt `n`, `disableInterrupt(n)` disables it, and each leaves
    -- every other one as it was; both numbers are below 32.
    enabled-set_clear :
        ((is_interrupt_enabled bus e j (enable_interrupt bus e n s).1).0
          ≡ (if j == n then true else (is_interrupt_enabled bus e j s).0))
        × ((is_interrupt_enabled bus e j (disable_interrupt bus e n s).1).0
            ≡ (if j == n then false else (is_interrupt_enabled bus e j s).0))
    enabled-set_clear = (enabled-enable_interrupt, enabled-disable_interrupt)

    -- The software interrupts are set and cleared one by one in the same way.
    software-set_clear :
        ((get_software_interrupt bus e j (set_software_interrupt bus e n s).1).0
          ≡ (if j == n then true else (get_software_interrupt bus e j s).0))
        × ((get_software_interrupt bus e j (clear_software_interrupt bus e n s).1).0
            ≡ (if j == n then false else (get_software_interrupt bus e j s).0))
    unfolding set_software_interrupt clear_software_interrupt reg_write
    software-set_clear = (
      rw
          (
            software_lem j (set_software_interrupt bus e n s).1,
            software_lem j s,
            regs_write 0x18 (shl32 1 n) s,
          )
          (test-set j n (regs s).software hj hn),
      rw
          (
            software_lem j (clear_software_interrupt bus e n s).1,
            software_lem j s,
            regs_write 0x1c (shl32 1 n) s,
          )
          (test-clear j n (regs s).software hj hn),
    )

    -- After `setInterruptType(n, type)` interrupt `n` has that type, and every other the one it had.
    type-set_interrupt_type :
        (type : Pl190InterruptType)
        → (get_interrupt_type bus e j (set_interrupt_type bus e n type s).1).0
          ≡ (if j == n then type else (get_interrupt_type bus e j s).0)
    unfolding set_interrupt_type reg_write reg_read
    type-set_interrupt_type type =
        let s₁ = (bus.read (e.base_address + 0x0c) s).1 in
        let current = (bus.read (e.base_address + 0x0c) s).0 in
        rw
          (
            type_lem j (set_interrupt_type bus e n type s).1,
            type_lem j s,
            regs_write 0x0c (select_bit current n type) s₁,
            read_value 0x0c s refl,
          )
          (select_bit-type j n (regs s).select hj hn type)
