-- ===== src/Usb/Reset.antt =====
-- `FOTG210::Reset` of src/devices/usb/reset.cpp: halt, wait, reset, wait, with a countdown on each
-- of the two waits.
pub mod Outcome
pub mod Decision
use nspire_utils.Base.{ℕ, zero, suc, ◌+◌, bit_and, bit_or, Bool, true, false, not, if◌then◌else◌}
use nspire_utils.Word.{not32, any_bit}
use nspire_utils.Device.{Bus, Io, poke, pure, ◌>>=◌, ◌>>◌}
use nspire_utils.Usb.{
  Fotg210, op_address, get_command_register, set_command_register, get_status_register,
}
use nspire_utils.Usb.Bits.{
  interrupt_enable, run_bit, reset_bit, iaad_doorbell, host_controller_halted,
}

-- `while (!stop()) { countdown--; if (countdown == 0) return false; }`: whether the loop ended by
-- its test. `elim` keeps the rest waiting until the test has failed.
pub spin : {S : Type 0} → Io S Bool → ℕ → Io S Bool
spin stop zero s = (false, s)
spin stop (suc countdown) s = elim (stop s).0 [
  | true ↦ (true, (stop s).1)
  | false ↦ spin stop countdown (stop s).1
]

abbrev pub halt_countdown : ℕ
halt_countdown = 10000000

abbrev pub reset_countdown : ℕ
reset_countdown = 100000000

module _ {S : Type 0} (bus : Bus S) (c : Fotg210) where
  unfoldable pub is_halted : Io S Bool
  is_halted = do status ← get_status_register bus c; pure (any_bit status host_controller_halted)

  unfoldable pub is_reset_done : Io S Bool
  is_reset_done = do command ← get_command_register bus c; pure (not (any_bit command reset_bit))

  -- Up to the first loop.
  unfoldable pub request_halt : Io S (Unit {0})
  request_halt = do
    poke bus (op_address c interrupt_enable) 0
    command ← get_command_register bus c
    set_command_register bus c (bit_and (bit_and command (not32 run_bit)) (not32 iaad_doorbell))

  -- Between the two loops.
  pub request_reset : Io S (Unit {0})
  request_reset = do
    command ← get_command_register bus c
    set_command_register bus c (bit_or command reset_bit)

  -- The rest of the function, once the first loop has ended.
  after_halt : Bool → Io S Bool
  unfolding request_reset
  after_halt false = pure false
  after_halt true = do request_reset; spin is_reset_done reset_countdown

  pub reset : Io S Bool
  unfolding request_halt after_halt
  reset = do request_halt; halted ← spin is_halted halt_countdown; after_halt halted
