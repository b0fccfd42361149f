-- ===== src/Timer/Flags.antt =====
-- The control bits and speeds of include/nspire-utils/devices/SP804.hpp.
use nspire_utils.Base.{ℕ, ◌+◌, ◌*◌, ◌^◌, bit_or, ◌≡◌, refl}

abbrev wrap_bit : ℕ
wrap_bit = 2 ^ 0

abbrev timer_size_bit : ℕ
timer_size_bit = 2 ^ 1

abbrev prescale_bits : ℕ
prescale_bits = 3 * 2 ^ 2

abbrev interrupt_enabled_bit : ℕ
interrupt_enabled_bit = 2 ^ 5

abbrev mode_bit : ℕ
mode_bit = 2 ^ 6

abbrev timer_enable_bit : ℕ
timer_enable_bit = 2 ^ 7

-- `TimerSpeedControl_SpeedAPB`, `_Speed12MHz` and `_Speed32768Hz`.
pub data TimerSpeed : Type 0 where
  apb mhz12 hz32768 : TimerSpeed

abbrev pub speed_value : TimerSpeed → ℕ
speed_value apb = 0
speed_value mhz12 = 1
speed_value hz32768 = 2

-- The flags `TIMER_CTRL_...`, some of which are zero.
pub data ControlFlag : Type 0 where
  one_shot wrapping bits32 bits16 div1 div16 div256 int_enable int_disable : ControlFlag
  periodic free_running enable disable : ControlFlag

abbrev pub control_flag : ControlFlag → ℕ
control_flag one_shot = wrap_bit
control_flag wrapping = 0
control_flag bits32 = timer_size_bit
control_flag bits16 = 0
control_flag div1 = 0
control_flag div16 = 2 ^ 2
control_flag div256 = 2 ^ 3
control_flag int_enable = interrupt_enabled_bit
control_flag int_disable = 0
control_flag periodic = mode_bit
control_flag free_running = 0
control_flag enable = timer_enable_bit
control_flag disable = 0

-- The prescaler's flags are in its field, and the six fields have no bit in common.
prescale-flags : bit_or (control_flag div16) (control_flag div256) ≡ prescale_bits
prescale-flags = refl

control_fields-apart :
    bit_or
      (bit_or
        (bit_or (bit_or (bit_or wrap_bit timer_size_bit) prescale_bits) interrupt_enabled_bit)
        mode_bit)
      timer_enable_bit
    ≡ wrap_bit + timer_size_bit + prescale_bits + interrupt_enabled_bit + mode_bit
      + timer_enable_bit
control_fields-apart = refl
