-- ===== src/Timer/Sp804.antt =====
-- `SP804Timer_Adjustable` of include/nspire-utils/devices/SP804.hpp.
use nspire_utils.Base.{ℕ, ◌+◌, ◌%◌, ◌^◌, bit_and, Bool}
use nspire_utils.Word.{any_bit}
use nspire_utils.Device.{Bus, Io, peek, poke, pure, ◌>>=◌}

abbrev timer1_offset : ℕ
timer1_offset = 0x00

abbrev timer2_offset : ℕ
timer2_offset = 0x20

pub data SelectedTimer : Type 0 where
  timer1 timer2 : SelectedTimer

abbrev pub get_selected_timer_offset : SelectedTimer → ℕ
get_selected_timer_offset timer1 = timer1_offset
get_selected_timer_offset timer2 = timer2_offset

abbrev pub timer_load_offset : ℕ
timer_load_offset = 0x00

abbrev timer_value_offset : ℕ
timer_value_offset = 0x04

abbrev pub timer_control_offset : ℕ
timer_control_offset = 0x08

abbrev timer_int_clr_offset : ℕ
timer_int_clr_offset = 0x0c

abbrev timer_ris_offset : ℕ
timer_ris_offset = 0x10

abbrev timer_mis_offset : ℕ
timer_mis_offset = 0x14

abbrev pub timer_bg_load_offset : ℕ
timer_bg_load_offset = 0x18

abbrev timer_speed_control_offset : ℕ
timer_speed_control_offset = 0x80

abbrev speed_mask : ℕ
speed_mask = 0x3

module _ {S : Type 0} (bus : Bus S) (base : ℕ) where
  unfoldable pub set_load_reg : SelectedTimer → ℕ → Io S (Unit {0})
  set_load_reg timer value =
      poke bus (base + get_selected_timer_offset timer + timer_load_offset) value

  unfoldable pub get_load_reg : SelectedTimer → Io S ℕ
  get_load_reg timer = peek bus (base + get_selected_timer_offset timer + timer_load_offset)

  unfoldable get_current_value32 : SelectedTimer → Io S ℕ
  get_current_value32 timer = peek bus (base + get_selected_timer_offset timer + timer_value_offset)

  unfoldable get_current_value16 : SelectedTimer → Io S ℕ
  get_current_value16 timer = do
    value ← peek bus (base + get_selected_timer_offset timer + timer_value_offset)
    pure (bit_and value 0xffff)

  -- The flags are a `uint8_t`.
  unfoldable pub set_control : SelectedTimer → ℕ → Io S (Unit {0})
  set_control timer flags =
      poke bus (base + get_selected_timer_offset timer + timer_control_offset) flags

  unfoldable pub get_control : SelectedTimer → Io S ℕ
  get_control timer = do
    value ← peek bus (base + get_selected_timer_offset timer + timer_control_offset)
    pure (value % 2 ^ 8)

  unfoldable pub clear_interrupt : SelectedTimer → Io S (Unit {0})
  clear_interrupt timer = poke bus (base + get_selected_timer_offset timer + timer_int_clr_offset) 1

  unfoldable pub get_raw_interrupt_status : SelectedTimer → Io S Bool
  get_raw_interrupt_status timer = do
    status ← peek bus (base + get_selected_timer_offset timer + timer_ris_offset)
    pure (any_bit status 1)

  unfoldable get_masked_interrupt_status : SelectedTimer → Io S Bool
  get_masked_interrupt_status timer = do
    status ← peek bus (base + get_selected_timer_offset timer + timer_mis_offset)
    pure (any_bit status 1)

  unfoldable pub set_background_load_reg : SelectedTimer → ℕ → Io S (Unit {0})
  set_background_load_reg timer value =
      poke bus (base + get_selected_timer_offset timer + timer_bg_load_offset) value

  unfoldable get_background_load_reg : SelectedTimer → Io S ℕ
  get_background_load_reg timer =
      peek bus (base + get_selected_timer_offset timer + timer_bg_load_offset)

  -- The speed is a `uint8_t`.
  unfoldable pub set_speed : ℕ → Io S (Unit {0})
  set_speed speed = poke bus (base + timer_speed_control_offset) (bit_and speed speed_mask)
