-- ===== src/Timer/Rtc.antt =====
-- `PL031Deriv_RTC` of include/nspire-utils/devices/PL031Deriv_RTC.hpp.
use nspire_utils.Base.{ℕ, ◌+◌, ◌^◌, Bool, not, ◌==◌, if◌then◌else◌}
use nspire_utils.Word.{any_bit}
use nspire_utils.Device.{Bus, Io, peek, poke, pure, ◌>>=◌}

abbrev rtc_current_time : ℕ
rtc_current_time = 0x00

abbrev rtc_alarm_value : ℕ
rtc_alarm_value = 0x04

abbrev rtc_set_time : ℕ
rtc_set_time = 0x08

abbrev rtc_interrupt_mask : ℕ
rtc_interrupt_mask = 0x0c

abbrev rtc_masked_interrupt_status : ℕ
rtc_masked_interrupt_status = 0x10

abbrev rtc_status : ℕ
rtc_status = 0x14

pub data RtcStatus : Type 0 where
  time_set_in_progress alarm_set_in_progress interrupt_ack_in_progress : RtcStatus
  interrupt_mask_set_in_progress : RtcStatus

abbrev status_bits : RtcStatus → ℕ
status_bits time_set_in_progress = 2 ^ 0
status_bits alarm_set_in_progress = 2 ^ 1
status_bits interrupt_ack_in_progress = 2 ^ 2
status_bits interrupt_mask_set_in_progress = 2 ^ 3

module _ {S : Type 0} (bus : Bus S) (base : ℕ) where
  unfoldable get_current_time : Io S ℕ
  get_current_time = peek bus (base + rtc_current_time)

  unfoldable set_current_time : ℕ → Io S (Unit {0})
  set_current_time time = poke bus (base + rtc_set_time) time

  unfoldable set_alarm : ℕ → Io S (Unit {0})
  set_alarm time = poke bus (base + rtc_alarm_value) time

  unfoldable set_interrupt_mask : Bool → Io S (Unit {0})
  set_interrupt_mask enabled = poke bus (base + rtc_interrupt_mask) (if enabled then 1 else 0)

  unfoldable is_interrupt_masked : Io S Bool
  is_interrupt_masked = do
    status ← peek bus (base + rtc_masked_interrupt_status)
    pure (not (status == 0))

  unfoldable acknowledge_interrupt : Io S (Unit {0})
  acknowledge_interrupt = poke bus (base + rtc_status) 1

  get_status : Io S ℕ
  get_status = peek bus (base + rtc_status)

  unfoldable get_status_bit : RtcStatus → Io S Bool
  unfolding get_status
  get_status_bit status = do value ← get_status; pure (any_bit value (status_bits status))
