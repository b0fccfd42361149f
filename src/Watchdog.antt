-- ===== src/Watchdog.antt =====
-- include/nspire-utils/devices/Watchdog.hpp: the watchdog timer, and what its lock register does.
pub mod Lock
use nspire_utils.Base.{ℕ, ◌+◌, bit_and, Bool, not, ◌==◌}
use nspire_utils.Device.{Bus, Io, peek, poke, pure, ◌>>=◌}

abbrev pub watchdog_load : ℕ
watchdog_load = 0x00

abbrev watchdog_value : ℕ
watchdog_value = 0x04

abbrev watchdog_control : ℕ
watchdog_control = 0x08

abbrev watchdog_int_clear : ℕ
watchdog_int_clear = 0x0c

abbrev watchdog_raw_int_stat : ℕ
watchdog_raw_int_stat = 0x10

abbrev watchdog_masked_int_stat : ℕ
watchdog_masked_int_stat = 0x14

abbrev pub watchdog_lock : ℕ
watchdog_lock = 0xc00

abbrev pub watchdog_lock_key : ℕ
watchdog_lock_key = 0x1acce551

-- `Watchdog_Device` at `base`.
module _ {S : Type 0} (bus : Bus S) (base : ℕ) where
  pub load_counter : ℕ → Io S (Unit {0})
  load_counter value = poke bus (base + watchdog_load) value

  pub loaded_value : Io S ℕ
  loaded_value = peek bus (base + watchdog_load)

  unfoldable counter_value : Io S ℕ
  counter_value = peek bus (base + watchdog_value)

  unfoldable set_watchdog_control : ℕ → Io S (Unit {0})
  set_watchdog_control bits = poke bus (base + watchdog_control) bits

  unfoldable get_watchdog_control : Io S ℕ
  get_watchdog_control = peek bus (base + watchdog_control)

  unfoldable clear_watchdog_interrupt : Io S (Unit {0})
  clear_watchdog_interrupt = poke bus (base + watchdog_int_clear) 1

  unfoldable watchdog_raw_status : Io S Bool
  watchdog_raw_status = do
    status ← peek bus (base + watchdog_raw_int_stat)
    pure (not (status == 0))

  unfoldable watchdog_masked_status : Io S Bool
  watchdog_masked_status = do
    status ← peek bus (base + watchdog_masked_int_stat)
    pure (not (status == 0))

  pub lock : Io S (Unit {0})
  lock = poke bus (base + watchdog_lock) watchdog_lock_key

  pub unlock : Io S (Unit {0})
  unlock = poke bus (base + watchdog_lock) 0

  pub is_locked : Io S Bool
  is_locked = do state ← peek bus (base + watchdog_lock); pure (not (state == 0))
