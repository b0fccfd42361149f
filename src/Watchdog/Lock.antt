-- ===== src/Watchdog/Lock.antt =====
-- `lock()` and `unlock()` on a watchdog that behaves as the SP805's manual says.
use nspire_utils.Base.{ℕ, ◌+◌, Bool, true, false, not, ◌==◌, if◌then◌else◌, ◌≡◌, refl}
use nspire_utils.Device.{Bus}
use nspire_utils.Watchdog.{
  watchdog_load, watchdog_lock, watchdog_lock_key, load_counter, loaded_value, lock, unlock,
  is_locked,
}

-- The lock register opens the other registers to writes when the key is written to it and closes
-- them at any other value; it reads 0 when they are open and 1 when they are closed. The load
-- register holds what was written while it was open.
pub record IsSp805 {S : Type 0} (bus : Bus S) (base : ℕ) : Type 0 where
  pub closed : S → Bool
  pub loaded : S → ℕ
  pub closed_lock :
      (v : ℕ) (s : S) → closed (bus.write (base + watchdog_lock) v s) ≡ not (v == watchdog_lock_key)
  pub loaded_lock : (v : ℕ) (s : S) → loaded (bus.write (base + watchdog_lock) v s) ≡ loaded s
  pub read_lock : (s : S) → (bus.read (base + watchdog_lock) s).0 ≡ (if closed s then 1 else 0)
  pub loaded_load :
      (v : ℕ) (s : S)
      → loaded (bus.write (base + watchdog_load) v s) ≡ (if closed s then loaded s else v)
  pub read_load : (s : S) → (bus.read (base + watchdog_load) s).0 ≡ loaded s

module _ {S : Type 0} (bus : Bus S) (base : ℕ) (is : IsSp805 bus base) (s : S) where
  -- On an SP805, whatever its state: after `lock()`, `isLocked` answers false and a value given to
  -- `Load` is the loaded value; after `unlock()`, `isLocked` answers true and `Load` has no effect.
  pub lock-unlock :
      (v : ℕ)
      → ((is_locked bus base (lock bus base s).1).0 ≡ false)
        × ((loaded_value bus base (load_counter bus base v (lock bus base s).1).1).0 ≡ v)
        × ((is_locked bus base (unlock bus base s).1).0 ≡ true)
        × ((loaded_value bus base (load_counter bus base v (unlock bus base s).1).1).0
            ≡ (loaded_value bus base s).0)
  unfolding lock unlock is_locked load_counter loaded_value
  lock-unlock v =
      let opened = bus.write (base + watchdog_lock) watchdog_lock_key s in
      let shut = bus.write (base + watchdog_lock) 0 s in
      (
        rw (is.read_lock opened, is.closed_lock watchdog_lock_key s) refl,
        rw
            (
              is.read_load (bus.write (base + watchdog_load) v opened),
              is.loaded_load v opened,
              is.closed_lock watchdog_lock_key s,
            )
            refl,
        rw (is.read_lock shut, is.closed_lock 0 s) refl,
        rw
            (
              is.read_load (bus.write (base + watchdog_load) v shut),
              is.loaded_load v shut,
              is.closed_lock 0 s,
              is.loaded_lock 0 s,
              is.read_load s,
            )
            refl,
      )
