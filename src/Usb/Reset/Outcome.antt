-- ===== src/Usb/Reset/Outcome.antt =====
-- When the reset succeeds and when it gives up.
use nspire_utils.Base.{ℕ, zero, suc, ◌<◌, Bool, true, false, ◌≡◌, refl, arith}
use nspire_utils.Device.{polled, Bus, Io}
use nspire_utils.Usb.{Fotg210}
use nspire_utils.Usb.Reset.{
  spin, is_halted, is_reset_done, request_halt, request_reset, reset, halt_countdown,
  reset_countdown,
}

-- The first poll that answers yes is the one with number `k`.
pub record StopsAt {S : Type 0} (stop : Io S Bool) (k : ℕ) (s : S) : Type 0 where
  pub waits : (i : ℕ) → i < k → (stop (polled stop i s)).0 ≡ false
  pub stops : (stop (polled stop k s)).0 ≡ true

StopsAt-step :
    {S : Type 0} (stop : Io S Bool) (k : ℕ) (s : S)
    → StopsAt stop (suc k) s
    → StopsAt stop k (stop s).1
unfolding polled
StopsAt-step stop k s h = record { waits = λ i hi. h.waits (suc i) (omega arith); stops = h.stops }

spin-StopsAt :
    {S : Type 0} (stop : Io S Bool) (n k : ℕ) (s : S)
    → k < n
    → StopsAt stop k s
    → spin stop n s ≡ (true, polled stop (suc k) s)
unfolding spin polled
spin-StopsAt stop zero k s h w = elim h [ ]
spin-StopsAt stop (suc n) zero s h w = rw (w.stops, spin)
spin-StopsAt stop (suc n) (suc k) s h w =
    rw (w.waits 0 (omega arith), spin)
      (spin-StopsAt stop n k (stop s).1 (omega arith) (StopsAt-step stop k s w))

spin-timeout :
    {S : Type 0} (stop : Io S Bool) (n : ℕ) (s : S)
    → ((i : ℕ) → i < n → (stop (polled stop i s)).0 ≡ false)
    → spin stop n s ≡ (false, polled stop n s)
unfolding spin polled
spin-timeout stop zero s h = refl
spin-timeout stop (suc n) s h =
    rw (h 0 (omega arith), spin) (spin-timeout stop n (stop s).1 (λ i hi. h (suc i) (omega arith)))

module _ {S : Type 0} (bus : Bus S) (c : Fotg210) (s : S) where
  -- The device's state when the first loop begins, and the second, if the first took `k` polls.
  abbrev pub halting : S
  halting = (request_halt bus c s).1

  abbrev pub resetting : ℕ → S
  resetting k = (request_reset bus c (polled (is_halted bus c) (suc k) halting)).1

  -- A controller that reports the halt at some poll before the countdown of 10,000,000 ends, and then
  -- the end of its reset before that of 100,000,000, makes `Reset` return true, with exactly the polls
  -- that it took.
  pub reset-true :
      (k j : ℕ)
      → k < halt_countdown
      → j < reset_countdown
      → StopsAt (is_halted bus c) k halting
      → StopsAt (is_reset_done bus c) j (resetting k)
      → reset bus c s ≡ (true, polled (is_reset_done bus c) (suc j) (resetting k))
  unfolding reset
  reset-true k j hk hj halts resets =
      rw (spin-StopsAt (is_halted bus c) halt_countdown k halting hk halts)
        (spin-StopsAt (is_reset_done bus c) reset_countdown j (resetting k) hj resets)

  -- A controller that does not report the halt at any of the polls makes `Reset` return false, and no
  -- reset is requested.
  pub reset-no_halt :
      ((i : ℕ)
        → i < halt_countdown
        → (is_halted bus c (polled (is_halted bus c) i halting)).0 ≡ false)
      → reset bus c s ≡ (false, polled (is_halted bus c) halt_countdown halting)
  unfolding reset
  reset-no_halt never = rw (spin-timeout (is_halted bus c) halt_countdown halting never)

  -- A controller that halts in time but never reports the end of its reset makes `Reset` return false
  -- after the second countdown.
  pub reset-no_reset :
      (k : ℕ)
      → k < halt_countdown
      → StopsAt (is_halted bus c) k halting
      → ((i : ℕ)
          → i < reset_countdown
          → (is_reset_done bus c (polled (is_reset_done bus c) i (resetting k))).0 ≡ false)
      → reset bus c s ≡ (false, polled (is_reset_done bus c) reset_countdown (resetting k))
  unfolding reset
  reset-no_reset k hk halts never =
      rw (spin-StopsAt (is_halted bus c) halt_countdown k halting hk halts)
        (spin-timeout (is_reset_done bus c) reset_countdown (resetting k) never)
