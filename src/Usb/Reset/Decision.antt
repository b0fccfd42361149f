-- ===== src/Usb/Reset/Decision.antt =====
-- The answer of `FOTG210::Reset`, in terms of what the controller reports.
use nspire_utils.Base.{
  ℕ, zero, suc, ◌<◌, Bool, true, false, ◌≡◌, ◌↔◌, ◌⊎◌, inl, inr, ap, arith, ◌==◌, Bool-cases, ==→eq,
}
use nspire_utils.Device.{polled, Bus, Io}
use nspire_utils.Usb.{Fotg210}
use nspire_utils.Usb.Reset.{is_halted, is_reset_done, reset, halt_countdown, reset_countdown}
use nspire_utils.Usb.Reset.Outcome.{
  StopsAt, halting, resetting, reset-true, reset-no_halt, reset-no_reset,
}

-- One of the first `n` polls answers yes.
abbrev pub StopsWithin : {S : Type 0} → Io S Bool → ℕ → S → Type 0
StopsWithin stop n s = (k : ℕ) × (k < n) × StopsAt stop k s

first_stop :
    {S : Type 0} (stop : Io S Bool) (n : ℕ) (s : S)
    → StopsWithin stop n s ⊎ ((i : ℕ) → i < n → (stop (polled stop i s)).0 ≡ false)
first_stop stop zero s = inr (λ i h. absurd (omega arith))
first_stop stop (suc n) s = elim (first_stop stop n s) [
  | inl (k, below, stops) ↦ inl (k, omega arith, stops)
  | inr never ↦ elim (Bool-cases (stop (polled stop n s)).0) [
    | inl answered ↦ inl (n, omega arith, record { waits = never; stops = answered })
    | inr silent ↦ inr (λ i h. elim (Bool-cases (i == n)) [
      | inl here ↦ let e = ==→eq i n here in rw e silent
      | inr before ↦ never i (ground arith)
    ])
  ]
]

true_not_false : {b : Bool} → b ≡ true → b ≡ false → ⊥
true_not_false answered denied = ground arith

module _ {S : Type 0} (bus : Bus S) (c : Fotg210) (s : S) where
  -- `Reset` returns true exactly if one of the polls of the first countdown reports the halt and, the
  -- reset requested, one of the polls of the second reports its end.
  pub reset_iff : ((reset bus c s).0 ≡ true) ↔ (
      (k : ℕ) × (k < halt_countdown)
      × StopsAt (is_halted bus c) k (halting bus c s)
      × StopsWithin (is_reset_done bus c) reset_countdown (resetting bus c s k))
  reset_iff = (to, from)
    where
      to :
          (reset bus c s).0 ≡ true
          → (k : ℕ) × (k < halt_countdown)
            × StopsAt (is_halted bus c) k (halting bus c s)
            × StopsWithin (is_reset_done bus c) reset_countdown (resetting bus c s k)
      to answered = elim (first_stop (is_halted bus c) halt_countdown (halting bus c s)) [
        | inr never ↦ absurd (true_not_false answered (ap (λ r. r.0) (reset-no_halt bus c s never)))
        | inl (k, below, halts) ↦
            elim (first_stop (is_reset_done bus c) reset_countdown (resetting bus c s k)) [
              | inr never ↦ absurd (
                  true_not_false answered
                    (ap (λ r. r.0) (reset-no_reset bus c s k below halts never)))
              | inl within ↦ (k, below, halts, within)
            ]
      ]

      from :
          (k : ℕ) × (k < halt_countdown)
            × StopsAt (is_halted bus c) k (halting bus c s)
            × StopsWithin (is_reset_done bus c) reset_countdown (resetting bus c s k)
          → (reset bus c s).0 ≡ true
      from (k, below, halts, (j, within, resets)) =
          ap (λ r. r.0) (reset-true bus c s k j below within halts resets)
