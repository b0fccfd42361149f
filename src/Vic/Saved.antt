-- ===== src/Vic/Saved.antt =====
-- What `SavePL190State` reads and `RestorePL190State` writes, on the registers of the controller alone
-- (src/devices/pl190/State.cpp).
use native.Mathlib.Nat.{zero-add}
use mathlib.Core.Path.{ap₂}
use nspire_utils.Base.{
  length, ℕ, zero, suc, ◌+◌, ◌%◌, ◌≤◌, ◌<◌, bit_and, bit_or, List, [], ◌∷◌, ◌≡◌, refl, Bool-cases,
  inl, inr, ◌∙◌, arith, ◌==◌,
}
use nspire_utils.Word.Shift.{bit_and-zero, zero-bit_or}
use nspire_utils.Vic.State.{VicState, at}
use nspire_utils.Vic.Registers.{VicRegs, put}

-- `SavePL190State` and `RestorePL190State` on the registers alone.
unfoldable pub tables_of : ℕ → ℕ → VicRegs → List ℕ × List ℕ
tables_of zero i r = ([], [])
tables_of (suc n) i r =
    let rest = tables_of n (i + 1) r in (r.addrs i ∷ rest.0, r.controls i ∷ rest.1)

unfoldable pub state_of : VicRegs → VicState
state_of r = record {
  int_select = r.select;
  int_enable = r.enable;
  software_ints = r.software;
  protect = r.protect;
  vect_addrs = (tables_of 16 0 r).0;
  vect_controls = (tables_of 16 0 r).1;
  default_addr = r.default;
}

unfoldable pub with_tables : ℕ → ℕ → VicState → VicRegs → VicRegs
with_tables zero i state r = r
with_tables (suc n) i state r = with_tables n (i + 1) state (record r {
  addrs = put r.addrs i (at state.vect_addrs i);
  controls = put r.controls i (at state.vect_controls i % 64);
})

-- `RestorePL190State` on the registers alone.
unfoldable pub restored : VicState → VicRegs → VicRegs
restored state r =
    let r₁ = with_tables 16 0 state (record r {
      enable = bit_and r.enable 0;
      software = bit_and r.software 0;
      select = state.int_select;
      protect = state.protect % 2;
      default = state.default_addr;
    }) in
    record r₁ {
      software = bit_or r₁.software state.software_ints;
      enable = bit_or r₁.enable state.int_enable;
    }

-- The loops' tables, entry by entry.
with_tables-below :
    (n i : ℕ) (state : VicState) (r : VicRegs) (j : ℕ)
    → j < i
    → ((with_tables n i state r).addrs j ≡ r.addrs j)
      × ((with_tables n i state r).controls j ≡ r.controls j)
unfolding with_tables
with_tables-below zero i state r j h = (refl, refl)
with_tables-below (suc n) i state r j h = ground (
  arith,
  with_tables-below n (i + 1) state
      (record r {
        addrs = put r.addrs i (at state.vect_addrs i);
        controls = put r.controls i (at state.vect_controls i % 64);
      })
      j (omega arith),
)

with_tables-at :
    (n i : ℕ) (state : VicState) (r : VicRegs) (j : ℕ)
    → i ≤ j
    → j < i + n
    → ((with_tables n i state r).addrs j ≡ at state.vect_addrs j)
      × ((with_tables n i state r).controls j ≡ at state.vect_controls j % 64)
unfolding with_tables
with_tables-at zero i state r j lo hi = absurd (omega arith)
with_tables-at (suc n) i state r j lo hi = elim (Bool-cases (j == i)) [
  | inl here ↦ ground (
    arith,
    with_tables-below n (i + 1) state
        (record r {
          addrs = put r.addrs i (at state.vect_addrs i);
          controls = put r.controls i (at state.vect_controls i % 64);
        })
        j (ground arith),
  )
  | inr later ↦
      with_tables-at n (i + 1) state
        (record r {
          addrs = put r.addrs i (at state.vect_addrs i);
          controls = put r.controls i (at state.vect_controls i % 64);
        })
        j (ground arith) (omega arith)
]

-- A table read back is the list that agrees with it.
tables_of-eq :
    (n i : ℕ) (r : VicRegs) (xs ys : List ℕ)
    → length xs ≡ n
    → length ys ≡ n
    → ((j : ℕ) → j < n → (r.addrs (i + j) ≡ at xs j) × (r.controls (i + j) ≡ at ys j))
    → tables_of n i r ≡ (xs, ys)
unfolding tables_of
tables_of-eq zero i r [] [] ex ey h = refl
tables_of-eq zero i r [] (y ∷ ys) ex ey h = absurd (omega arith)
tables_of-eq zero i r (x ∷ xs) ys ex ey h = absurd (omega arith)
tables_of-eq (suc n) i r [] ys ex ey h = absurd (omega arith)
tables_of-eq (suc n) i r (x ∷ xs) [] ex ey h = absurd (omega arith)
tables_of-eq (suc n) i r (x ∷ xs) (y ∷ ys) ex ey h =
    let first : i + 0 ≡ i = omega arith in
    let rest = tables_of-eq n (i + 1) r xs ys (omega arith) (omega arith) (λ j hj.
      let shift : i + 1 + j ≡ i + suc j = omega arith in rw shift (h (suc j) (omega arith))) in
    rw (rest, ← first) (ap₂ (λ a c. (a ∷ xs, c ∷ ys)) (h 0 (omega arith)).0 (h 0 (omega arith)).1)

-- The enables and the software interrupts after a restore.
pub restored-enable :
    (state : VicState) (r : VicRegs) → (restored state r).enable ≡ state.int_enable
unfolding restored with_tables
restored-enable state r = rw (bit_and-zero r.enable) (zero-bit_or state.int_enable)

pub restored-software :
    (state : VicState) (r : VicRegs) → (restored state r).software ≡ state.software_ints
unfolding restored with_tables
restored-software state r = rw (bit_and-zero r.software) (zero-bit_or state.software_ints)

-- A state that the controller can hold: full tables, one protection bit, six-bit controls.
pub record IsVicState (state : VicState) : Type 0 where
  pub addrs_full : length state.vect_addrs ≡ 16
  pub controls_full : length state.vect_controls ≡ 16
  pub one_bit : state.protect < 2
  pub six_bits : (i : ℕ) → i < 16 → at state.vect_controls i < 64

pub restored-tables_at :
    (state : VicState) (r : VicRegs) (j : ℕ)
    → j < 16
    → ((restored state r).addrs j ≡ at state.vect_addrs j)
      × ((restored state r).controls j ≡ at state.vect_controls j % 64)
unfolding restored
restored-tables_at state r j h = with_tables-at 16 0 state _ j (omega arith) h

restored_tables :
    (state : VicState) (r : VicRegs)
    → IsVicState state
    → tables_of 16 0 (restored state r) ≡ (state.vect_addrs, state.vect_controls)
restored_tables state r v =
    tables_of-eq 16 0 (restored state r) state.vect_addrs state.vect_controls v.addrs_full
      v.controls_full
      (λ j h.
        let (addr, control) = restored-tables_at state r j h in
        let small : at state.vect_controls j % 64 ≡ at state.vect_controls j =
          omega (arith, v.six_bits j h) in
        rw (zero-add j) (addr, control ∙ small))

pub state_of-restored :
    (state : VicState) (r : VicRegs) → IsVicState state → state_of (restored state r) ≡ state
unfolding state_of restored with_tables
state_of-restored state r v =
    let one : state.protect % 2 ≡ state.protect = omega (arith, v.one_bit) in
    let enable = restored-enable state r in
    let software = restored-software state r in
    let tables = restored_tables state r v in
    λ i. record {
      int_select = state.int_select;
      int_enable = enable i;
      software_ints = software i;
      protect = one i;
      vect_addrs = (tables i).0;
      vect_controls = (tables i).1;
      default_addr = state.default_addr;
    }
