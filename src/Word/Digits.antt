-- ===== src/Word/Digits.antt =====
-- One equation for the lowest binary digit of `bit_and` and `bit_or`, from the recursion on
-- digits that the native operations stand for, and induction by halving.
use mathlib.Core.WellFounded
use Prim.Native.Nat.{digits, bitwise, bit_and-bitwise, bit_or-bitwise}
use nspire_utils.Base.{
  ℕ, zero, suc, ◌+◌, ◌*◌, ◌/◌, ◌%◌, ◌<◌, ◌≤◌, min, max, bit_and, bit_or, ◌≡◌, refl, arith, lt_wf,
}

-- What holds of 0, and of a number once it holds of its half, holds of every number.
pub halving : (P : ℕ → Type 0) → P 0 → ((n : ℕ) → P (suc n / 2) → P (suc n)) → (n : ℕ) → P n
halving P base up n = WellFounded.induction lt_wf {C = P} n below
  where
    below : (k : ℕ) → ((j : ℕ) → j < k → P j) → P k
    below zero smaller = base
    below (suc k) smaller = up k (smaller (suc k / 2) (omega arith))

module _ (rest : ℕ → ℕ) (op : ℕ → ℕ → ℕ) where
  -- Two amounts of fuel that both reach the first operand give one result.
  same_digits :
      (fuel other x y : ℕ)
      → x ≤ fuel
      → x ≤ other
      → digits rest op fuel x y ≡ digits rest op other x y
  same_digits (suc fuel) (suc other) (suc x) y h k =
      rw (same_digits fuel other (suc x / 2) (y / 2) (omega arith) (omega arith))
  same_digits zero zero x y h k = refl
  same_digits zero (suc other) zero y h k = refl
  same_digits (suc fuel) zero zero y h k = refl
  same_digits (suc fuel) (suc other) zero y h k = refl
  same_digits zero (suc other) (suc x) y h k = absurd (omega arith)
  same_digits (suc fuel) zero (suc x) y h k = absurd (omega arith)

  lowest_digit :
      (x y : ℕ)
      → bitwise rest op (suc x) y ≡ op (suc x % 2) (y % 2) + 2 * bitwise rest op (suc x / 2) (y / 2)
  lowest_digit x y =
      let enough = same_digits x (suc x / 2) (suc x / 2) (y / 2) (omega arith) (omega arith) in
      omega (arith, enough)

pub bit_or_digit : (x y : ℕ) → bit_or x y ≡ max (x % 2) (y % 2) + 2 * bit_or (x / 2) (y / 2)
bit_or_digit zero y = simp bit_or-bitwise (omega arith)
bit_or_digit (suc x) y = simp bit_or-bitwise (lowest_digit (λ b. b) max x y)

pub bit_and_digit : (x y : ℕ) → bit_and x y ≡ min (x % 2) (y % 2) + 2 * bit_and (x / 2) (y / 2)
bit_and_digit zero y = simp bit_and-bitwise (omega arith)
bit_and_digit (suc x) y = simp bit_and-bitwise (lowest_digit (λ b. 0) min x y)
