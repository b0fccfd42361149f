-- ===== src/Word/Shift.antt =====
-- `&` and `|` pass through shifts and through remainders by powers of two, at every width.

use native.Mathlib.Nat.{pow-succ', div-div-eq-div-mul, div-add-mod, div-one, mod-one}
use Prim.Native.Nat.{bit_and-bitwise, bit_or-bitwise}
use nspire_utils.Base.{
  ℕ, zero, suc, ◌+◌, ◌*◌, ◌/◌, ◌%◌, ◌^◌, bit_and, bit_or, ◌≡◌, refl, sym, ap, arith,
}
use nspire_utils.Word.Digits.{halving, bit_or_digit, bit_and_digit}

pub div-pow-suc : (a k : ℕ) → a / 2 ^ suc k ≡ a / 2 / 2 ^ k
div-pow-suc a k = rw (pow-succ' 2 k) (sym (div-div-eq-div-mul a 2 (2 ^ k)))

pub mod-pow-suc : (a k : ℕ) → a % 2 ^ suc k ≡ a / 2 % 2 ^ k * 2 + a % 2
mod-pow-suc a k = omega (
  arith,
  div-add-mod a (2 ^ suc k),
  ap (λ (t : ℕ). 2 ^ suc k * t) (div-pow-suc a k),
  ap (λ (t : ℕ). t * (a / 2 / 2 ^ k)) (pow-succ' 2 k),
  div-add-mod (a / 2) (2 ^ k),
)

bit_or-half : (a b : ℕ) → bit_or a b / 2 ≡ bit_or (a / 2) (b / 2)
bit_or-half a b = omega (arith, bit_or_digit a b)

bit_and-half : (a b : ℕ) → bit_and a b / 2 ≡ bit_and (a / 2) (b / 2)
bit_and-half a b = omega (arith, bit_and_digit a b)

pub bit_or-div : (k a b : ℕ) → bit_or a b / 2 ^ k ≡ bit_or (a / 2 ^ k) (b / 2 ^ k)
bit_or-div zero a b = simp div-one
bit_or-div (suc k) a b =
    rw (div-pow-suc (bit_or a b) k, div-pow-suc a k, div-pow-suc b k, bit_or-half a b)
      (bit_or-div k (a / 2) (b / 2))

pub bit_and-div : (k a b : ℕ) → bit_and a b / 2 ^ k ≡ bit_and (a / 2 ^ k) (b / 2 ^ k)
bit_and-div zero a b = simp div-one
bit_and-div (suc k) a b =
    rw (div-pow-suc (bit_and a b) k, div-pow-suc a k, div-pow-suc b k, bit_and-half a b)
      (bit_and-div k (a / 2) (b / 2))

pub bit_or-zero : (a : ℕ) → bit_or a 0 ≡ a
bit_or-zero =
    halving (λ n. bit_or n 0 ≡ n) refl (λ n half. omega (arith, bit_or_digit (suc n) 0, half))

pub zero-bit_or : (a : ℕ) → bit_or 0 a ≡ a
zero-bit_or a = bit_or-bitwise 0 a

pub zero-bit_and : (a : ℕ) → bit_and 0 a ≡ 0
zero-bit_and a = bit_and-bitwise 0 a

pub bit_and-zero : (a : ℕ) → bit_and a 0 ≡ 0
bit_and-zero =
    halving (λ n. bit_and n 0 ≡ 0) refl (λ n half. omega (arith, bit_and_digit (suc n) 0, half))

-- The low `k` bits of a digit-wise result: peel one digit of each side.
pub bit_or-mod : (k a b : ℕ) → bit_or a b % 2 ^ k ≡ bit_or (a % 2 ^ k) (b % 2 ^ k)
bit_or-mod zero a b = simp mod-one
bit_or-mod (suc k) a b = ground (
  arith,
  mod-pow-suc (bit_or a b) k,
  mod-pow-suc a k,
  mod-pow-suc b k,
  bit_or_digit a b,
  bit_or_digit (a % 2 ^ suc k) (b % 2 ^ suc k),
  bit_or-mod k (a / 2) (b / 2),
)

pub bit_and-mod : (k a b : ℕ) → bit_and a b % 2 ^ k ≡ bit_and (a % 2 ^ k) (b % 2 ^ k)
bit_and-mod zero a b = simp mod-one
bit_and-mod (suc k) a b = ground (
  arith,
  mod-pow-suc (bit_and a b) k,
  mod-pow-suc a k,
  mod-pow-suc b k,
  bit_and_digit a b,
  bit_and_digit (a % 2 ^ suc k) (b % 2 ^ suc k),
  bit_and-mod k (a / 2) (b / 2),
)
