-- ===== src/Word/Bit.antt =====
-- A word as its bits: how `|`, `&`, `~` and `1 << n` act on each, and that the bits determine it.
use native.Mathlib.Nat.{pow-succ', zero-div, pow-le-pow_right}
use nspire_utils.Base.{
  ℕ, zero, suc, ◌-◌, ◌/◌, ◌%◌, ◌^◌, ◌<◌, min, max, bit_and, bit_or, true, false, not, ◌==◌,
  if◌then◌else◌, ◌≡◌, refl, ap, arith,
}
use nspire_utils.Word.{not32, shl32, any_bit}
use nspire_utils.Word.Digits.{bit_or_digit, bit_and_digit}
use nspire_utils.Word.Shift.{div-pow-suc, bit_or-div, bit_and-div}
use nspire_utils.Word.Mask.{pow_pos, bit_and_field}

-- Bit `n` of a word, 0 or 1.
abbrev pub bit : ℕ → ℕ → ℕ
bit n a = a / 2 ^ n % 2

bit-or : (n a b : ℕ) → bit n (bit_or a b) ≡ max (bit n a) (bit n b)
bit-or n a b = omega (arith, bit_or-div n a b, bit_or_digit (a / 2 ^ n) (b / 2 ^ n))

bit-and : (n a b : ℕ) → bit n (bit_and a b) ≡ min (bit n a) (bit n b)
bit-and n a b = omega (arith, bit_and-div n a b, bit_and_digit (a / 2 ^ n) (b / 2 ^ n))

bit-pow : (n j : ℕ) → bit n (2 ^ j) ≡ (if n == j then 1 else 0)
bit-pow zero zero = refl
bit-pow zero (suc j) = ground (arith, pow-succ' 2 j)
bit-pow (suc n) zero = ground (arith, div-pow-suc 1 n, zero-div (2 ^ n))
bit-pow (suc n) (suc j) = ground (arith, div-pow-suc (2 ^ suc j) n, pow-succ' 2 j, bit-pow n j)

bit-complement : (w n a : ℕ) → n < w → a < 2 ^ w → bit n (2 ^ w - 1 - a) ≡ 1 - bit n a
bit-complement zero n a p q = absurd (omega arith)
bit-complement (suc w) zero a p q = omega (arith, pow-succ' 2 w)
bit-complement (suc w) (suc n) a p q = ground (
  arith,
  pow-succ' 2 w,
  div-pow-suc (2 ^ suc w - 1 - a) n,
  div-pow-suc a n,
  bit-complement w n (a / 2),
)

-- `(a & (1 << n)) != 0` reads bit `n`.
any_bit-pow : (n a : ℕ) → not (bit_and a (2 ^ n) == 0) ≡ (bit n a == 1)
any_bit-pow n a = ground (arith, bit_and_field 1 n a, pow_pos n)

eq_of_bits : (w a b : ℕ) → a < 2 ^ w → b < 2 ^ w → ((n : ℕ) → n < w → bit n a ≡ bit n b) → a ≡ b
eq_of_bits zero a b p q h = omega arith
eq_of_bits (suc w) a b p q h =
    let bound = pow-succ' 2 w in
    let halves : a / 2 ≡ b / 2 = eq_of_bits w (a / 2) (b / 2) (omega arith) (omega arith) (λ n hn.
      omega (
        arith,
        h (suc n) (omega arith),
        ap (λ (t : ℕ). t % 2) (div-pow-suc a n),
        ap (λ (t : ℕ). t % 2) (div-pow-suc b n),
      )) in
    omega (arith, h 0 (omega arith))

-- `1 << n` for a bit number of a word.
shl32-one : (n : ℕ) → n < 32 → shl32 1 n ≡ 2 ^ n
shl32-one n h = omega (arith, pow-le-pow_right {n = 2} (omega arith) {i = n} {j = 31} (omega arith))

-- Reading bit `j` of a word, after bit `n` was set or cleared.
pub test-set :
    (j n a : ℕ)
    → j < 32
    → n < 32
    → any_bit (bit_or a (shl32 1 n)) (shl32 1 j) ≡ (if j == n then true else any_bit a (shl32 1 j))
test-set j n a hj hn =
    rw
      (
        shl32-one n hn,
        shl32-one j hj,
        any_bit-pow j (bit_or a (2 ^ n)),
        any_bit-pow j a,
        bit-or j a (2 ^ n),
        bit-pow j n,
      )
      (ground arith)

pub test-clear :
    (j n a : ℕ)
    → j < 32
    → n < 32
    → any_bit (bit_and a (not32 (shl32 1 n))) (shl32 1 j)
      ≡ (if j == n then false else any_bit a (shl32 1 j))
test-clear j n a hj hn =
    rw
      (
        shl32-one n hn,
        shl32-one j hj,
        any_bit-pow j (bit_and a (2 ^ 32 - 1 - 2 ^ n)),
        any_bit-pow j a,
        bit-and j a (2 ^ 32 - 1 - 2 ^ n),
        bit-complement 32 j (2 ^ n) hj
            (omega (arith, pow-le-pow_right {n = 2} (omega arith) {i = n} {j = 31} (omega arith))),
        bit-pow j n,
      )
      (ground arith)

-- The same after any bits were set or cleared.
pub test-or :
    (j a b : ℕ)
    → j < 32
    → any_bit (bit_or a b) (shl32 1 j)
      ≡ (if any_bit b (shl32 1 j) then true else any_bit a (shl32 1 j))
test-or j a b hj =
    rw (shl32-one j hj, any_bit-pow j (bit_or a b), any_bit-pow j a, any_bit-pow j b, bit-or j a b)
      (ground arith)

pub test-and_not :
    (j a b : ℕ)
    → j < 32
    → b < 2 ^ 32
    → any_bit (bit_and a (not32 b)) (shl32 1 j)
      ≡ (if any_bit b (shl32 1 j) then false else any_bit a (shl32 1 j))
test-and_not j a b hj hb =
    rw
      (
        shl32-one j hj,
        any_bit-pow j (bit_and a (2 ^ 32 - 1 - b)),
        any_bit-pow j a,
        any_bit-pow j b,
        bit-and j a (2 ^ 32 - 1 - b),
        bit-complement 32 j b hj hb,
      )
      (ground arith)
