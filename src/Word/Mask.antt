-- ===== src/Word/Mask.antt =====
-- Masks and disjoint fields as arithmetic: `&` with a run of ones is a remainder of a quotient,
-- and `|` of fields that do not overlap is a sum.
use native.Mathlib.Nat.{
  pow-succ', one-le-pow, div-add-mod, mul-div_right, mul-mod_left, zero-add, suc-add, mod-one,
  div-eq_of_lt, mod-eq_of_lt, div-lt_iff_lt-mul, sub-add_cancel,
}
use nspire_utils.Base.{
  ℕ, zero, suc, ◌+◌, ◌-◌, ◌*◌, ◌/◌, ◌%◌, ◌^◌, ◌≤◌, ◌<◌, bit_and, bit_or, ◌≡◌, ap, ◌∙◌, arith,
}
use nspire_utils.Word.Digits.{bit_and_digit}
use nspire_utils.Word.Shift.{
  mod-pow-suc, bit_or-div, bit_or-mod, bit_and-div, bit_and-mod, bit_or-zero, zero-bit_or,
  bit_and-zero,
}

pub pow_pos : (k : ℕ) → 1 ≤ 2 ^ k
pow_pos k = one-le-pow k 2 (omega arith)

pow-add : (m k : ℕ) → 2 ^ (m + k) ≡ 2 ^ m * 2 ^ k
pow-add zero k = omega (arith, ap (λ (t : ℕ). 2 ^ t) (zero-add k))
pow-add (suc m) k = ground (
  arith,
  ap (λ (t : ℕ). 2 ^ t) (suc-add m k),
  pow-succ' 2 (m + k),
  pow-succ' 2 m,
  ap (λ (t : ℕ). t * 2 ^ k) (pow-succ' 2 m),
  pow-add m k,
)

-- `a & (2 ^ m - 1)` keeps the low `m` bits.
pub bit_and_low : (m a : ℕ) → bit_and a (2 ^ m - 1) ≡ a % 2 ^ m
bit_and_low zero a = rw (bit_and-zero a, mod-one a)
bit_and_low (suc m) a = ground (
  arith,
  bit_and_digit a (2 ^ suc m - 1),
  pow-succ' 2 m,
  pow_pos m,
  mod-pow-suc a m,
  bit_and_low m (a / 2),
)

-- `a & mask`, where the mask is a run of `m` ones above `k` zeros.
pub bit_and_field : (m k a : ℕ) → bit_and a ((2 ^ m - 1) * 2 ^ k) ≡ a / 2 ^ k % 2 ^ m * 2 ^ k
bit_and_field m k a = ground (
  arith,
  div-add-mod (bit_and a ((2 ^ m - 1) * 2 ^ k)) (2 ^ k),
  bit_and-div k a ((2 ^ m - 1) * 2 ^ k),
  bit_and-mod k a ((2 ^ m - 1) * 2 ^ k),
  mul-div_right (2 ^ m - 1) (pow_pos k),
  mul-mod_left (2 ^ m - 1) (2 ^ k),
  bit_and-zero (a % 2 ^ k),
  bit_and_low m (a / 2 ^ k),
)

-- `(q << k) | r` is a sum when `r` has `k` bits.
pub bit_or_sum : (k q r : ℕ) → r < 2 ^ k → bit_or (q * 2 ^ k) r ≡ q * 2 ^ k + r
bit_or_sum k q r fits = ground (
  arith,
  div-add-mod (bit_or (q * 2 ^ k) r) (2 ^ k),
  bit_or-div k (q * 2 ^ k) r,
  bit_or-mod k (q * 2 ^ k) r,
  mul-div_right q (pow_pos k),
  mul-mod_left q (2 ^ k),
  bit_or-zero q,
  zero-bit_or r,
  div-eq_of_lt fits,
  mod-eq_of_lt fits,
)

pred-mul : (q p : ℕ) → 1 ≤ q → (q - 1) * p + p ≡ q * p
pred-mul zero p h = elim h [ ]
pred-mul (suc q) p h = let e : suc q - 1 ≡ q = omega arith in rw e (omega arith)

-- `~(2 ^ k - 1)` as a run of ones.
align_mask : (k : ℕ) → k ≤ 32 → 2 ^ 32 - 1 - (2 ^ k - 1) ≡ (2 ^ (32 - k) - 1) * 2 ^ k
align_mask k h = omega (
  arith,
  pow_pos k,
  pred-mul (2 ^ (32 - k)) (2 ^ k) (pow_pos (32 - k)),
  pow-add (32 - k) k,
  ap (λ (t : ℕ). 2 ^ t) (sub-add_cancel h),
)

-- `a & ~(2 ^ k - 1)` rounds a word down to a multiple of `2 ^ k`.
pub bit_and_align :
    (k a : ℕ) → k ≤ 32 → a < 2 ^ 32 → bit_and a (2 ^ 32 - 1 - (2 ^ k - 1)) ≡ a / 2 ^ k * 2 ^ k
bit_and_align k a h fits =
    let small : a / 2 ^ k < 2 ^ (32 - k) =
      (div-lt_iff_lt-mul (pow_pos k)).1
        (omega (arith, pow-add (32 - k) k, ap (λ (t : ℕ). 2 ^ t) (sub-add_cancel h))) in
    ap (λ t. bit_and a t) (align_mask k h)
    ∙ bit_and_field (32 - k) k a
    ∙ ap (λ t. t * 2 ^ k) (mod-eq_of_lt small)
