-- ===== src/Alloc/PowerOfTwo.antt =====
-- The test `x && (x & (x - 1)) == 0` of mem/Alloc.cpp, and rounding up to a power of two.
use mathlib.Core.WellFounded
use native.Mathlib.Nat.{pow-succ', pow-le-pow_right, mod_self}
use nspire_utils.Base.{
  ℕ, suc, ◌-◌, ◌*◌, ◌/◌, ◌%◌, ◌^◌, ◌<◌, bit_and, true, ◌==◌, ◌≡◌, inl, inr, refl, arith, lt_wf, ◌↔◌,
  Bool-cases, ltb, ==→eq,
}
use nspire_utils.Word.{sub32}
use nspire_utils.Word.Digits.{halving, bit_and_digit}
use nspire_utils.Word.Mask.{pow_pos, bit_and_low}
use nspire_utils.Alloc.{is_power_of_two}

bit_and_self : (a : ℕ) → bit_and a a ≡ a
bit_and_self =
    halving (λ n. bit_and n n ≡ n) refl
      (λ n half. omega (arith, bit_and_digit (suc n) (suc n), half))

-- An odd number that shares no bit with its predecessor is 1; an even one halves.
odd_step : (n : ℕ) → n % 2 ≡ 1 → bit_and n (n - 1) ≡ 0 → n ≡ 1
odd_step n odd h = ground (arith, halves, bit_and_digit n (n - 1), bit_and_self (n / 2))
  where
    halves : (n - 1) / 2 ≡ n / 2
    halves = omega arith

even_step : (n : ℕ) → 0 < n → n % 2 ≡ 0 → bit_and n (n - 1) ≡ bit_and (n / 2) (n / 2 - 1) * 2
even_step n pos even = ground (arith, halves, bit_and_digit n (n - 1))
  where
    halves : (n - 1) / 2 ≡ n / 2 - 1
    halves = omega arith

abbrev pub IsPower : ℕ → Type 0
IsPower x = (k : ℕ) × (x ≡ 2 ^ k)

double-IsPower : (n : ℕ) → n % 2 ≡ 0 → IsPower (n / 2) → IsPower n
double-IsPower n even (k, e) = (suc k, omega (arith, pow-succ' 2 k))

test-IsPower : (x : ℕ) → 0 < x → bit_and x (x - 1) ≡ 0 → IsPower x
test-IsPower x =
    WellFounded.induction lt_wf {C = λ n. 0 < n → bit_and n (n - 1) ≡ 0 → IsPower n} x step
  where
    step :
        (n : ℕ)
        → ((m : ℕ) → m < n → 0 < m → bit_and m (m - 1) ≡ 0 → IsPower m)
        → 0 < n
        → bit_and n (n - 1) ≡ 0
        → IsPower n
    step n ih pos h = elim (Bool-cases (n % 2 == 0)) [
      | inl even ↦
          let e = ==→eq (n % 2) 0 even in
          double-IsPower n e
            (ih (n / 2) (omega arith) (omega arith) (omega (arith, even_step n pos e)))
      | inr odd ↦ (0, odd_step n (ground arith) h)
    ]

pub pow_bound : (k : ℕ) → 2 ^ k < 2 ^ 32 → k < 32
pow_bound k h = elim (Bool-cases (ltb k 32)) [
  | inl small ↦ ground arith
  | inr large ↦
      absurd (omega (arith, pow-le-pow_right {n = 2} (omega arith) {i = 32} {j = k} (ground arith)))
]

-- For a `size_t` value, `is_power_of_two_size_t` answers true exactly when the value is a power
-- of two.
pub is_power_of_two_iff : (x : ℕ) → x < 2 ^ 32 → (is_power_of_two x ≡ true) ↔ IsPower x
unfolding is_power_of_two
is_power_of_two_iff x h = (to, from)
  where
    to : is_power_of_two x ≡ true → IsPower x
    to e = test-IsPower x (ground arith) (ground (arith, pred))
      where
        pred : 0 < x → sub32 x 1 ≡ x - 1
        pred pos = omega arith

    from : IsPower x → is_power_of_two x ≡ true
    from (k, e) = ground (arith, pred, pow_pos k, bit_and_low k (2 ^ k), mod_self (2 ^ k))
      where
        pred : sub32 x 1 ≡ 2 ^ k - 1
        pred = omega (arith, pow_pos k)
