-- ===== src/Word.antt =====
-- 32-bit machine words as natural numbers below 2 ^ 32: the operators of C that the sources
-- use, with their wrap-around written out.
pub mod Digits
pub mod Shift
pub mod Mask
pub mod Bit
use nspire_utils.Base.{ℕ, ◌+◌, ◌-◌, ◌*◌, ◌/◌, ◌%◌, ◌^◌, bit_and, bit_or, Bool, not, ◌==◌}

-- A value converted to `uint32_t`, `uintptr_t` or `size_t`.
abbrev pub u32 : ℕ → ℕ
u32 n = n % 2 ^ 32

-- `~x` of a word.
abbrev pub not32 : ℕ → ℕ
not32 x = 2 ^ 32 - 1 - x

-- `x << k` of a word.
abbrev pub shl32 : ℕ → ℕ → ℕ
shl32 x k = u32 (x * 2 ^ k)

-- `x >> k` of a word.
abbrev pub shr32 : ℕ → ℕ → ℕ
shr32 x k = x / 2 ^ k

-- `a + b` and `a - b` of words.
abbrev pub add32 : ℕ → ℕ → ℕ
add32 a b = u32 (a + b)

abbrev pub sub32 : ℕ → ℕ → ℕ
sub32 a b = u32 (a + 2 ^ 32 - b)

-- `(x & m) != 0`.
abbrev pub any_bit : ℕ → ℕ → Bool
any_bit x m = not (bit_and x m == 0)
