-- ===== src/Machine.antt =====
-- The processor state that the library's C++ code reads and writes, and the effects of its
-- functions: a store of 32-bit words, two CP15 registers, the CP15 cache and TLB operations in the
-- order in which they were issued, and the state of the platform's allocator, which is a parameter.
pub mod Store
use Prim.Native.String.{String}
use nspire_utils.Base.{ℕ, zero, suc, ◌+◌, ◌-◌, ◌*◌, ◌&&◌, List, ◌∷◌, ltb, leb, ◌==◌, if◌then◌else◌}

-- The CP15 operations that platform/Caches.cpp issues.
pub data CacheOp : Type 0 where
  drain_write_buffer : CacheOp
  invalidate_both : CacheOp
  invalidate_tlb : CacheOp
  invalidate_icache_line : ℕ → CacheOp
  clean_dcache_line : ℕ → CacheOp

-- The exceptions that the library throws.
pub data Exception : Type 0 where
  bad_alloc : Exception
  bad_array_new_length : Exception
  runtime_error : String → Exception

-- `mem a` is the word that starts at the byte address `a`; every access of the code is aligned.
-- The latest operation stands first in `ops`.
pub record Machine (H : Type 0) : Type 0 where
  pub mem : ℕ → ℕ
  pub ttbr0 : ℕ
  pub sctlr : ℕ
  pub ops : List CacheOp
  pub heap : H

-- A call returns, throws, or never comes back.
pub data Outcome (H A : Type 0) : Type 0 where
  done : A → Machine H → Outcome H A
  throw : Exception → Machine H → Outcome H A
  hang : Outcome H A

abbrev pub M : Type 0 → Type 0 → Type 0
M H A = Machine H → Outcome H A

module _ {H A : Type 0} where
  abbrev pub pure : A → M H A
  pure a m = done a m

  abbrev pub raise : Exception → M H A
  raise e m = throw e m

module _ {H A B : Type 0} where
  abbrev and_then : Outcome H A → (A → M H B) → Outcome H B
  and_then (done a m) k = k a m
  and_then (throw e m) k = throw e m
  and_then hang k = hang

  infixl 5 ◌>>=◌ ◌>>◌
  abbrev pub ◌>>=◌ : M H A → (A → M H B) → M H B
  ◌>>=◌ p k m = and_then (p m) k

  abbrev pub ◌>>◌ : M H A → M H B → M H B
  ◌>>◌ p q m = and_then (p m) (λ _. q)

-- The store with one word replaced.
unfoldable pub write : (ℕ → ℕ) → ℕ → ℕ → ℕ → ℕ
write mem a v x = if x == a then v else mem x

pub copy_block : ℕ → ℕ → ℕ → (ℕ → ℕ) → ℕ → ℕ
copy_block dst src n mem a = if leb dst a && ltb a (dst + n) then mem (src + (a - dst)) else mem a

pub zero_block : ℕ → ℕ → (ℕ → ℕ) → ℕ → ℕ
zero_block dst n mem a = if leb dst a && ltb a (dst + n) then 0 else mem a

-- `for (; n > 0; n--, i++) base[i] = f(i);` on an array of words.
pub store_range : ℕ → ℕ → ℕ → (ℕ → ℕ) → (ℕ → ℕ) → ℕ → ℕ
store_range base i zero f mem = mem
store_range base i (suc n) f mem = store_range base (i + 1) n f (write mem (base + 4 * i) (f i))

module _ {H : Type 0} where
  abbrev pub load : ℕ → M H ℕ
  load a m = done (m.mem a) m

  abbrev pub store : ℕ → ℕ → M H (Unit {0})
  store a v m = done tt (record m { mem = write m.mem a v })

  abbrev pub issue : CacheOp → M H (Unit {0})
  issue op m = done tt (record m { ops = op ∷ m.ops })

  -- `std::memcpy` of `n` bytes between word-aligned blocks that do not overlap.
  abbrev pub memcpy : ℕ → ℕ → ℕ → M H (Unit {0})
  memcpy dst src n m = done tt (record m { mem = copy_block dst src n m.mem })

  -- `std::memset` with 0.
  abbrev pub memset_zero : ℕ → ℕ → M H (Unit {0})
  memset_zero dst n m = done tt (record m { mem = zero_block dst n m.mem })

  abbrev pub store_all : ℕ → ℕ → ℕ → (ℕ → ℕ) → M H (Unit {0})
  store_all base i n f m = done tt (record m { mem = store_range base i n f m.mem })
