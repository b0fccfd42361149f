-- ===== src/Caches.antt =====
-- src/platform/Caches.cpp and Caches.hpp: the CP15 cache and TLB operations, and the two loops
-- over the cache lines of an address range.
pub mod Range
use nspire_utils.Base.{
  ℕ, zero, suc, ◌+◌, ◌/◌, ◌-◌, bit_and, Option, none, some, List, ◌∷◌, ltb, if◌then◌else◌,
}
use nspire_utils.Word.{add32, not32}
use nspire_utils.Machine.{
  CacheOp, drain_write_buffer, invalidate_both, invalidate_tlb, invalidate_icache_line,
  clean_dcache_line, M, done, hang, issue, ◌>>◌,
}

abbrev pub cache_line_size : ℕ
cache_line_size = 32

-- `while (addr < end) { op(addr); addr += CacheLineSize; }` with fuel; `addr` wraps at 2 ^ 32.
pub sweep : ℕ → (ℕ → CacheOp) → ℕ → ℕ → List CacheOp → Option (List CacheOp)
sweep zero op addr end ops = none
sweep (suc fuel) op addr end ops =
    let rest = sweep fuel op (add32 addr cache_line_size) end (op addr ∷ ops) in
    if ltb addr end then rest else some ops

-- Rounds that suffice for every loop that ends at all.
abbrev pub sweep_fuel : ℕ → ℕ
sweep_fuel end = suc (suc (end / cache_line_size))

module _ {H : Type 0} where
  -- A loop that has run out of fuel has not ended.
  abbrev pub commit : Option (List CacheOp) → M H (Unit {0})
  commit none m = hang
  commit (some ops) m = done tt (record m { ops = ops })

  pub sweep_range : (ℕ → CacheOp) → ℕ → ℕ → M H (Unit {0})
  sweep_range op start end m =
      commit (sweep (sweep_fuel end) op (bit_and start (not32 (cache_line_size - 1))) end m.ops) m

  unfoldable pub drain_writes : M H (Unit {0})
  drain_writes = issue drain_write_buffer

  unfoldable pub invalidate_both_caches : M H (Unit {0})
  invalidate_both_caches = issue invalidate_both

  unfoldable pub invalidate_tlbs : M H (Unit {0})
  unfolding drain_writes
  invalidate_tlbs = issue invalidate_tlb >> drain_writes

  pub invalidate_icache_range : ℕ → ℕ → M H (Unit {0})
  unfolding sweep_range
  invalidate_icache_range = sweep_range invalidate_icache_line

  pub flush_data_cache_range : ℕ → ℕ → M H (Unit {0})
  unfolding sweep_range
  flush_data_cache_range = sweep_range clean_dcache_line
