-- ===== src/Caches/Range.antt =====
-- What the loops of platform/Caches.cpp issue for a range, and where they do not end.
use mathlib.Core.List.{Mem, mem-cons}
use mathlib.Core.Logic.Or
use nspire_utils.Base.{
  ℕ, zero, suc, ◌+◌, ◌-◌, ◌*◌, ◌/◌, ◌%◌, ◌^◌, ◌≤◌, ◌<◌, none, some, List, ◌∷◌, ◌≡◌, refl, ◌∙◌,
  arith, lt→ltb, le→ltb, ap, bit_and,
}
use nspire_utils.Word.{add32, not32}
use nspire_utils.Word.Mask.{bit_and_field}
use nspire_utils.Machine.{CacheOp, Machine, clean_dcache_line, invalidate_icache_line, done, hang}
use nspire_utils.Caches.{
  cache_line_size, commit, sweep, sweep_fuel, sweep_range, flush_data_cache_range,
  invalidate_icache_range,
}

-- `n` operations on consecutive lines from `addr` on, in ascending order.
unfoldable pub lines : (ℕ → CacheOp) → ℕ → ℕ → List CacheOp → List CacheOp
lines op addr zero ops = ops
lines op addr (suc n) ops = lines op (addr + 32) n (op addr ∷ ops)

-- How many lines a range touches from its first line on.
abbrev pub line_count : ℕ → ℕ → ℕ
line_count start end = (end + 31) / 32 - start / 32

-- With one round of fuel more than lines, the loop issues exactly the lines up to `end`.
sweep-lines :
    (fuel : ℕ) (op : ℕ → CacheOp) (addr end n : ℕ) (ops : List CacheOp)
    → end ≤ 2 ^ 32 - 32
    → n < fuel
    → end - addr ≤ 32 * n
    → 32 * n < end - addr + 32
    → sweep fuel op addr end ops ≡ some (lines op addr n ops)
unfolding sweep lines
sweep-lines zero op addr end n ops e h lo hi = elim h [ ]
sweep-lines (suc fuel) op addr end zero ops e h lo hi = rw (le→ltb addr end (omega arith))
sweep-lines (suc fuel) op addr end (suc n) ops e h lo hi =
    let step : add32 addr cache_line_size ≡ addr + 32 = omega arith in
    rw (lt→ltb addr end (omega arith), step)
      (sweep-lines fuel op (addr + 32) end n (op addr ∷ ops) e (omega arith) (omega arith)
        (omega arith))

-- The loop's first address: the start of the line that holds `start`.
line_start : (start : ℕ) → start < 2 ^ 32 → bit_and start (not32 31) ≡ start / 32 * 32
line_start start h = omega (arith, bit_and_field 27 5 start)

-- The lines that an address range needs are issued in ascending order, each once, and nothing
-- else of the state changes, when `end` leaves room for the last line's successor.
module _ {H : Type 0} where
  sweep_range_lem :
      (op : ℕ → CacheOp) (start end : ℕ) (m : Machine H)
      → start < 2 ^ 32
      → end ≤ 2 ^ 32 - 32
      → sweep_range op start end m
        ≡ done tt (record m { ops = lines op (start / 32 * 32) (line_count start end) m.ops })
  unfolding sweep_range
  sweep_range_lem op start end m s e =
      ap (λ o. commit o m)
        (ap (λ a. sweep (sweep_fuel end) op a end m.ops) (line_start start s)
          ∙ sweep-lines (sweep_fuel end) op (start / 32 * 32) end (line_count start end) m.ops e
              (omega arith) (omega arith) (omega arith))

  -- `FlushDataCacheRange(start, end)`, for `end` at most 2^32 - 32, returns after cleaning the lines
  -- from the one that holds `start` up to the last that begins below `end`, in ascending order and
  -- each once; nothing else of the machine changes.
  pub flush_data_cache_range_lem :
      (start end : ℕ) (m : Machine H)
      → start < 2 ^ 32
      → end ≤ 2 ^ 32 - 32
      → flush_data_cache_range start end m
        ≡ done tt (record m {
          ops = lines clean_dcache_line (start / 32 * 32) (line_count start end) m.ops;
        })
  unfolding flush_data_cache_range
  flush_data_cache_range_lem = sweep_range_lem clean_dcache_line

  -- The same of `InvalidateICacheRange(start, end)` and the instruction cache's lines.
  pub invalidate_icache_range_lem :
      (start end : ℕ) (m : Machine H)
      → start < 2 ^ 32
      → end ≤ 2 ^ 32 - 32
      → invalidate_icache_range start end m
        ≡ done tt (record m {
          ops = lines invalidate_icache_line (start / 32 * 32) (line_count start end) m.ops;
        })
  unfolding invalidate_icache_range
  invalidate_icache_range_lem = sweep_range_lem invalidate_icache_line

-- The lines of a run cover what they should: the `i`-th line is among them.
lines-older :
    (op : ℕ → CacheOp) (c : CacheOp) (addr n : ℕ) (ops : List CacheOp)
    → Mem c ops
    → Mem c (lines op addr n ops)
unfolding lines
lines-older op c addr zero ops h = h
lines-older op c addr (suc n) ops h =
    lines-older op c (addr + 32) n (op addr ∷ ops) (mem-cons.1 (Or.inr h))

lines-mem :
    (op : ℕ → CacheOp) (addr n i : ℕ) (ops : List CacheOp)
    → i < n
    → Mem (op (addr + 32 * i)) (lines op addr n ops)
unfolding lines
lines-mem op addr zero i ops h = elim h [ ]
lines-mem op addr (suc n) zero ops h =
    lines-older op (op (addr + 32 * 0)) (addr + 32) n (op addr ∷ ops)
      (mem-cons.1 (Or.inl (ap op (omega arith))))
lines-mem op addr (suc n) (suc i) ops h =
    let e : addr + 32 + 32 * i ≡ addr + 32 * suc i = omega arith in
    rw e at (lines-mem op (addr + 32) n i (op addr ∷ ops) (omega arith))

-- For a byte `a` of a range `[start, end)` with `end` at most 2^32 - 32, `FlushDataCacheRange` returns,
-- and the clean of the line that holds `a` is among the operations issued.
flush_data_cache_range-covers :
    {H : Type 0} (start end a : ℕ) (m : Machine H)
    → start ≤ a
    → a < end
    → end ≤ 2 ^ 32 - 32
    → let ops = lines clean_dcache_line (start / 32 * 32) (line_count start end) m.ops in
      (flush_data_cache_range start end m ≡ done tt (record m { ops = ops }))
      × Mem (clean_dcache_line (a / 32 * 32)) ops
flush_data_cache_range-covers start end a m lo hi top =
    let e : start / 32 * 32 + 32 * (a / 32 - start / 32) ≡ a / 32 * 32 = omega arith in
    (
      flush_data_cache_range_lem start end m (omega arith) top,
      rw e at (
          lines-mem clean_dcache_line (start / 32 * 32) (line_count start end) (a / 32 - start / 32)
            m.ops (omega arith)),
    )

-- Above that bound the loop's variable wraps to 0 below `end`: no fuel is enough.
sweep_forever :
    (fuel : ℕ) (op : ℕ → CacheOp) (q end : ℕ) (ops : List CacheOp)
    → 2 ^ 32 - 32 < end
    → q < 2 ^ 27
    → sweep fuel op (q * 32) end ops ≡ none
unfolding sweep
sweep_forever zero op q end ops e h = refl
sweep_forever (suc fuel) op q end ops e h =
    let next : add32 (q * 32) cache_line_size ≡ (q + 1) % 2 ^ 27 * 32 = omega arith in
    rw (lt→ltb (q * 32) end (omega arith), next)
      (sweep_forever fuel op ((q + 1) % 2 ^ 27) end (op (q * 32) ∷ ops) e (omega arith))

-- For every `end` above 2^32 - 32 and every start, `FlushDataCacheRange` never returns: whatever
-- number of rounds its loop is given, they do not suffice.
pub flush_data_cache_range_hangs :
    {H : Type 0} (start end : ℕ) (m : Machine H) (fuel : ℕ)
    → start < 2 ^ 32
    → 2 ^ 32 - 32 < end
    → (sweep fuel clean_dcache_line (bit_and start (not32 31)) end m.ops ≡ none)
      × (flush_data_cache_range start end m ≡ hang)
unfolding flush_data_cache_range sweep_range
flush_data_cache_range_hangs start end m fuel s e =
    let stuck = λ (rounds : ℕ).
      ap (λ a. sweep rounds clean_dcache_line a end m.ops) (line_start start s)
      ∙ sweep_forever rounds clean_dcache_line (start / 32) end m.ops e (omega arith) in
    (stuck fuel, ap (λ o. commit o m) (stuck (sweep_fuel end)))
