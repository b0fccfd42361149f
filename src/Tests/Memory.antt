-- ===== src/Tests/Memory.antt =====
-- The allocator and the caches on concrete values.
use nspire_utils.Base.{
  ℕ, ◌↔◌, ◌+◌, ◌-◌, ◌*◌, ◌/◌, ◌%◌, ◌^◌, ◌<◌, ◌≤◌, true, false, [], ◌∷◌, none, ◌≡◌, refl, arith,
  bit_and,
}
use nspire_utils.Word.{not32}
use nspire_utils.Machine.{Machine, done, hang, write, clean_dcache_line, ◌>>=◌, ◌>>◌}
use nspire_utils.Machine.Store.{write_ne}
use nspire_utils.Caches.{flush_data_cache_range, sweep}
use nspire_utils.Caches.Range
use nspire_utils.Alloc.{
  is_power_of_two, true_block_size, aligned_address, aligned_alloc, aligned_free,
}
use nspire_utils.Alloc.PowerOfTwo
use nspire_utils.Alloc.Block
use nspire_utils.Tests.{arena, booted}

lines_of_two :
    Range.lines clean_dcache_line 96 2 [] ≡ clean_dcache_line 128 ∷ clean_dcache_line 96 ∷ []
unfolding Range.lines
lines_of_two = refl

flush_data_cache_range_lem_example :
    flush_data_cache_range 100 130 booted
    ≡ done tt (record booted {
      ops = Range.lines clean_dcache_line (100 / 32 * 32) (Range.line_count 100 130) [];
    })
flush_data_cache_range_lem_example =
    Range.flush_data_cache_range_lem 100 130 booted (omega arith) (omega arith)

flush_data_cache_range_hangs_example :
    (sweep 1000 clean_dcache_line (bit_and 100 (not32 31)) 0xffffffff [] ≡ none)
    × (flush_data_cache_range 100 0xffffffff booted ≡ hang)
flush_data_cache_range_hangs_example =
    Range.flush_data_cache_range_hangs 100 0xffffffff booted 1000 (omega arith) (omega arith)

is_power_of_two_iff_example : (is_power_of_two 4096 ≡ true) ↔ PowerOfTwo.IsPower 4096
is_power_of_two_iff_example = PowerOfTwo.is_power_of_two_iff 4096 (omega arith)

-- 100 bytes at a multiple of 64.
grant_100 : Block.Grants arena (100 + 2 ^ 6 + 3) booted.heap 0x100000 (0x100000 + (100 + 2 ^ 6 + 3))
grant_100 = record { answer = refl; not_null = omega arith; inside = omega arith }

abbrev block_100 : ℕ
block_100 = (0x100000 + 2 ^ 6 + 3) / 2 ^ 6 * 2 ^ 6

abbrev holding_100 : Machine ℕ
holding_100 = record booted {
  mem = write booted.mem (block_100 - 4) 0x100000;
  heap = 0x100000 + (100 + 2 ^ 6 + 3);
}

aligned_alloc_lem_example :
    (aligned_alloc arena (2 ^ 6) 100 booted ≡ done block_100 holding_100)
    × (block_100 % 2 ^ 6 ≡ 0)
    × (0x100000 + 4 ≤ block_100)
    × (block_100 + 100 ≤ 0x100000 + (100 + 2 ^ 6 + 3))
aligned_alloc_lem_example =
    Block.aligned_alloc_lem arena 6 100 booted (omega arith) (omega arith) (omega arith) grant_100

-- The first word of the block is written in between.
abbrev first_word : ℕ → Machine ℕ → Machine ℕ
first_word b s = record s { mem = write s.mem b 7 }

aligned_free-aligned_alloc_example :
    (aligned_alloc arena (2 ^ 6) 100 >>= λ b.
    (λ s. done tt (first_word b s)) >> aligned_free arena b)
      booted
    ≡ done tt (first_word block_100 holding_100)
aligned_free-aligned_alloc_example =
    Block.aligned_free-aligned_alloc arena 6 100 booted (omega arith) (omega arith) (omega arith)
      grant_100 first_word (λ b a s below. write_ne s.mem b 7 a (omega arith))

not_power : is_power_of_two 48 ≡ false
unfolding is_power_of_two
not_power = refl

aligned_block_overruns_example :
    0x100000 + true_block_size (2 ^ 4) 0xfffffff0 < aligned_address (2 ^ 4) 0x100000 + 0xfffffff0
aligned_block_overruns_example =
    Block.aligned_block_overruns 4 0xfffffff0 0x100000 (omega arith) (omega arith) (omega arith)
      (omega arith)
