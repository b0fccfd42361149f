-- ===== src/Sha256.antt =====
-- include/nspire-utils/devices/SHA256.hpp: the hash device's control register, the wait for it, and
-- the transfer of blocks byte by byte.
pub mod Transfer
use nspire_utils.Base.{
  ℕ, zero, suc, ◌+◌, ◌^◌, bit_and, Bool, true, false, Option, none, some, List, [], ◌∷◌,
}
use nspire_utils.Word.{any_bit}
use nspire_utils.Device.{Bus, Io, peek, poke, pure, ◌>>=◌}

abbrev pub sha256_control : ℕ
sha256_control = 0x00

abbrev sha256_bus_write_allow : ℕ
sha256_bus_write_allow = 0x08

abbrev pub sha256_block_start : ℕ
sha256_block_start = 0x10

abbrev sha256_state_start : ℕ
sha256_state_start = 0x60

-- `words` and `bytes` are the 32-bit and the 8-bit accesses to the device at `base`.
module _ {S : Type 0} (words bytes : Bus S) (base : ℕ) where
  unfoldable pub is_busy : Io S Bool
  is_busy = do control ← peek words (base + sha256_control); pure (any_bit control 1)

  -- `while (isBusy());`, or none when the rounds given do not suffice.
  pub wait_idle : ℕ → S → Option S
  wait_idle zero s = none
  wait_idle (suc fuel) s = elim (is_busy s).0 [
    | true ↦ wait_idle fuel (is_busy s).1
    | false ↦ some (is_busy s).1
  ]

  abbrev pub clear_control : Option S → Option S
  clear_control none = none
  clear_control (some s) = some (words.write (base + sha256_control) 0 s)

  pub initialize : ℕ → S → Option S
  initialize fuel s = clear_control (wait_idle fuel (words.write (base + sha256_control) 0x10 s))

  unfoldable write_allowed : Io S Bool
  write_allowed = do
    allow ← peek words (base + sha256_bus_write_allow)
    pure (any_bit allow (2 ^ 8))

  unfoldable allow_write : Io S (Unit {0})
  allow_write = poke words (base + sha256_bus_write_allow) (2 ^ 8)

  -- The loop over the bytes of a block from index `i` on.
  pub write_bytes : ℕ → ℕ → List ℕ → S → S
  write_bytes start i [] s = s
  write_bytes start i (x ∷ xs) s = write_bytes start (i + 1) xs (bytes.write (base + start + i) x s)

  pub read_bytes : ℕ → ℕ → ℕ → Io S (List ℕ)
  read_bytes start i zero = pure []
  read_bytes start i (suc n) = do
    x ← peek bytes (base + start + i)
    rest ← read_bytes start (i + 1) n
    pure (x ∷ rest)

  -- The block is a list of 64 bytes.
  abbrev pub write_block : List ℕ → S → S
  write_block block s = write_bytes sha256_block_start 0 block s

  abbrev pub read_block : Io S (List ℕ)
  read_block = read_bytes sha256_block_start 0 64

  abbrev read_hash_state : Io S (List ℕ)
  read_hash_state = read_bytes sha256_state_start 0 32

  abbrev process_first_block : Io S (Unit {0})
  process_first_block = poke words (base + sha256_control) 0xa

  abbrev process_subsequent_block : Io S (Unit {0})
  process_subsequent_block = poke words (base + sha256_control) 0xe
