-- ===== src/Reference/Fifo/Configuration.antt =====
-- reference/FOTG210_Structures.hpp, lines 376 to 403: the FIFO configuration register, which has one byte for
-- each of the four FIFOs.
use native.Mathlib.Nat.{div-add-mod, mul-div_right, mul-mod_left}
use nspire_utils.Base.{
  ℕ, zero, suc, ◌+◌, ◌*◌, ◌/◌, ◌%◌, ◌^◌, ◌<◌, bit_or, Bool-cases, inl, inr, ◌==◌, ==→eq, ap,
  if◌then◌else◌, ◌≡◌, refl, arith,
}
use nspire_utils.Word.Shift.{bit_or-div, bit_or-mod, bit_or-zero, zero-bit_or}
use nspire_utils.Word.Mask.{pow_pos}
use nspire_utils.Reference.Fifo.{
  fifocf_type, fifocf_blk_sin, fifocf_blk_dub, fifocf_blk_tri, fifocf_blksz_512, fifocf_blksz_1024,
  fifocf_fifo_en,
}

-- How many blocks the FIFO has, and how long each is.
pub data Blocks : Type 0 where
  single double triple : Blocks

pub data BlockSize : Type 0 where
  of_512 of_1024 : BlockSize

abbrev blocks_field : Blocks → ℕ → ℕ
blocks_field single = fifocf_blk_sin
blocks_field double = fifocf_blk_dub
blocks_field triple = fifocf_blk_tri

abbrev size_field : BlockSize → ℕ → ℕ
size_field of_512 = fifocf_blksz_512
size_field of_1024 = fifocf_blksz_1024

-- The bits of an enabled FIFO.
abbrev pub configuration : ℕ → Blocks → BlockSize → ℕ → ℕ
configuration type b s fifo =
    bit_or (bit_or (bit_or (fifocf_type type fifo) (blocks_field b fifo)) (size_field s fifo))
      (fifocf_fifo_en fifo)

-- The register's layout: type, number of blocks less one, size and enable from the lowest bit up.
abbrev blocks_code : Blocks → ℕ
blocks_code single = 0
blocks_code double = 1
blocks_code triple = 2

abbrev size_code : BlockSize → ℕ
size_code of_512 = 0
size_code of_1024 = 1

abbrev pub settings : ℕ → Blocks → BlockSize → ℕ
settings type b s = type + 4 * blocks_code b + 16 * size_code s + 32

-- Byte `n` of a register.
abbrev pub byte : ℕ → ℕ → ℕ
byte n w = w / 2 ^ (n * 8) % 2 ^ 8

below_four : (P : ℕ → Type 0) → P 0 → P 1 → P 2 → P 3 → (n : ℕ) → n < 4 → P n
below_four P a b c d zero h = a
below_four P a b c d (suc zero) h = b
below_four P a b c d (suc (suc zero)) h = c
below_four P a b c d (suc (suc (suc zero))) h = d
below_four P a b c d (suc (suc (suc (suc n)))) h = absurd (omega arith)

bit_or_scaled : (k a b : ℕ) → bit_or (a * 2 ^ k) (b * 2 ^ k) ≡ bit_or a b * 2 ^ k
bit_or_scaled k a b = ground (
  arith,
  div-add-mod (bit_or (a * 2 ^ k) (b * 2 ^ k)) (2 ^ k),
  bit_or-div k (a * 2 ^ k) (b * 2 ^ k),
  bit_or-mod k (a * 2 ^ k) (b * 2 ^ k),
  mul-div_right a (pow_pos k),
  mul-div_right b (pow_pos k),
  mul-mod_left a (2 ^ k),
  mul-mod_left b (2 ^ k),
  bit_or-zero 0,
)

byte-bit_or : (n a b : ℕ) → byte n (bit_or a b) ≡ bit_or (byte n a) (byte n b)
byte-bit_or n a b = rw (bit_or-div (n * 8) a b) (bit_or-mod 8 (a / 2 ^ (n * 8)) (b / 2 ^ (n * 8)))

type_lem : (type fifo : ℕ) → type < 4 → fifo < 4 → fifocf_type type fifo ≡ type * 2 ^ (fifo * 8)
type_lem type fifo t =
    below_four (λ f. fifocf_type type f ≡ type * 2 ^ (f * 8)) (omega arith) (omega arith)
      (omega arith) (omega arith) fifo

blocks_lem :
    (b : Blocks) (fifo : ℕ) → fifo < 4 → blocks_field b fifo ≡ 4 * blocks_code b * 2 ^ (fifo * 8)
blocks_lem single = below_four _ refl refl refl refl
blocks_lem double = below_four _ refl refl refl refl
blocks_lem triple = below_four _ refl refl refl refl

size_lem :
    (s : BlockSize) (fifo : ℕ) → fifo < 4 → size_field s fifo ≡ 16 * size_code s * 2 ^ (fifo * 8)
size_lem of_512 = below_four _ refl refl refl refl
size_lem of_1024 = below_four _ refl refl refl refl

enable_lem : (fifo : ℕ) → fifo < 4 → fifocf_fifo_en fifo ≡ 32 * 2 ^ (fifo * 8)
enable_lem = below_four _ refl refl refl refl

-- The four fields have no bit in common.
settings_lem :
    (b : Blocks) (s : BlockSize) (type : ℕ)
    → type < 4
    → bit_or (bit_or (bit_or type (4 * blocks_code b)) (16 * size_code s)) 32 ≡ settings type b s
settings_lem single of_512 = below_four _ refl refl refl refl
settings_lem single of_1024 = below_four _ refl refl refl refl
settings_lem double of_512 = below_four _ refl refl refl refl
settings_lem double of_1024 = below_four _ refl refl refl refl
settings_lem triple of_512 = below_four _ refl refl refl refl
settings_lem triple of_1024 = below_four _ refl refl refl refl

configuration_lem :
    (type : ℕ) (b : Blocks) (s : BlockSize) (fifo : ℕ)
    → type < 4
    → fifo < 4
    → configuration type b s fifo ≡ settings type b s * 2 ^ (fifo * 8)
configuration_lem type b s fifo t f =
    let k = fifo * 8 in
    rw
      (
        type_lem type fifo t f,
        blocks_lem b fifo f,
        size_lem s fifo f,
        enable_lem fifo f,
        bit_or_scaled k type (4 * blocks_code b),
        bit_or_scaled k (bit_or type (4 * blocks_code b)) (16 * size_code s),
        bit_or_scaled k (bit_or (bit_or type (4 * blocks_code b)) (16 * size_code s)) 32,
        settings_lem b s type t,
      )
      refl

settings_bound : (b : Blocks) (s : BlockSize) (type : ℕ) → type < 4 → settings type b s < 256
settings_bound single of_512 type h = omega arith
settings_bound single of_1024 type h = omega arith
settings_bound double of_512 type h = omega arith
settings_bound double of_1024 type h = omega arith
settings_bound triple of_512 type h = omega arith
settings_bound triple of_1024 type h = omega arith

byte_scaled :
    (c : ℕ)
    → c < 256
    → (fifo : ℕ) → fifo < 4
    → (n : ℕ) → n < 4
    → byte n (c * 2 ^ (fifo * 8)) ≡ (if n == fifo then c else 0)
byte_scaled c h =
    below_four (λ f. (n : ℕ) → n < 4 → byte n (c * 2 ^ (f * 8)) ≡ (if n == f then c else 0))
      (below_four _ (omega arith) (omega arith) (omega arith) (omega arith))
      (below_four _ (omega arith) (omega arith) (omega arith) (omega arith))
      (below_four _ (omega arith) (omega arith) (omega arith) (omega arith))
      (below_four _ (omega arith) (omega arith) (omega arith) (omega arith))

-- For FIFO numbers and types below four: where the byte of a FIFO is still zero, adding its
-- configuration to the register puts the type, number of blocks, block size and enable bit in that
-- byte, each in its own bits, and leaves the bytes of the other three FIFOs as they were.
pub configuration-byte :
    (register type : ℕ) (b : Blocks) (s : BlockSize) (fifo n : ℕ)
    → type < 4
    → fifo < 4
    → n < 4
    → byte fifo register ≡ 0
    → byte n (bit_or register (configuration type b s fifo))
      ≡ (if n == fifo then settings type b s else byte n register)
configuration-byte register type b s fifo n t f m free =
    rw
      (
        configuration_lem type b s fifo t f,
        byte-bit_or n register (settings type b s * 2 ^ (fifo * 8)),
        byte_scaled (settings type b s) (settings_bound b s type t) fifo f n m,
      )
      (elim (Bool-cases (n == fifo)) [
        | inl same ↦
            rw (same, ap (λ (t : ℕ). byte t register) (==→eq n fifo same), free)
              (zero-bit_or (settings type b s))
        | inr other ↦ rw other (bit_or-zero (byte n register))
      ])
