-- ===== src/Reference/Fifo/PacketSize.antt =====
-- reference/FOTG210_Structures.hpp, line 373: the field of the maximum packet size.
use native.Mathlib.Nat.{div-add-mod}
use nspire_utils.Base.{ℕ, ◌+◌, ◌*◌, ◌/◌, ◌%◌, ◌≤◌, ◌<◌, bit_and, ◌≡◌, ◌↔◌, ◌⊎◌, arith}
use nspire_utils.Word.Shift.{bit_and-div, bit_and-mod}
use nspire_utils.Word.Mask.{bit_and_low, bit_and_field}
use nspire_utils.Reference.Fifo.{inoutepmpsr_mps}

-- The mask keeps bit 9 and the low eight bits.
inoutepmpsr_mps_lem : (mps : ℕ) → inoutepmpsr_mps mps ≡ mps / 512 % 2 * 512 + mps % 256
inoutepmpsr_mps_lem mps = omega (
  arith,
  div-add-mod (bit_and mps 0x2ff) 256,
  bit_and-div 8 mps 0x2ff,
  bit_and-mod 8 mps 0x2ff,
  bit_and_low 8 mps,
  bit_and_low 8 (mps % 256),
  bit_and_field 1 1 (mps / 256),
)

-- The helper gives back a maximum packet size of at most 1024 bytes exactly if it is below 256, or at
-- least 512 and below 768: the sizes 256 and 1024 become 0.
pub inoutepmpsr_mps-keeps :
    (mps : ℕ)
    → mps ≤ 1024
    → (inoutepmpsr_mps mps ≡ mps) ↔ ((mps < 256) ⊎ ((512 ≤ mps) × (mps < 768)))
inoutepmpsr_mps-keeps mps h = ground (arith, inoutepmpsr_mps_lem mps)
