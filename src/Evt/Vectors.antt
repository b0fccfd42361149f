-- ===== src/Evt/Vectors.antt =====
-- Reading back the position of the vectors and the vectors themselves.
use nspire_utils.Base.{
  ℕ, ◌%◌, ◌^◌, ◌<◌, Bool, true, false, ◌==◌, if◌then◌else◌, ◌≡◌, ◌≢◌, refl, sym, ap, ◌∙◌, arith,
  inl, inr, ◌⊎◌,
}
use nspire_utils.Word.{any_bit, shl32}
use nspire_utils.Word.Bit.{test-set, test-clear}
use nspire_utils.Machine.{Machine, done, write, ◌>>◌}
use nspire_utils.Machine.Store.{write_self, write_ne}
use nspire_utils.Evt.{
  EvtVector, EvtPosition, low, high, reset, undefined_instruction, software_interrupt,
  prefetch_abort, data_abort, irq, fiq, vector_offset, vector_address, with_position,
  set_evt_position, get_evt_position, set_evt_value, get_evt_value,
}

-- What each position does to bit `j` of the system control register.
abbrev position_bit : EvtPosition → Bool
position_bit high = true
position_bit low = false

with_position-bit :
    (position : EvtPosition) (sctlr j : ℕ)
    → j < 32
    → any_bit (with_position position sctlr) (shl32 1 j)
      ≡ (if j == 13 then position_bit position else any_bit sctlr (shl32 1 j))
unfolding with_position
with_position-bit high sctlr j h = test-set j 13 sctlr h (omega arith)
with_position-bit low sctlr j h = test-clear j 13 sctlr h (omega arith)

-- `GetEVTPosition` answers what `SetEVTPosition` was last given, and every other bit `j` of the system
-- control register is as it was.
pub get_evt_position-set_evt_position :
    {H : Type 0} (position : EvtPosition) (m : Machine H) (j : ℕ)
    → j < 32
    → j ≢ 13
    → let m' = record m { sctlr = with_position position m.sctlr } in
      ((set_evt_position position >> get_evt_position) m ≡ done position m')
      × (any_bit m'.sctlr (shl32 1 j) ≡ any_bit m.sctlr (shl32 1 j))
unfolding set_evt_position get_evt_position
get_evt_position-set_evt_position position m j h other = (
  rw (with_position-bit position m.sctlr 13 (omega arith)) (answer position),
  with_position-bit position m.sctlr j h ∙ ground arith,
)
  where
    answer :
        (p : EvtPosition)
        → done
            (if position_bit p then high else low)
            (record m { sctlr = with_position position m.sctlr })
          ≡ done p (record m { sctlr = with_position position m.sctlr })
    answer high = refl
    answer low = refl

-- The vector and the position at an address.
vector_at : ℕ → EvtVector
vector_at o =
    if o == 0x00
    then reset
    else if o == 0x04
    then undefined_instruction
    else if o == 0x08
    then software_interrupt
    else if o == 0x0c
    then prefetch_abort
    else if o == 0x10
    then data_abort
    else if o == 0x18
    then irq
    else fiq

vector_at-address : (v : EvtVector) (p : EvtPosition) → vector_at (vector_address v p % 2 ^ 16) ≡ v
unfolding vector_at
vector_at-address reset low = refl
vector_at-address reset high = refl
vector_at-address undefined_instruction low = refl
vector_at-address undefined_instruction high = refl
vector_at-address software_interrupt low = refl
vector_at-address software_interrupt high = refl
vector_at-address prefetch_abort low = refl
vector_at-address prefetch_abort high = refl
vector_at-address data_abort low = refl
vector_at-address data_abort high = refl
vector_at-address irq low = refl
vector_at-address irq high = refl
vector_at-address fiq low = refl
vector_at-address fiq high = refl

offset_small : (v : EvtVector) → vector_offset v < 2 ^ 5
offset_small reset = omega arith
offset_small undefined_instruction = omega arith
offset_small software_interrupt = omega arith
offset_small prefetch_abort = omega arith
offset_small data_abort = omega arith
offset_small irq = omega arith
offset_small fiq = omega arith

base_apart : (v w : EvtVector) (p q : EvtPosition) → vector_address v p ≡ vector_address w q → p ≡ q
base_apart v w low low e = refl
base_apart v w high high e = refl
base_apart v w low high e = absurd (omega (arith, offset_small v, offset_small w))
base_apart v w high low e = absurd (omega (arith, offset_small v, offset_small w))

-- `GetEVTValue` of a vector reads the instruction that `SetEVTValue` wrote to it, and of another
-- vector, or of the table at the other position, what stood there.
get_evt_value-set_evt_value :
    {H : Type 0} (v w : EvtVector) (p q : EvtPosition) (instruction : ℕ) (m : Machine H)
    → (v ≢ w) ⊎ (p ≢ q)
    → let m' = record m { mem = write m.mem (vector_address v p) instruction } in
      ((set_evt_value v p instruction >> get_evt_value v p) m ≡ done instruction m')
      × ((set_evt_value v p instruction >> get_evt_value w q) m
          ≡ done (m.mem (vector_address w q)) m')
unfolding set_evt_value get_evt_value
get_evt_value-set_evt_value v w p q instruction m other = (
  rw (write_self m.mem (vector_address v p) instruction),
  rw (write_ne m.mem (vector_address v p) instruction (vector_address w q) (apart other)),
)
  where
    apart : (v ≢ w) ⊎ (p ≢ q) → vector_address w q ≢ vector_address v p
    apart (inl c) e = c (
        sym (vector_at-address v p)
        ∙ ap (λ a. vector_at (a % 2 ^ 16)) (sym e)
        ∙ vector_at-address w q)
    apart (inr c) e = c (base_apart v w p q (sym e))
