-- ===== src/Evt.antt =====
-- src/platform/evt.cpp and include/nspire-utils/platform/EVT.hpp: where the exception vectors stand,
-- and reading and writing one of them.
pub mod Vectors
use nspire_utils.Base.{ℕ, ◌+◌, bit_and, bit_or, if◌then◌else◌}
use nspire_utils.Word.{not32, shl32, any_bit}
use nspire_utils.Machine.{M, done, pure, load, store, ◌>>=◌}

pub data EvtVector : Type 0 where
  reset undefined_instruction software_interrupt prefetch_abort data_abort irq fiq : EvtVector

abbrev pub vector_offset : EvtVector → ℕ
vector_offset reset = 0x00
vector_offset undefined_instruction = 0x04
vector_offset software_interrupt = 0x08
vector_offset prefetch_abort = 0x0c
vector_offset data_abort = 0x10
vector_offset irq = 0x18
vector_offset fiq = 0x1c

pub data EvtPosition : Type 0 where
  low high : EvtPosition

abbrev pub position_base : EvtPosition → ℕ
position_base low = 0x00000000
position_base high = 0xffff0000

-- The new value of the system control register.
pub with_position : EvtPosition → ℕ → ℕ
with_position high sctlr = bit_or sctlr (shl32 1 13)
with_position low sctlr = bit_and sctlr (not32 (shl32 1 13))

abbrev pub vector_address : EvtVector → EvtPosition → ℕ
vector_address vector position = position_base position + vector_offset vector

module _ {H : Type 0} where
  abbrev read_system_control_register : M H ℕ
  read_system_control_register m = done m.sctlr m

  abbrev write_system_control_register : ℕ → M H (Unit {0})
  write_system_control_register v m = done tt (record m { sctlr = v })

  unfoldable pub set_evt_position : EvtPosition → M H (Unit {0})
  set_evt_position position = do
    sctlr ← read_system_control_register
    write_system_control_register (with_position position sctlr)

  pub get_evt_position : M H EvtPosition
  get_evt_position = do
    sctlr ← read_system_control_register
    pure (if any_bit sctlr (shl32 1 13) then high else low)

  pub set_evt_value : EvtVector → EvtPosition → ℕ → M H (Unit {0})
  set_evt_value vector position instruction = store (vector_address vector position) instruction

  pub get_evt_value : EvtVector → EvtPosition → M H ℕ
  get_evt_value vector position = load (vector_address vector position)
