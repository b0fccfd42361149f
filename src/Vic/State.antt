-- ===== src/Vic/State.antt =====
-- `SavePL190State` and `RestorePL190State` of src/devices/pl190/State.cpp.
use nspire_utils.Base.{ℕ, zero, suc, ◌+◌, ◌*◌, List, [], ◌∷◌}
use nspire_utils.Device.{Bus, Io, peek, poke, pure, ◌>>=◌, ◌>>◌}
use nspire_utils.Vic.Offset.{
  interrupt_select, interrupt_enable, interrupt_enable_clear, software_int, software_int_clear,
  protection, vect_addr, default_vect_addr, vect_addr_table, vect_control_table,
}

-- `PL190VIC_State`; the arrays `vectAddr[16]` and `vectControl[16]` are lists.
pub record VicState : Type 0 where
  pub int_select : ℕ
  pub int_enable : ℕ
  pub software_ints : ℕ
  pub protect : ℕ
  pub vect_addrs : List ℕ
  pub vect_controls : List ℕ
  pub default_addr : ℕ

-- `array[i]`; the code's indices are below 16.
abbrev pub at : List ℕ → ℕ → ℕ
at [] i = 0
at (x ∷ xs) zero = x
at (x ∷ xs) (suc i) = at xs i

module _ {S : Type 0} (bus : Bus S) (base : ℕ) where
  -- The loop of `SavePL190State` from index `i` on, `n` rounds: both tables entry by entry.
  unfoldable pub save_tables : ℕ → ℕ → Io S (List ℕ × List ℕ)
  save_tables zero i = pure ([], [])
  save_tables (suc n) i = do
    addr ← peek bus (base + vect_addr_table + i * 4)
    control ← peek bus (base + vect_control_table + i * 4)
    rest ← save_tables n (i + 1)
    pure (addr ∷ rest.0, control ∷ rest.1)

  unfoldable pub save_state : Io S VicState
  save_state = do
    select ← peek bus (base + interrupt_select)
    enable ← peek bus (base + interrupt_enable)
    software ← peek bus (base + software_int)
    prot ← peek bus (base + protection)
    default ← peek bus (base + default_vect_addr)
    tables ← save_tables 16 0
    pure (record {
      int_select = select;
      int_enable = enable;
      software_ints = software;
      protect = prot;
      vect_addrs = tables.0;
      vect_controls = tables.1;
      default_addr = default;
    })

  -- The loop of `RestorePL190State`.
  unfoldable pub restore_tables : ℕ → ℕ → VicState → Io S (Unit {0})
  restore_tables zero i state = pure tt
  restore_tables (suc n) i state = do
    poke bus (base + vect_addr_table + i * 4) (at state.vect_addrs i)
    poke bus (base + vect_control_table + i * 4) (at state.vect_controls i)
    restore_tables n (i + 1) state

  unfoldable pub restore_state : VicState → Io S (Unit {0})
  restore_state state = do
    poke bus (base + interrupt_enable_clear) 0xffffffff
    poke bus (base + software_int_clear) 0xffffffff
    poke bus (base + vect_addr) 0
    poke bus (base + interrupt_select) state.int_select
    poke bus (base + protection) state.protect
    poke bus (base + default_vect_addr) state.default_addr
    restore_tables 16 0 state
    poke bus (base + software_int) state.software_ints
    poke bus (base + interrupt_enable) state.int_enable
