-- ===== src/Vic/Editor.antt =====
-- `PL190VIC_Editor` of src/devices/pl190/Editor.cpp: the controller's registers one operation at a
-- time, between a constructor that saves its state and a destructor that restores it.
use nspire_utils.Base.{ℕ, ◌+◌, ◌*◌, bit_and, bit_or, Bool, [], ◌∷◌, if◌then◌else◌}
use nspire_utils.Word.{not32, shl32, any_bit}
use nspire_utils.Device.{Bus, Io, peek, poke, pure, ◌>>=◌}
use nspire_utils.Vic.{Pl190InterruptType, irq, fiq}
use nspire_utils.Vic.Offset.{
  irq_status, fiq_status, raw_interrupt_status, interrupt_select, interrupt_enable,
  interrupt_enable_clear, software_int, software_int_clear, protection, default_vect_addr,
  vect_addr_table, vect_control_table,
}
use nspire_utils.Vic.State.{VicState, save_state, restore_state}

pub record VicEditor : Type 0 where
  pub base_address : ℕ
  pub old_state : VicState

-- `PL190VIC_State clearedState = {};`
abbrev pub cleared_state : VicState
cleared_state =
    let zeros = 0 ∷ 0 ∷ 0 ∷ 0 ∷ 0 ∷ 0 ∷ 0 ∷ 0 ∷ 0 ∷ 0 ∷ 0 ∷ 0 ∷ 0 ∷ 0 ∷ 0 ∷ 0 ∷ [] in
    record {
      int_select = 0;
      int_enable = 0;
      software_ints = 0;
      protect = 0;
      vect_addrs = zeros;
      vect_controls = zeros;
      default_addr = 0;
    }

-- The selection with one interrupt's bit set or cleared.
unfoldable pub select_bit : ℕ → ℕ → Pl190InterruptType → ℕ
select_bit current number fiq = bit_or current (shl32 1 number)
select_bit current number irq = bit_and current (not32 (shl32 1 number))

module _ {S : Type 0} (bus : Bus S) where
  unfoldable pub construct : ℕ → Io S VicEditor
  construct base = do
    state ← save_state bus base
    pure (record { base_address = base; old_state = state })

  unfoldable pub destroy : VicEditor → Io S (Unit {0})
  destroy e = restore_state bus e.base_address e.old_state

  unfoldable pub get_current_state : VicEditor → Io S VicState
  get_current_state e = save_state bus e.base_address

  unfoldable pub set_state : VicEditor → VicState → Io S (Unit {0})
  set_state e state = restore_state bus e.base_address state

  unfoldable pub clear : VicEditor → Io S (Unit {0})
  clear e = restore_state bus e.base_address cleared_state

  unfoldable get_irq_status : VicEditor → Io S ℕ
  get_irq_status e = peek bus (e.base_address + irq_status)

  abbrev get_irq_status_bit : VicEditor → ℕ → Io S Bool
  get_irq_status_bit e number = do status ← get_irq_status e; pure (any_bit status (shl32 1 number))

  unfoldable get_fiq_status : VicEditor → Io S ℕ
  get_fiq_status e = peek bus (e.base_address + fiq_status)

  abbrev get_fiq_status_bit : VicEditor → ℕ → Io S Bool
  get_fiq_status_bit e number = do status ← get_fiq_status e; pure (any_bit status (shl32 1 number))

  unfoldable pub get_raw_interrupt_status : VicEditor → Io S ℕ
  get_raw_interrupt_status e = peek bus (e.base_address + raw_interrupt_status)

  abbrev get_raw_interrupt_status_bit : VicEditor → ℕ → Io S Bool
  get_raw_interrupt_status_bit e number = do
    status ← get_raw_interrupt_status e
    pure (any_bit status (shl32 1 number))

  unfoldable pub set_interrupt_types : VicEditor → ℕ → Io S (Unit {0})
  set_interrupt_types e bitmask = poke bus (e.base_address + interrupt_select) bitmask

  get_interrupt_types : VicEditor → Io S ℕ
  get_interrupt_types e = peek bus (e.base_address + interrupt_select)

  unfoldable pub set_interrupt_type : VicEditor → ℕ → Pl190InterruptType → Io S (Unit {0})
  unfolding get_interrupt_types set_interrupt_types select_bit
  set_interrupt_type e number type = do
    current ← get_interrupt_types e
    set_interrupt_types e (select_bit current number type)

  unfoldable pub get_interrupt_type : VicEditor → ℕ → Io S Pl190InterruptType
  unfolding get_interrupt_types
  get_interrupt_type e number = do
    current ← get_interrupt_types e
    pure (if any_bit current (shl32 1 number) then fiq else irq)

  unfoldable pub enable_interrupts : VicEditor → ℕ → Io S (Unit {0})
  enable_interrupts e bitmask = poke bus (e.base_address + interrupt_enable) bitmask

  unfoldable pub disable_interrupts : VicEditor → ℕ → Io S (Unit {0})
  disable_interrupts e bitmask = poke bus (e.base_address + interrupt_enable_clear) bitmask

  get_enabled_interrupts : VicEditor → Io S ℕ
  get_enabled_interrupts e = peek bus (e.base_address + interrupt_enable)

  unfoldable pub enable_interrupt : VicEditor → ℕ → Io S (Unit {0})
  unfolding enable_interrupts
  enable_interrupt e number = enable_interrupts e (shl32 1 number)

  unfoldable pub disable_interrupt : VicEditor → ℕ → Io S (Unit {0})
  unfolding disable_interrupts
  disable_interrupt e number = disable_interrupts e (shl32 1 number)

  unfoldable pub is_interrupt_enabled : VicEditor → ℕ → Io S Bool
  unfolding get_enabled_interrupts
  is_interrupt_enabled e number = do
    enabled ← get_enabled_interrupts e
    pure (any_bit enabled (shl32 1 number))

  unfoldable pub set_software_interrupts : VicEditor → ℕ → Io S (Unit {0})
  set_software_interrupts e bitmask = poke bus (e.base_address + software_int) bitmask

  unfoldable pub clear_software_interrupts : VicEditor → ℕ → Io S (Unit {0})
  clear_software_interrupts e bitmask = poke bus (e.base_address + software_int_clear) bitmask

  get_software_interrupts : VicEditor → Io S ℕ
  get_software_interrupts e = peek bus (e.base_address + software_int)

  unfoldable pub set_software_interrupt : VicEditor → ℕ → Io S (Unit {0})
  unfolding set_software_interrupts
  set_software_interrupt e number = set_software_interrupts e (shl32 1 number)

  unfoldable pub clear_software_interrupt : VicEditor → ℕ → Io S (Unit {0})
  unfolding clear_software_interrupts
  clear_software_interrupt e number = clear_software_interrupts e (shl32 1 number)

  unfoldable pub get_software_interrupt : VicEditor → ℕ → Io S Bool
  unfolding get_software_interrupts
  get_software_interrupt e number = do
    current ← get_software_interrupts e
    pure (any_bit current (shl32 1 number))

  unfoldable pub set_protection : VicEditor → Bool → Io S (Unit {0})
  set_protection e protect = poke bus (e.base_address + protection) (if protect then 1 else 0)

  unfoldable pub is_protected : VicEditor → Io S Bool
  is_protected e = do current ← peek bus (e.base_address + protection); pure (any_bit current 1)

  unfoldable pub set_default_vector_address : VicEditor → ℕ → Io S (Unit {0})
  set_default_vector_address e address = poke bus (e.base_address + default_vect_addr) address

  unfoldable pub get_default_vector_address : VicEditor → Io S ℕ
  get_default_vector_address e = peek bus (e.base_address + default_vect_addr)

  unfoldable pub set_vector_address : VicEditor → ℕ → ℕ → Io S (Unit {0})
  set_vector_address e index address =
      poke bus (e.base_address + vect_addr_table + index * 4) address

  unfoldable pub get_vector_address : VicEditor → ℕ → Io S ℕ
  get_vector_address e index = peek bus (e.base_address + vect_addr_table + index * 4)

  unfoldable pub set_vector_control : VicEditor → ℕ → ℕ → Io S (Unit {0})
  set_vector_control e index control =
      poke bus (e.base_address + vect_control_table + index * 4) control

  unfoldable pub get_vector_control : VicEditor → ℕ → Io S ℕ
  get_vector_control e index = peek bus (e.base_address + vect_control_table + index * 4)
