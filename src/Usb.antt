-- ===== src/Usb.antt =====
-- src/devices/usb and include/nspire-utils/devices/usb: the FOTG210 host controller's registers,
-- its reset, and the schedule structures in memory.
pub mod Bits
pub mod Reset
pub mod Structures
mod Enums
mod Layout
pub mod Schedule
use nspire_utils.Base.{ℕ, ◌+◌, bit_and, bit_or}
use nspire_utils.Word.{not32}
use nspire_utils.Device.{Bus, Io, peek, poke, pure, ◌>>=◌, ◌>>◌}
use nspire_utils.Usb.Bits.{
  cap_length_offset, command_register, status_register, interrupt_enable, periodic_list_base,
  async_list_addr, otg_status_control, global_interrupt_mask, run_bit, mask_device_interrupts,
  mask_otg_interrupts, interrupt_polarity, a_device_bus_drop, a_device_bus_request,
}

-- `FOTG210`: where the controller stands and how long its capability registers are.
pub record Fotg210 : Type 0 where
  pub base_address : ℕ
  pub cap_length : ℕ

-- `baseAddress + capLength + offset`
abbrev pub op_address : Fotg210 → ℕ → ℕ
op_address c offset = c.base_address + c.cap_length + offset

module _ {S : Type 0} (bus : Bus S) where
  -- The constructor, with the byte read `*reinterpret_cast<volatile uint8_t*>` as a parameter.
  unfoldable pub construct : (ℕ → S → ℕ × S) → ℕ → Io S Fotg210
  construct read_byte base = do
    length ← read_byte (base + cap_length_offset)
    pure (record { base_address = base; cap_length = length })

  unfoldable pub get_command_register : Fotg210 → Io S ℕ
  get_command_register c = peek bus (op_address c command_register)

  unfoldable pub set_command_register : Fotg210 → ℕ → Io S (Unit {0})
  set_command_register c v = poke bus (op_address c command_register) v

  unfoldable pub get_status_register : Fotg210 → Io S ℕ
  get_status_register c = peek bus (op_address c status_register)

  unfoldable set_status_register : Fotg210 → ℕ → Io S (Unit {0})
  set_status_register c v = poke bus (op_address c status_register) v

  unfoldable configure_host_mode : Fotg210 → Io S (Unit {0})
  configure_host_mode c = do
    poke bus (op_address c global_interrupt_mask)
        (bit_or (bit_or mask_device_interrupts mask_otg_interrupts) interrupt_polarity)
    otg_status ← peek bus (op_address c otg_status_control)
    poke bus (op_address c otg_status_control)
        (bit_or (bit_and otg_status (not32 a_device_bus_drop)) a_device_bus_request)

  -- With the addresses of the two structures.
  unfoldable link_memory_structures : Fotg210 → ℕ → ℕ → Io S (Unit {0})
  link_memory_structures c frame_list queue_head = do
    poke bus (op_address c periodic_list_base) frame_list
    poke bus (op_address c async_list_addr) queue_head

  unfoldable controller_start : Fotg210 → Io S (Unit {0})
  unfolding set_command_register get_command_register
  controller_start c = do set_command_register c run_bit; posted ← get_command_register c; pure tt

  unfoldable pub enable_interrupts : Fotg210 → ℕ → Io S (Unit {0})
  enable_interrupts c bits = poke bus (op_address c interrupt_enable) bits
