-- ===== src/Vic/Offset.antt =====
-- The register offsets of include/nspire-utils/devices/PL190.hpp.
use nspire_utils.Base.{◌^◌, ℕ}

abbrev pub irq_status : ℕ
irq_status = 0x00

abbrev pub fiq_status : ℕ
fiq_status = 0x04

abbrev pub raw_interrupt_status : ℕ
raw_interrupt_status = 0x08

abbrev pub interrupt_select : ℕ
interrupt_select = 0x0c

abbrev pub interrupt_enable : ℕ
interrupt_enable = 0x10

abbrev pub interrupt_enable_clear : ℕ
interrupt_enable_clear = 0x14

abbrev pub software_int : ℕ
software_int = 0x18

abbrev pub software_int_clear : ℕ
software_int_clear = 0x1c

abbrev pub protection : ℕ
protection = 0x20

abbrev pub vect_addr : ℕ
vect_addr = 0x30

abbrev pub default_vect_addr : ℕ
default_vect_addr = 0x34

abbrev pub vect_addr_table : ℕ
vect_addr_table = 0x100

abbrev pub vect_control_table : ℕ
vect_control_table = 0x200

abbrev pub vect_control_enabled_bit : ℕ
vect_control_enabled_bit = 2 ^ 5
