-- ===== src/Usb/Bits.antt =====
-- The register offsets and bits of include/nspire-utils/devices/usb/FOTG210_Structures.hpp.
use nspire_utils.Base.{ℕ, ◌*◌, ◌^◌, bit_and}
use nspire_utils.Word.{shl32, shr32}

abbrev pub cap_length_offset : ℕ
cap_length_offset = 0x00

abbrev pub command_register : ℕ
command_register = 0x00

abbrev pub status_register : ℕ
status_register = 0x04

abbrev pub interrupt_enable : ℕ
interrupt_enable = 0x08

abbrev frame_index : ℕ
frame_index = 0x0c

abbrev pub periodic_list_base : ℕ
periodic_list_base = 0x14

abbrev pub async_list_addr : ℕ
async_list_addr = 0x18

abbrev port_status_control : ℕ
port_status_control = 0x20

abbrev pub otg_status_control : ℕ
otg_status_control = 0x70

abbrev otg_interrupt_status : ℕ
otg_interrupt_status = 0x74

abbrev pub global_interrupt_mask : ℕ
global_interrupt_mask = 0xb4

abbrev pub run_bit : ℕ
run_bit = 2 ^ 0

abbrev pub reset_bit : ℕ
reset_bit = 2 ^ 1

abbrev periodic_schedule_enable : ℕ
periodic_schedule_enable = 2 ^ 4

abbrev async_schedule_enable : ℕ
async_schedule_enable = 2 ^ 5

abbrev pub iaad_doorbell : ℕ
iaad_doorbell = 2 ^ 6

abbrev park : ℕ
park = 2 ^ 11

abbrev pub host_controller_halted : ℕ
host_controller_halted = 2 ^ 12

abbrev pub a_device_bus_request : ℕ
a_device_bus_request = 2 ^ 4

abbrev pub a_device_bus_drop : ℕ
a_device_bus_drop = 2 ^ 5

abbrev pub mask_device_interrupts : ℕ
mask_device_interrupts = 2 ^ 0

abbrev pub mask_otg_interrupts : ℕ
mask_otg_interrupts = 2 ^ 1

abbrev mask_host_controller_interrupts : ℕ
mask_host_controller_interrupts = 2 ^ 2

abbrev pub interrupt_polarity : ℕ
interrupt_polarity = 2 ^ 3

abbrev pub qtd_alignment : ℕ
qtd_alignment = 32

abbrev pub token_halted : ℕ
token_halted = 2 ^ 6

abbrev pub head_of_reclamation_list : ℕ
head_of_reclamation_list = 2 ^ 15

abbrev pub queue_head_tag : ℕ
queue_head_tag = 1 * 2 ^ 1

abbrev pub frame_list_alignment : ℕ
frame_list_alignment = 4096

abbrev pub frame_list_entries : ℕ
frame_list_entries = 1024

-- `FOTG210_CommandRegister_ParkCntBits` and `FOTG210_CommandRegister_GetParkCnt`, and the same pair
-- for the host speed type.
abbrev park_cnt_bits : ℕ → ℕ
park_cnt_bits cnt = shl32 (bit_and cnt 3) 8

abbrev get_park_cnt : ℕ → ℕ
get_park_cnt command = bit_and (shr32 command 8) 3

abbrev host_speed_type : ℕ → ℕ
host_speed_type type = shl32 (bit_and type 3) 22

abbrev get_host_speed_type : ℕ → ℕ
get_host_speed_type otg_status = bit_and (shr32 otg_status 22) 3

-- `QTD_Length`, `QTD_PID`, `QTD_Cerr` and `ITD_Length`.
abbrev qtd_length : ℕ → ℕ
qtd_length token = bit_and (shr32 token 16) 0x7fff

abbrev qtd_pid : ℕ → ℕ
qtd_pid token = bit_and (shr32 token 8) 3

abbrev qtd_cerr : ℕ → ℕ
qtd_cerr token = bit_and (shr32 token 10) 3

abbrev itd_length : ℕ → ℕ
itd_length token = bit_and (shr32 token 16) 0x0fff
