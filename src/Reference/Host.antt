-- ===== src/Reference/Host.antt =====
-- reference/FOTG210_Structures.hpp, lines 1 to 158:
-- the registers that a host uses: offsets, bits and the helpers on them.
use nspire_utils.Base.{ℕ, ◌*◌, ◌^◌, bit_and, bit_or, Bool, ◌==◌}
use nspire_utils.Word.{shl32, shr32}

abbrev cap_length : ℕ
cap_length = 0x00

abbrev hci_version : ℕ
hci_version = 0x02

abbrev hcsparams : ℕ
hcsparams = 0x04

abbrev hccparams : ℕ
hccparams = 0x08

abbrev port_route : ℕ
port_route = 0x0c

data HcsparamsBits : Type 0 where
  n_ports_mask : HcsparamsBits

abbrev hcsparams_value : HcsparamsBits → ℕ
hcsparams_value n_ports_mask = 0xf

data HccparamsBits : Type 0 where
  pgm_framelistlen can_park : HccparamsBits

abbrev hccparams_value : HccparamsBits → ℕ
hccparams_value pgm_framelistlen = 2 ^ 1
hccparams_value can_park = 2 ^ 2

abbrev command : ℕ
command = 0x00

abbrev status : ℕ
status = 0x04

abbrev interrupt_enable : ℕ
interrupt_enable = 0x08

abbrev frame_index : ℕ
frame_index = 0x0c

abbrev ctrl_ds_segment : ℕ
ctrl_ds_segment = 0x10

abbrev periodic_list_base : ℕ
periodic_list_base = 0x14

abbrev async_list_addr : ℕ
async_list_addr = 0x18

abbrev port_status_ctrl : ℕ
port_status_ctrl = 0x20

abbrev otgcsr : ℕ
otgcsr = 0x70

abbrev otgisr : ℕ
otgisr = 0x74

abbrev gmir : ℕ
gmir = 0xb4

data CommandBits : Type 0 where
  run reset periodic_schedule_enable async_schedule_enable interrupt_async_advance park :
      CommandBits

abbrev command_value : CommandBits → ℕ
command_value run = 2 ^ 0
command_value reset = 2 ^ 1
command_value periodic_schedule_enable = 2 ^ 4
command_value async_schedule_enable = 2 ^ 5
command_value interrupt_async_advance = 2 ^ 6
command_value park = 2 ^ 11

data StatusBits : Type 0 where
  usb_interrupt usb_error_interrupt port_change_detect frame_list_rollover host_system_error
        status_interrupt_async_advance hc_halted reclamation periodic_schedule_status
        async_schedule_status :
      StatusBits

abbrev status_value : StatusBits → ℕ
status_value usb_interrupt = 2 ^ 0
status_value usb_error_interrupt = 2 ^ 1
status_value port_change_detect = 2 ^ 2
status_value frame_list_rollover = 2 ^ 3
status_value host_system_error = 2 ^ 4
status_value status_interrupt_async_advance = 2 ^ 5
status_value hc_halted = 2 ^ 12
status_value reclamation = 2 ^ 13
status_value periodic_schedule_status = 2 ^ 14
status_value async_schedule_status = 2 ^ 15

data InterruptEnableBits : Type 0 where
  usb_interrupt_enable usb_error_interrupt_enable port_change_int_enable frame_list_rollover_enable
        host_system_error_enable async_advance_int_enable :
      InterruptEnableBits

abbrev interrupt_enable_value : InterruptEnableBits → ℕ
interrupt_enable_value usb_interrupt_enable = 2 ^ 0
interrupt_enable_value usb_error_interrupt_enable = 2 ^ 1
interrupt_enable_value port_change_int_enable = 2 ^ 2
interrupt_enable_value frame_list_rollover_enable = 2 ^ 3
interrupt_enable_value host_system_error_enable = 2 ^ 4
interrupt_enable_value async_advance_int_enable = 2 ^ 5

data PortStatusBits : Type 0 where
  current_connect_status connect_status_change port_enabled port_enable_change overcurrent_active
        overcurrent_change force_port_resume suspend port_reset line_status_mask port_power
        port_owner port_test_control_mask wake_on_connect wake_on_disconnect wake_on_overcurrent :
      PortStatusBits

abbrev port_status_value : PortStatusBits → ℕ
port_status_value current_connect_status = 2 ^ 0
port_status_value connect_status_change = 2 ^ 1
port_status_value port_enabled = 2 ^ 2
port_status_value port_enable_change = 2 ^ 3
port_status_value overcurrent_active = 2 ^ 4
port_status_value overcurrent_change = 2 ^ 5
port_status_value force_port_resume = 2 ^ 6
port_status_value suspend = 2 ^ 7
port_status_value port_reset = 2 ^ 8
port_status_value line_status_mask = 3 * 2 ^ 10
port_status_value port_power = 2 ^ 12
port_status_value port_owner = 2 ^ 13
port_status_value port_test_control_mask = 0xf * 2 ^ 16
port_status_value wake_on_connect = 2 ^ 20
port_status_value wake_on_disconnect = 2 ^ 21
port_status_value wake_on_overcurrent = 2 ^ 22

data OtgcsrBits : Type 0 where
  a_bus_req a_bus_drop host_spd_typ_mask : OtgcsrBits

abbrev otgcsr_value : OtgcsrBits → ℕ
otgcsr_value a_bus_req = 2 ^ 4
otgcsr_value a_bus_drop = 2 ^ 5
otgcsr_value host_spd_typ_mask = 3 * 2 ^ 22

data OtgisrBits : Type 0 where
  over_current : OtgisrBits

abbrev otgisr_value : OtgisrBits → ℕ
otgisr_value over_current = 2 ^ 10

data GmirBits : Type 0 where
  mdev_int motg_int mhc_int int_polarity : GmirBits

abbrev gmir_value : GmirBits → ℕ
gmir_value mdev_int = 2 ^ 0
gmir_value motg_int = 2 ^ 1
gmir_value mhc_int = 2 ^ 2
gmir_value int_polarity = 2 ^ 3

-- `CMD_PARK_CNT`, `PORT_USB11`, `PORT_RWC_BITS` and `OTGCSR_GET_SPD_TYP`.
abbrev cmd_park_cnt : ℕ → ℕ
cmd_park_cnt c = bit_and (shr32 c 8) 0x3

abbrev port_usb11 : ℕ → Bool
port_usb11 portsc = bit_and portsc (shl32 3 10) == shl32 1 10

abbrev port_rwc_bits : ℕ
port_rwc_bits =
    bit_or (port_status_value connect_status_change) (port_status_value port_enable_change)

abbrev otgcsr_get_spd_typ : ℕ → ℕ
otgcsr_get_spd_typ val = bit_and (shr32 val 22) 0x3
