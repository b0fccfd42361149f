-- ===== src/Usb/Enums.antt =====
-- The enumerations of include/nspire-utils/devices/usb/FOTG210_Structures.hpp, each with the values of its
-- enumerators.
use nspire_utils.Base.{ℕ, ◌+◌, ◌*◌, ◌^◌, bit_or, ◌≡◌, refl}

data StatusRegisterBits : Type 0 where
  usb_interrupt usb_error_interrupt port_change_detect frame_list_rollover host_system_error
        interrupt_on_async_advance controller_halted reclamation periodic_schedule_status
        async_schedule_status :
      StatusRegisterBits

abbrev status_bit : StatusRegisterBits → ℕ
status_bit usb_interrupt = 2 ^ 0
status_bit usb_error_interrupt = 2 ^ 1
status_bit port_change_detect = 2 ^ 2
status_bit frame_list_rollover = 2 ^ 3
status_bit host_system_error = 2 ^ 4
status_bit interrupt_on_async_advance = 2 ^ 5
status_bit controller_halted = 2 ^ 12
status_bit reclamation = 2 ^ 13
status_bit periodic_schedule_status = 2 ^ 14
status_bit async_schedule_status = 2 ^ 15

data InterruptEnableBits : Type 0 where
  usb_interrupt_enable usb_error_interrupt_enable port_change_detect_enable
        frame_list_rollover_enable host_system_error_enable interrupt_on_async_advance_enable :
      InterruptEnableBits

abbrev interrupt_enable_bit : InterruptEnableBits → ℕ
interrupt_enable_bit usb_interrupt_enable = 2 ^ 0
interrupt_enable_bit usb_error_interrupt_enable = 2 ^ 1
interrupt_enable_bit port_change_detect_enable = 2 ^ 2
interrupt_enable_bit frame_list_rollover_enable = 2 ^ 3
interrupt_enable_bit host_system_error_enable = 2 ^ 4
interrupt_enable_bit interrupt_on_async_advance_enable = 2 ^ 5

data PortStatusControlBits : Type 0 where
  current_connect_status connect_status_change port_enabled port_enabled_change over_current_active
        over_current_change force_port_resume suspended port_reset line_status_mask port_power
        port_owner port_test_control_mask wake_on_connect_enable wake_on_disconnect_enable
        wake_on_over_current_enable :
      PortStatusControlBits

abbrev port_bit : PortStatusControlBits → ℕ
port_bit current_connect_status = 2 ^ 0
port_bit connect_status_change = 2 ^ 1
port_bit port_enabled = 2 ^ 2
port_bit port_enabled_change = 2 ^ 3
port_bit over_current_active = 2 ^ 4
port_bit over_current_change = 2 ^ 5
port_bit force_port_resume = 2 ^ 6
port_bit suspended = 2 ^ 7
port_bit port_reset = 2 ^ 8
port_bit line_status_mask = 3 * 2 ^ 10
port_bit port_power = 2 ^ 12
port_bit port_owner = 2 ^ 13
port_bit port_test_control_mask = 0xf * 2 ^ 16
port_bit wake_on_connect_enable = 2 ^ 20
port_bit wake_on_disconnect_enable = 2 ^ 21
port_bit wake_on_over_current_enable = 2 ^ 22

data QtdTokenBits : Type 0 where
  ping split_state missed_micro_frame qtd_transaction_error babble data_buffer_error halted
        qtd_active ioc data_toggle :
      QtdTokenBits

abbrev token_bit : QtdTokenBits → ℕ
token_bit ping = 2 ^ 0
token_bit split_state = 2 ^ 1
token_bit missed_micro_frame = 2 ^ 2
token_bit qtd_transaction_error = 2 ^ 3
token_bit babble = 2 ^ 4
token_bit data_buffer_error = 2 ^ 5
token_bit halted = 2 ^ 6
token_bit qtd_active = 2 ^ 7
token_bit ioc = 2 ^ 15
token_bit data_toggle = 2 ^ 31

-- `OUT`, `IN` and `SETUP`.
data QtdPidCode : Type 0 where
  out inward setup : QtdPidCode

abbrev pid_code : QtdPidCode → ℕ
pid_code out = 0
pid_code inward = 1
pid_code setup = 2

data EndpointCharacteristicsBits : Type 0 where
  inactive full_speed low_speed high_speed data_toggle_control reclamation_head
        control_endpoint_flag :
      EndpointCharacteristicsBits

abbrev characteristics_bit : EndpointCharacteristicsBits → ℕ
characteristics_bit inactive = 2 ^ 7
characteristics_bit full_speed = 0 * 2 ^ 12
characteristics_bit low_speed = 2 ^ 12
characteristics_bit high_speed = 2 * 2 ^ 12
characteristics_bit data_toggle_control = 2 ^ 14
characteristics_bit reclamation_head = 2 ^ 15
characteristics_bit control_endpoint_flag = 2 ^ 27

data EndpointCapabilitiesMasks : Type 0 where
  interrupt_schedule_mask split_completion_mask hub_address_mask hub_port_mask
        high_bandwidth_multiplier_mask :
      EndpointCapabilitiesMasks

abbrev capabilities_mask : EndpointCapabilitiesMasks → ℕ
capabilities_mask interrupt_schedule_mask = 0x000000ff
capabilities_mask split_completion_mask = 0x0000ff00
capabilities_mask hub_address_mask = 0x007f0000
capabilities_mask hub_port_mask = 0x3f800000
capabilities_mask high_bandwidth_multiplier_mask = 0xc0000000

data ItdTransactionBits : Type 0 where
  interrupt_on_complete itd_active buffer_error babble_detected itd_transaction_error :
      ItdTransactionBits

abbrev itd_bit : ItdTransactionBits → ℕ
itd_bit interrupt_on_complete = 2 ^ 15
itd_bit itd_active = 2 ^ 31
itd_bit buffer_error = 2 ^ 30
itd_bit babble_detected = 2 ^ 29
itd_bit itd_transaction_error = 2 ^ 28

data LinkPointerTypeTags : Type 0 where
  isochronous_tag queue_head_type_tag split_isochronous_tag frame_span_tag : LinkPointerTypeTags

abbrev link_tag : LinkPointerTypeTags → ℕ
link_tag isochronous_tag = 0 * 2 ^ 1
link_tag queue_head_type_tag = 1 * 2 ^ 1
link_tag split_isochronous_tag = 2 * 2 ^ 1
link_tag frame_span_tag = 3 * 2 ^ 1

-- The remaining offsets, masks and alignments.
abbrev hci_version_offset : ℕ
hci_version_offset = 0x02

abbrev hcsparams_offset : ℕ
hcsparams_offset = 0x04

abbrev hccparams_offset : ℕ
hccparams_offset = 0x08

abbrev port_route_offset : ℕ
port_route_offset = 0x0c

abbrev host_speed_type_mask : ℕ
host_speed_type_mask = 3 * 2 ^ 22

abbrev over_current : ℕ
over_current = 2 ^ 10

abbrev queue_head_alignment : ℕ
queue_head_alignment = 32

abbrev itd_alignment : ℕ
itd_alignment = 32

abbrev fstn_alignment : ℕ
fstn_alignment = 32

-- The masks of the endpoint's capabilities have no bit in common.
capabilities_mask-cover :
    bit_or
      (bit_or
        (bit_or
          (bit_or
            (capabilities_mask interrupt_schedule_mask)
            (capabilities_mask split_completion_mask))
          (capabilities_mask hub_address_mask))
        (capabilities_mask hub_port_mask))
      (capabilities_mask high_bandwidth_multiplier_mask)
    ≡ capabilities_mask interrupt_schedule_mask
      + capabilities_mask split_completion_mask
      + capabilities_mask hub_address_mask
      + capabilities_mask hub_port_mask
      + capabilities_mask high_bandwidth_multiplier_mask
capabilities_mask-cover = refl
