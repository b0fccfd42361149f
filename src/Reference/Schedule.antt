-- ===== src/Reference/Schedule.antt =====
-- reference/FOTG210_Structures.hpp, lines 447 to 584:
-- the transfer structures in memory, their bits, and the constants of the driver.
use nspire_utils.Base.{ℕ, ◌*◌, ◌^◌, bit_and, List}
use nspire_utils.Word.{shr32}

data QtdTokenBits : Type 0 where
  ping split_state missed_micro_frame transaction_error babble data_buffer_error halted active ioc
        data_toggle :
      QtdTokenBits

abbrev qtd_token_value : QtdTokenBits → ℕ
qtd_token_value ping = 2 ^ 0
qtd_token_value split_state = 2 ^ 1
qtd_token_value missed_micro_frame = 2 ^ 2
qtd_token_value transaction_error = 2 ^ 3
qtd_token_value babble = 2 ^ 4
qtd_token_value data_buffer_error = 2 ^ 5
qtd_token_value halted = 2 ^ 6
qtd_token_value active = 2 ^ 7
qtd_token_value ioc = 2 ^ 15
qtd_token_value data_toggle = 2 ^ 31

data QtdPidCode : Type 0 where
  out inward setup : QtdPidCode

abbrev qtd_pid_code_value : QtdPidCode → ℕ
qtd_pid_code_value out = 0
qtd_pid_code_value inward = 1
qtd_pid_code_value setup = 2

data QhInfo1Bits : Type 0 where
  inactivate full_speed low_speed high_speed data_toggle_control head_of_reclamation_list
        control_endpoint :
      QhInfo1Bits

abbrev qh_info1_value : QhInfo1Bits → ℕ
qh_info1_value inactivate = 2 ^ 7
qh_info1_value full_speed = 0 * 2 ^ 12
qh_info1_value low_speed = 2 ^ 12
qh_info1_value high_speed = 2 * 2 ^ 12
qh_info1_value data_toggle_control = 2 ^ 14
qh_info1_value head_of_reclamation_list = 2 ^ 15
qh_info1_value control_endpoint = 2 ^ 27

abbrev qh_smask : ℕ
qh_smask = 0x000000ff

abbrev qh_cmask : ℕ
qh_cmask = 0x0000ff00

abbrev qh_hubaddr : ℕ
qh_hubaddr = 0x007f0000

abbrev qh_hubport : ℕ
qh_hubport = 0x3f800000

abbrev qh_mult : ℕ
qh_mult = 0xc0000000

data ItdTransactionBits : Type 0 where
  itd_transaction_ioc itd_transaction_active buffer_error itd_transaction_babble
        itd_transaction_transaction_error :
      ItdTransactionBits

abbrev itd_transaction_value : ItdTransactionBits → ℕ
itd_transaction_value itd_transaction_ioc = 2 ^ 15
itd_transaction_value itd_transaction_active = 2 ^ 31
itd_transaction_value buffer_error = 2 ^ 30
itd_transaction_value itd_transaction_babble = 2 ^ 29
itd_transaction_value itd_transaction_transaction_error = 2 ^ 28

data QueueType : Type 0 where
  itd qh sitd fstn : QueueType

abbrev queue_type_value : QueueType → ℕ
queue_type_value itd = 0 * 2 ^ 1
queue_type_value qh = 2 ^ 1
queue_type_value sitd = 2 * 2 ^ 1
queue_type_value fstn = 3 * 2 ^ 1

abbrev link_terminate : ℕ
link_terminate = 0x1

data SpeedType : Type 0 where
  speed_type_full_speed speed_type_low_speed speed_type_high_speed : SpeedType

abbrev speed_type_value : SpeedType → ℕ
speed_type_value speed_type_full_speed = 0
speed_type_value speed_type_low_speed = 1
speed_type_value speed_type_high_speed = 2

abbrev max_root_ports : ℕ
max_root_ports = 1

abbrev max_num_ep : ℕ
max_num_ep = 5

abbrev max_fifo_num : ℕ
max_fifo_num = 4

abbrev default_periodic_size : ℕ
default_periodic_size = 1024

data QhState : Type 0 where
  linked unlink idle unlink_wait completing : QhState

abbrev qh_state_value : QhState → ℕ
qh_state_value linked = 1
qh_state_value unlink = 2
qh_state_value idle = 3
qh_state_value unlink_wait = 4
qh_state_value completing = 5

-- `QTD_LENGTH`, `QTD_PID`, `QTD_CERR` and `ITD_LENGTH`.
abbrev qtd_length : ℕ → ℕ
qtd_length tok = bit_and (shr32 tok 16) 0x7fff

abbrev qtd_pid : ℕ → ℕ
qtd_pid tok = bit_and (shr32 tok 8) 0x3

abbrev qtd_cerr : ℕ → ℕ
qtd_cerr tok = bit_and (shr32 tok 10) 0x3

abbrev itd_length : ℕ → ℕ
itd_length tok = bit_and (shr32 tok 16) 0x0fff

-- The structures: arrays are lists of 5, 5, 8, 7 and 7 words, in the order of the members.
record Qtd : Type 0 where
  hw_next : ℕ
  hw_alt_next : ℕ
  hw_token : ℕ
  hw_buf : List ℕ
  hw_buf_hi : List ℕ

record QhHw : Type 0 where
  hw_next : ℕ
  hw_info1 : ℕ
  hw_info2 : ℕ
  hw_current : ℕ
  hw_qtd_next : ℕ
  hw_alt_next : ℕ
  hw_token : ℕ
  hw_buf : List ℕ
  hw_buf_hi : List ℕ

record Itd : Type 0 where
  hw_next : ℕ
  hw_transaction : List ℕ
  hw_bufp : List ℕ
  hw_bufp_hi : List ℕ

record Fstn : Type 0 where
  hw_next : ℕ
  hw_prev : ℕ
