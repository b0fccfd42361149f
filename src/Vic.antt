-- ===== src/Vic.antt =====
-- src/devices/pl190/State.cpp, src/devices/pl190/Editor.cpp and
-- include/nspire-utils/devices/PL190.hpp: the vectored interrupt controller.
pub mod Offset
pub mod State
pub mod Editor
pub mod Registers
pub mod Saved
pub mod Restore
pub mod Interrupts
pub mod Calls
pub mod Refinement
pub mod Vectors
use nspire_utils.Base.{ℕ, bit_or, List, [], ◌∷◌}
use nspire_utils.Word.{shl32}

abbrev pub pl190_base_address : ℕ
pl190_base_address = 0xdc000000

pub data TiNspireInterruptSource : Type 0 where
  serial_uart watchdog_timer rtc gpio usb adc pmu keypad fast_timer first_timer :
      TiNspireInterruptSource
  second_timer i2c lcd_controller : TiNspireInterruptSource

abbrev pub source_number : TiNspireInterruptSource → ℕ
source_number serial_uart = 1
source_number watchdog_timer = 3
source_number rtc = 4
source_number gpio = 7
source_number usb = 8
source_number adc = 11
source_number pmu = 15
source_number keypad = 16
source_number fast_timer = 17
source_number first_timer = 18
source_number second_timer = 19
source_number i2c = 20
source_number lcd_controller = 21

-- `((1 << sources) | ...)`
abbrev source_bitmask : List TiNspireInterruptSource → ℕ
source_bitmask [] = 0
source_bitmask (x ∷ xs) = bit_or (shl32 1 (source_number x)) (source_bitmask xs)

pub data Pl190InterruptType : Type 0 where
  irq fiq : Pl190InterruptType
