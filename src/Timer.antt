-- ===== src/Timer.antt =====
-- include/nspire-utils/devices/SP804.hpp and PL031Deriv_RTC.hpp: the timers and the clock.
pub mod Sp804
pub mod Flags
pub mod Rtc
pub mod Independent
