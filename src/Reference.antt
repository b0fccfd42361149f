-- ===== src/Reference.antt =====
-- reference/FOTG210_Structures.hpp: the register header that the author kept beside the copied driver,
-- with the device side that the header of the library leaves out.
mod Host
mod Peripheral
mod Interrupts
pub mod Fifo
mod Schedule
