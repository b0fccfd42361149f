-- ===== src/Tests.antt =====
-- Small concrete machines and devices, and runs of the theorems on them.
mod Memory
mod Pages
mod Devices
mod Host
mod Registers
mod Hooks
mod Accessor
mod Programs
mod Headers
use nspire_utils.Base.{ℕ, ◌+◌, ◌-◌, ◌*◌, ◌/◌, [], ◌==◌, if◌then◌else◌}
use nspire_utils.Machine.{Machine}
use nspire_utils.Alloc.{Platform}

-- A heap that only grows: its state is the next free address.
abbrev arena : Platform ℕ
arena = record { malloc = λ n next. (next, next + n); free = λ ptr next. next }

-- A heap that has no block left.
abbrev empty_heap : Platform ℕ
empty_heap = record { malloc = λ n next. (0, next); free = λ ptr next. next }

-- A first-level table at 0x4000 that maps every megabyte to itself.
abbrev identity_map : ℕ → ℕ
identity_map a = (a - 0x4000) / 4 * 0x100000 + 0xc02

abbrev booted : Machine ℕ
booted = record { mem = identity_map; ttbr0 = 0x4018; sctlr = 0; ops = []; heap = 0x100000 }
