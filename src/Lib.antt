-- ===== src/Lib.antt =====
-- nspire-utils: a verification library beside the code.
--
-- nspire-utils is a C++ library of bare-metal helpers for the TI-Nspire CX II, a 32-bit ARM926: caches,
-- page tables, an aligned allocator and the interrupt and USB controllers. The page-table editors
-- take their tables from the allocator, clean them out of the data cache and give them to the MMU
-- through TTBR0; the drivers read and write device registers. What the library does is a change of
-- the processor's and the devices' state, so each part is modelled as functions on such a state, in
-- the order in which the code makes its calls.
--
-- Base, Word: the natural numbers and Boolean tests in use, and machine words. A word is a number below
--   2^32, and u32, add32, sub32, shl32 and not32 write the wrap-around out. Word/Digits, Shift, Mask
--   and Bit relate the bit operations to quotients and remainders by powers of two.
-- Machine: the state of the processor, a store with one word at each aligned address, TTBR0, the CP15
--   operations issued so far and the heap's own state; and the effects, which return, throw or hang.
--   Machine/Store has the reads after writes.
-- Caches (src/platform/Caches.cpp): the CP15 operations and the two loops over cache lines. The loops
--   run on fuel of two rounds more than there are lines below the end of the range, which is enough
--   whenever they end at all (Caches/Range); out of fuel is a call that never returns.
-- Alloc (src/mem/Alloc.cpp, include/nspire-utils/mem/Alloc.hpp): aligned_alloc, aligned_free and the
--   allocator class. The platform's malloc and free are the record Platform, a parameter; Grants in
--   Alloc/Block says what the code relies on at one call of malloc.
-- Mmu (src/platform/MMUEditor.cpp, include/nspire-utils/platform/MMUEditor.hpp): Mmu/Descriptor has
--   the helpers of the header, Mmu/Editor the class MMUEditor, Mmu/Coarse the class
--   MMUL2CoarsePageTableEditor. Mmu/Editor/Refinement and Mmu/Coarse/Refinement have the abstract side
--   of both, a function from addresses to what they mean, which the mapping calls update. Mmu/Walk is
--   the specification: how the MMU finds the physical address, permission, cache policy and domain of
--   a virtual address, from the architecture's manual. Tiny pages and fine tables have no place in the
--   code and fault in the walk. Virtual addresses are identity mapped, as the code assumes of its
--   tables.
-- Evt (src/platform/evt.cpp, include/nspire-utils/platform/EVT.hpp): the exception vectors.
-- Cpu (include/nspire-utils/platform/CPU.hpp): the status register and the banks, by the moves that the
--   inline assembly makes; in user mode `msr cpsr_c` changes nothing.
-- Device: register accesses to a device, whose state and reactions are a parameter.
-- Vic (src/devices/pl190/State.cpp, src/devices/pl190/Editor.cpp, include/nspire-utils/devices/PL190.hpp):
--   SavePL190State, RestorePL190State and PL190VIC_Editor. Vic/Registers says what a PL190 is, from its
--   manual, as a hypothesis on the device. Vic/Calls has the abstract controller that
--   the editor's calls update.
-- Usb (src/devices/usb/, include/nspire-utils/devices/usb/): the registers of FOTG210 and
--   FOTG210_MemoryStructures. Usb/Reset has the two waits, with the code's countdowns of 10,000,000
--   and 100,000,000 polls as they stand. Usb/Enums and Usb/Layout have the rest of the register header.
-- Watchdog, Timer, Sha256 (Watchdog.hpp, SP804.hpp, PL031Deriv_RTC.hpp and SHA256.hpp of
--   include/nspire-utils/devices): the accessors of the watchdog, the timers, the clock and the hash
--   device. The wait of the hash device has no bound in the code; its fuel is an argument, and the
--   theorem says how much is enough for a device that becomes idle.
-- Tests: concrete machines and devices.
--
-- Arm: the few instructions of src/hook/HookTemplates.S, their encodings and one step of the processor,
--   from the architecture's manual. It describes the hardware, not code of the repository. A jump
--   to Thumb code, a program counter in a register list and a push below address 0 have no step.
-- Hook (src/hook/Hooks.cpp, src/hook/HookTemplates.S, include/nspire-utils/hook/Hooks.hpp):
--   Hook/Template has the templates as instructions, Hook the functions that put them together,
--   Hook/Install the memory that they leave, and Hook/Chain two hooks on one function. The hook
--   function, the hooked function behind its first two instructions and its caller are any code: the
--   theorems take the state in which each of them comes back.
-- Sram (src/mem/SRAMAccessor.cpp, include/nspire-utils/mem/SRAM.hpp): the accessor on top of the page-table
--   editor. Its two copies go through the table walk word by word, and an address without a mapping
--   does not come back; the editor's tables and the heap's headers are where their addresses say.
--
-- Interrupted (tests/interrupted/): the program that moves the vectors and takes timer interrupts, as one
--   program over all parts. Interrupted/State has its state; SetUp, AddressSpace, OnlyTimer, Vectors,
--   CleanUp and Main follow main.cpp, and Service has handleIRQ.S. The service of the interrupts during WaitForInterrupt is a
--   parameter: ServesInterrupts says that it comes back in the mode it was called in and writes to its own
--   stack only. An
--   exception that leaves main ends the program without destructors. The console is left out.
-- Reference (reference/FOTG210_Structures.hpp): the register header beside the copied driver, with the
--   registers of the device side.
--
-- Not modelled: the empty headers LCD.hpp and TripleDES.hpp; the drivers under reference, a copy of
-- another project's, which the library neither builds nor calls. The caches' contents are not
-- modelled, only the operations on them, so that code which forgets to clean a line is a finding
-- and not a theorem.
pub mod Base
pub mod Word
pub mod Machine
pub mod Caches
pub mod Alloc
pub mod Mmu
pub mod Evt
pub mod Arm
pub mod Hook
pub mod Sram
pub mod Cpu
pub mod Device
pub mod Vic
pub mod Usb
mod Reference
pub mod Watchdog
pub mod Timer
pub mod Sha256
pub mod Interrupted
mod Tests
