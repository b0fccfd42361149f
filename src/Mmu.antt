-- ===== src/Mmu.antt =====
-- src/platform/MMUEditor.cpp and include/nspire-utils/platform/MMUEditor.hpp: the fields of table
-- entries, the editor of the first-level table and the editor of one second-level table, and the
-- table walk against which they are stated.
pub mod Descriptor
pub mod Fields
pub mod Walk
pub mod Editor
pub mod Coarse
