-- ===== src/Mmu/Editor.antt =====
-- `MMUEditor` of src/platform/MMUEditor.cpp: a private copy of the first-level table that is
-- live for as long as the object is.
pub mod Section
pub mod Life
pub mod Session
pub mod Refinement
use nspire_utils.Base.{ℕ, ◌+◌, ◌*◌, bit_and, bit_or, ◌==◌, if◌then◌else◌}
use nspire_utils.Word.{add32, not32, shl32, shr32}
use nspire_utils.Machine.{
  Machine, M, done, pure, raise, bad_alloc, load, store, memcpy, ◌>>=◌, ◌>>◌,
}
use nspire_utils.Caches.{flush_data_cache_range, invalidate_tlbs}
use nspire_utils.Alloc.{Platform, nullptr, aligned_alloc, aligned_free}
use nspire_utils.Mmu.Descriptor.{ttb_size, ttb_alignment, descriptor_bits, section}

-- The fields of the object; `edited_table` is null when it holds no table.
pub record MmuEditor : Type 0 where
  pub original_ttbr0_reg : ℕ
  pub edited_table : ℕ

l1_index : ℕ → ℕ
l1_index addr = shr32 addr 20

pub section_descriptor : ℕ → ℕ → ℕ
section_descriptor physical_addr attributes =
    bit_or (bit_or (bit_or (bit_and physical_addr 0xfff00000) attributes) (descriptor_bits section))
      (shl32 1 4)

module _ {H : Type 0} where
  get_ttbr0 : M H ℕ
  get_ttbr0 m = done m.ttbr0 m

  set_ttbr0 : ℕ → M H (Unit {0})
  set_ttbr0 v m = done tt (record m { ttbr0 = v })

  -- `editedTable[index] = entry`, then clean that word out of the cache and drop the TLB.
  pub put_entry : ℕ → ℕ → M H (Unit {0})
  put_entry address entry =
      store address entry >> flush_data_cache_range address (add32 address 4) >> invalidate_tlbs

  pub map : MmuEditor → ℕ → ℕ → M H (Unit {0})
  unfolding put_entry l1_index
  map e virtual_addr entry =
      if e.edited_table == nullptr
      then pure tt
      else put_entry (e.edited_table + 4 * l1_index virtual_addr) entry

  pub map_section : MmuEditor → ℕ → ℕ → ℕ → M H (Unit {0})
  unfolding put_entry l1_index
  map_section e virtual_addr physical_addr attributes =
      if e.edited_table == nullptr
      then pure tt
      else put_entry (e.edited_table + 4 * l1_index virtual_addr)
          (section_descriptor physical_addr attributes)

  pub get_entry : MmuEditor → ℕ → M H ℕ
  unfolding l1_index
  get_entry e virtual_addr =
      if e.edited_table == nullptr
      then pure 0xffffffff
      else load (e.edited_table + 4 * l1_index virtual_addr)

module _ {H : Type 0} (p : Platform H) where
  -- The constructor behind a successful allocation.
  unfoldable pub install : ℕ → ℕ → M H MmuEditor
  unfolding set_ttbr0
  install ttbr0 table =
      if table == nullptr
      then raise bad_alloc
      else (memcpy table (bit_and ttbr0 0xffffc000) ttb_size
          >> flush_data_cache_range table (add32 table ttb_size)
          >> set_ttbr0 (bit_or table (bit_and ttbr0 (not32 0xffffc000)))
          >> invalidate_tlbs
          >> pure (record { original_ttbr0_reg = ttbr0; edited_table = table }))

  -- `MMUEditor::MMUEditor()`
  unfoldable pub construct : M H MmuEditor
  unfolding get_ttbr0 install
  construct = get_ttbr0 >>= λ ttbr0. aligned_alloc p ttb_alignment ttb_size >>= install ttbr0

  -- `MMUEditor::~MMUEditor()`
  unfoldable pub destroy : MmuEditor → M H MmuEditor
  unfolding set_ttbr0
  destroy e =
      if e.edited_table == nullptr
      then pure e
      else (set_ttbr0 e.original_ttbr0_reg
          >> invalidate_tlbs
          >> aligned_free p e.edited_table
          >> pure (record e { edited_table = nullptr }))
