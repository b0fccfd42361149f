-- ===== src/Mmu/Coarse.antt =====
-- `MMUL2CoarsePageTableEditor` of src/platform/MMUEditor.cpp: a second-level table that
-- stands in for one first-level entry for as long as the object lives.
pub mod Split
pub mod Fill
pub mod Life
pub mod PageEntry
pub mod Pages
pub mod Attached
pub mod Refinement
pub mod Session
pub mod Insert
pub mod Remap
use nspire_utils.Base.{ℕ, ◌+◌, ◌*◌, bit_and, bit_or, ◌==◌, if◌then◌else◌}
use nspire_utils.Word.{add32, shl32, shr32, u32}
use nspire_utils.Machine.{
  M, pure, raise, bad_alloc, runtime_error, memcpy, memset_zero, store, store_all, ◌>>=◌, ◌>>◌,
}
use nspire_utils.Caches.{flush_data_cache_range, invalidate_tlbs}
use nspire_utils.Alloc.{Platform, nullptr, aligned_alloc, aligned_free}
use nspire_utils.Mmu.Descriptor.{
  l2_table_size, l2_table_alignment, cache_bits, cache_policy_from_entry,
  access_permission_from_section_entry, l2_entire_page_access_permissions, select_domain,
  MmuDescriptorType, fault, coarse_page_table, section, fine_page_table, descriptor_bits,
  descriptor_of_bits, MmuL2DescriptorType, large_page, small_page, l2_descriptor_bits,
}
use nspire_utils.Mmu.Editor.{MmuEditor, map, get_entry}

pub record CoarseEditor : Type 0 where
  pub virtual_addr : ℕ
  pub old_l1_entry : ℕ
  pub l2_table : ℕ

pub l2_small_page_index : ℕ → ℕ
l2_small_page_index addr = bit_and (shr32 addr 12) 0xff

pub l2_large_page_index : ℕ → ℕ
unfolding l2_small_page_index
l2_large_page_index addr = bit_and (l2_small_page_index addr) 0xf0

-- Entry `i` of the table that replaces a section.
pub split_entry : ℕ → ℕ → ℕ
split_entry l1_entry i =
    bit_or
      (bit_or
        (bit_or (bit_and (add32 (bit_and l1_entry 0xfff00000) (i * 0x1000)) 0xfffff000)
          (l2_descriptor_bits small_page))
        (l2_entire_page_access_permissions (access_permission_from_section_entry l1_entry)))
      (cache_bits (cache_policy_from_entry l1_entry))

pub coarse_descriptor : ℕ → ℕ → ℕ
coarse_descriptor l2_table domain =
    bit_or
      (bit_or (bit_or (bit_and l2_table 0xfffffc00) (descriptor_bits coarse_page_table))
        (select_domain domain))
      (shl32 1 4)

pub large_page_descriptor : ℕ → ℕ → ℕ
large_page_descriptor physical_addr attributes =
    bit_or (bit_or (bit_and physical_addr 0xffff0000) (l2_descriptor_bits large_page)) attributes

pub small_page_descriptor : ℕ → ℕ → ℕ
small_page_descriptor physical_addr attributes =
    bit_or (bit_or (bit_and physical_addr 0xfffff000) (l2_descriptor_bits small_page)) attributes

module _ {H : Type 0} where
  -- The new table's contents, by the kind of the entry that it replaces.
  pub fill_l2_table : MmuDescriptorType → ℕ → ℕ → M H (Unit {0})
  unfolding split_entry
  fill_l2_table coarse_page_table l1_entry table =
      memcpy table (bit_and l1_entry 0xfffffc00) l2_table_size
  fill_l2_table section l1_entry table = store_all table 0 256 (split_entry l1_entry)
  fill_l2_table _ l1_entry table = memset_zero table l2_table_size

  -- `Map64KBPage`
  pub map_64kb_page : CoarseEditor → ℕ → ℕ → ℕ → M H (Unit {0})
  unfolding l2_large_page_index
  map_64kb_page c virtual_addr physical_addr attributes =
      let index = l2_large_page_index virtual_addr in
      if c.l2_table == nullptr
      then pure tt
      else (store_all c.l2_table index 16 (λ i. large_page_descriptor physical_addr attributes)
          >> flush_data_cache_range (c.l2_table + 4 * index)
              (add32 (c.l2_table + 4 * index) (16 * 4))
          >> invalidate_tlbs)

  -- `Map4KBPage`
  pub map_4kb_page : CoarseEditor → ℕ → ℕ → ℕ → M H (Unit {0})
  unfolding l2_small_page_index
  map_4kb_page c virtual_addr physical_addr attributes =
      let index = l2_small_page_index virtual_addr in
      if c.l2_table == nullptr
      then pure tt
      else (store (c.l2_table + 4 * index) (small_page_descriptor physical_addr attributes)
          >> flush_data_cache_range (c.l2_table + 4 * index) (add32 (c.l2_table + 4 * index) 4)
          >> invalidate_tlbs)

module _ {H : Type 0} (p : Platform H) where
  -- The constructor behind a successful allocation.
  unfoldable pub install : MmuEditor → ℕ → ℕ → ℕ → ℕ → M H CoarseEditor
  unfolding fill_l2_table
  install parent virtual_addr domain l1_entry table =
      if table == nullptr
      then raise bad_alloc
      else (fill_l2_table (descriptor_of_bits (bit_and l1_entry 3)) l1_entry table
          >> flush_data_cache_range table (add32 table l2_table_size)
          >> map parent virtual_addr (coarse_descriptor table domain)
          >> pure
              (record { virtual_addr = virtual_addr; old_l1_entry = l1_entry; l2_table = table }))

  check_and_install : MmuEditor → ℕ → ℕ → ℕ → M H CoarseEditor
  unfolding install
  check_and_install parent virtual_addr domain l1_entry =
      if bit_and l1_entry 3 == descriptor_bits fine_page_table
      then raise (runtime_error "Cannot copy fine page table")
      else (aligned_alloc p l2_table_alignment l2_table_size
          >>= install parent virtual_addr domain l1_entry)

  -- `MMUL2CoarsePageTableEditor(mmuEditor, virtual_addr, domain)`
  unfoldable pub construct : MmuEditor → ℕ → ℕ → M H CoarseEditor
  unfolding check_and_install
  construct parent virtual_addr domain =
      get_entry parent virtual_addr >>= check_and_install parent virtual_addr domain

  -- `~MMUL2CoarsePageTableEditor()`
  unfoldable pub destroy : MmuEditor → CoarseEditor → M H CoarseEditor
  destroy parent c =
      if c.l2_table == nullptr
      then pure c
      else (map parent c.virtual_addr c.old_l1_entry
          >> aligned_free p c.l2_table
          >> pure (record c { l2_table = nullptr }))
