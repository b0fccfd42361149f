-- ===== src/Sram.antt =====
-- src/mem/SRAMAccessor.cpp and include/nspire-utils/mem/SRAM.hpp: the on-chip SRAM moved to an address of
-- its own, with a clone of its contents on the heap mapped in its place.
pub mod Copy
pub mod Attributes
pub mod Remap
pub mod Construct
mod NoBlock
pub mod Destroy
pub mod Life
use nspire_utils.Base.{
  ℕ, zero, suc, ◌+◌, ◌*◌, ◌/◌, bit_or, Bool, true, false, not, Option, none, some, ◌==◌,
  if◌then◌else◌,
}
use nspire_utils.Word.{add32}
use nspire_utils.Machine.{M, pure, raise, hang, bad_alloc, runtime_error, load, store, ◌>>=◌, ◌>>◌}
use nspire_utils.Caches.{flush_data_cache_range, drain_writes}
use nspire_utils.Alloc.{Platform, nullptr, aligned_alloc, aligned_free}
use nspire_utils.Mmu.Walk.{Mapping, walk}
use nspire_utils.Mmu.Descriptor.{
  l1_entry_mapped_address, MmuAccessPermission, full_access, access_bits, MmuCachePolicy,
  non_cached_non_buffered, write_back_cache, cache_bits, select_domain, domain_from_entry,
}
use nspire_utils.Mmu.Editor.{MmuEditor, map, map_section, get_entry}

abbrev pub sram_physical_address : ℕ
sram_physical_address = 0xa4000000

abbrev sram_size : ℕ
sram_size = 256 * 1024

-- The fields of the object behind the editor, which it refers to; a callback may be null.
pub record SramAccessor (H : Type 0) : Type 0 where
  pub original_sram_domain : ℕ
  pub cloned_sram_block : ℕ
  pub new_sram_address : ℕ
  pub disable_interrupts : Option (M H ℕ)
  pub enable_interrupts : Option (ℕ → M H (Unit {0}))
  pub init_successful : Bool

get_new_sram_address : {H : Type 0} → SramAccessor H → ℕ
get_new_sram_address a = a.new_sram_address

pub section_attributes : MmuAccessPermission → MmuCachePolicy → ℕ → ℕ
section_attributes permission policy domain =
    bit_or (bit_or (access_bits permission) (cache_bits policy)) (select_domain domain)

module _ {H : Type 0} where
  -- An access where the tables have no mapping is a data abort, from which the code does not return.
  abbrev resolve : Option Mapping → M H ℕ
  resolve none m = hang
  resolve (some mapping) m = pure mapping.address m

  abbrev pub translate : ℕ → M H ℕ
  translate va m = resolve (walk m.mem m.ttbr0 va) m

  -- `std::memcpy` of `n` words between addresses that the MMU translates.
  pub virtual_memcpy : ℕ → ℕ → ℕ → M H (Unit {0})
  virtual_memcpy dst src zero = pure tt
  virtual_memcpy dst src (suc n) = do
    from ← translate src
    word ← load from
    to ← translate dst
    store to word
    virtual_memcpy (dst + 4) (src + 4) n

  abbrev pub call_disable : Option (M H ℕ) → M H ℕ
  call_disable none = pure 0
  call_disable (some f) = f

  abbrev pub call_enable : Option (ℕ → M H (Unit {0})) → ℕ → M H (Unit {0})
  call_enable none mask = pure tt
  call_enable (some f) mask = f mask

  -- The constructor behind its checks.
  pub remap :
      MmuEditor → SramAccessor H → MmuAccessPermission → MmuCachePolicy → ℕ → M H (SramAccessor H)
  remap e a permission policy domain = do
    mask ← call_disable a.disable_interrupts
    map_section e sram_physical_address a.cloned_sram_block
        (section_attributes full_access non_cached_non_buffered a.original_sram_domain)
    map_section e 0 a.cloned_sram_block
        (section_attributes full_access non_cached_non_buffered a.original_sram_domain)
    map_section e a.new_sram_address sram_physical_address
        (section_attributes permission policy domain)
    call_enable a.enable_interrupts mask
    pure (record a { init_successful = true })

  -- The tests of the SRAM's entry.
  pub check_and_remap :
      MmuEditor
      → SramAccessor H
      → MmuAccessPermission
      → MmuCachePolicy
      → ℕ
      → ℕ
      → M H (SramAccessor H)
  check_and_remap e a permission policy domain entry =
      if entry == 0xffffffff
      then raise (runtime_error "SRAM region is not currently mapped in MMU")
      else if not (l1_entry_mapped_address entry == sram_physical_address)
      then raise (runtime_error "SRAM region is not identity mapped")
      else remap e (record a { original_sram_domain = domain_from_entry entry }) permission policy
          domain

  -- The constructor from the answer of the allocation on.
  pub clone_and_remap :
      MmuEditor
      → SramAccessor H
      → MmuAccessPermission
      → MmuCachePolicy
      → ℕ
      → ℕ
      → M H (SramAccessor H)
  clone_and_remap e a permission policy domain block =
      if block == nullptr
      then raise bad_alloc
      else (virtual_memcpy block sram_physical_address (sram_size / 4)
          >> flush_data_cache_range block (add32 block sram_size)
          >> drain_writes
          >> get_entry e sram_physical_address
          >>= check_and_remap e (record a { cloned_sram_block = block }) permission policy domain)

  -- The destructor where the constructor has come to its end.
  pub restore : MmuEditor → SramAccessor H → M H (Unit {0})
  restore e a = do
    mask ← call_disable a.disable_interrupts
    virtual_memcpy a.new_sram_address a.cloned_sram_block (sram_size / 4)
    flush_data_cache_range a.cloned_sram_block (add32 a.cloned_sram_block sram_size)
    drain_writes
    map_section e sram_physical_address sram_physical_address
        (section_attributes full_access write_back_cache a.original_sram_domain)
    map e a.new_sram_address 0
    call_enable a.enable_interrupts mask

module _ {H : Type 0} (p : Platform H) where
  -- `SRAM_Accessor::SRAM_Accessor`
  unfoldable pub construct :
      MmuEditor
      → ℕ
      → Option (M H ℕ)
      → Option (ℕ → M H (Unit {0}))
      → MmuAccessPermission
      → MmuCachePolicy
      → ℕ
      → M H (SramAccessor H)
  construct e new_sram_address disable enable permission policy domain =
      aligned_alloc p 0x100000 sram_size
      >>= clone_and_remap e
          (record {
            original_sram_domain = 0;
            cloned_sram_block = nullptr;
            new_sram_address = new_sram_address;
            disable_interrupts = disable;
            enable_interrupts = enable;
            init_successful = false;
          })
          permission policy domain

  -- `SRAM_Accessor::~SRAM_Accessor`
  unfoldable pub destroy : MmuEditor → SramAccessor H → M H (SramAccessor H)
  destroy e a =
      if a.cloned_sram_block == nullptr
      then pure a
      else ((if a.init_successful then restore e a else pure tt)
          >> aligned_free p a.cloned_sram_block
          >> pure (record a { cloned_sram_block = nullptr }))
