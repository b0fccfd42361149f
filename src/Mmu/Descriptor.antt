-- ===== src/Mmu/Descriptor.antt =====
-- The enumerations and inline helpers of include/nspire-utils/platform/MMUEditor.hpp, which build
-- the fields of first- and second-level entries and read them back.
use nspire_utils.Base.{ℕ, bit_and, bit_or, ◌==◌, if◌then◌else◌}
use nspire_utils.Word.{shl32, shr32}

abbrev pub ttb_size : ℕ
ttb_size = 16384

abbrev pub ttb_alignment : ℕ
ttb_alignment = 16384

abbrev pub l2_table_size : ℕ
l2_table_size = 1024

abbrev pub l2_table_alignment : ℕ
l2_table_alignment = 1024

unfoldable pub l1_entry_mapped_address : ℕ → ℕ
l1_entry_mapped_address entry = bit_and entry 0xfff00000

pub data MmuAccessPermission : Type 0 where
  no_access privileged_only user_read_only full_access : MmuAccessPermission

-- The enumerators' values, in bits [11:10].
abbrev pub access_bits : MmuAccessPermission → ℕ
access_bits no_access = 0
access_bits privileged_only = 0x400
access_bits user_read_only = 0x800
access_bits full_access = 0xc00

-- `static_cast` of a value whose other bits are masked off.
abbrev pub access_of_bits : ℕ → MmuAccessPermission
access_of_bits b =
    if b == 0
    then no_access
    else if b == 0x400
    then privileged_only
    else if b == 0x800
    then user_read_only
    else full_access

unfoldable pub l2_subpage_access_permissions :
    MmuAccessPermission → MmuAccessPermission → MmuAccessPermission → MmuAccessPermission → ℕ
l2_subpage_access_permissions first second third fourth =
    bit_or
      (bit_or (bit_or (shr32 (access_bits first) 6) (shr32 (access_bits second) 4))
        (shr32 (access_bits third) 2))
      (access_bits fourth)

unfoldable pub l2_entire_page_access_permissions : MmuAccessPermission → ℕ
unfolding l2_subpage_access_permissions
l2_entire_page_access_permissions ap = l2_subpage_access_permissions ap ap ap ap

unfoldable pub access_permission_from_section_entry : ℕ → MmuAccessPermission
access_permission_from_section_entry entry = access_of_bits (bit_and entry 0xc00)

abbrev pub Permissions : Type 0
Permissions = MmuAccessPermission × MmuAccessPermission × MmuAccessPermission × MmuAccessPermission

unfoldable pub access_permissions_from_l2_page_entry : ℕ → Permissions
access_permissions_from_l2_page_entry entry = (
  access_of_bits (shl32 (bit_and entry 0x30) 6),
  access_of_bits (shl32 (bit_and entry 0xc0) 4),
  access_of_bits (shl32 (bit_and entry 0x300) 2),
  access_of_bits (bit_and entry 0xc00),
)

pub data MmuCachePolicy : Type 0 where
  non_cached_non_buffered : MmuCachePolicy
  non_cached_write_buffered : MmuCachePolicy
  write_through_cache : MmuCachePolicy
  write_back_cache : MmuCachePolicy

-- The enumerators' values, in bits [3:2].
abbrev pub cache_bits : MmuCachePolicy → ℕ
cache_bits non_cached_non_buffered = 0
cache_bits non_cached_write_buffered = 4
cache_bits write_through_cache = 8
cache_bits write_back_cache = 12

abbrev pub cache_of_bits : ℕ → MmuCachePolicy
cache_of_bits b =
    if b == 0
    then non_cached_non_buffered
    else if b == 4
    then non_cached_write_buffered
    else if b == 8
    then write_through_cache
    else write_back_cache

unfoldable pub cache_policy_from_entry : ℕ → MmuCachePolicy
cache_policy_from_entry entry = cache_of_bits (bit_and entry 12)

unfoldable pub select_domain : ℕ → ℕ
select_domain domain = shl32 (bit_and domain 0xf) 5

unfoldable pub domain_from_entry : ℕ → ℕ
domain_from_entry entry = bit_and (shr32 entry 5) 0xf

pub data MmuDescriptorType : Type 0 where
  fault coarse_page_table section fine_page_table : MmuDescriptorType

abbrev pub descriptor_bits : MmuDescriptorType → ℕ
descriptor_bits fault = 0
descriptor_bits coarse_page_table = 1
descriptor_bits section = 2
descriptor_bits fine_page_table = 3

abbrev pub descriptor_of_bits : ℕ → MmuDescriptorType
descriptor_of_bits b =
    if b == 0
    then fault
    else if b == 1
    then coarse_page_table
    else if b == 2
    then section
    else fine_page_table

unfoldable pub descriptor_type_from_entry : ℕ → MmuDescriptorType
descriptor_type_from_entry entry = descriptor_of_bits (bit_and entry 3)

pub data MmuL2DescriptorType : Type 0 where
  fault large_page small_page tiny_page : MmuL2DescriptorType

abbrev pub l2_descriptor_bits : MmuL2DescriptorType → ℕ
l2_descriptor_bits MmuL2DescriptorType.fault = 0
l2_descriptor_bits large_page = 1
l2_descriptor_bits small_page = 2
l2_descriptor_bits tiny_page = 3

abbrev l2_descriptor_of_bits : ℕ → MmuL2DescriptorType
l2_descriptor_of_bits b =
    if b == 0
    then MmuL2DescriptorType.fault
    else if b == 1
    then large_page
    else if b == 2
    then small_page
    else tiny_page

unfoldable l2_descriptor_type_from_entry : ℕ → MmuL2DescriptorType
l2_descriptor_type_from_entry entry = l2_descriptor_of_bits (bit_and entry 3)
