-- ===== src/Sram/Attributes.antt =====
-- The attributes that the accessor gives its sections, as the table walk reads them.
use nspire_utils.Base.{ℕ, ◌+◌, ◌*◌, ◌/◌, ◌%◌, ◌^◌, ◌<◌, bit_or, some, ◌≡◌, refl, ◌∙◌, arith}
use nspire_utils.Word.Shift.{bit_or-zero, zero-bit_or, bit_or-div}
use nspire_utils.Mmu.Fields.{bit_or_field, select_domain_lem}
use nspire_utils.Mmu.Walk.{Mapping, walk}
use nspire_utils.Mmu.Descriptor.{
  MmuAccessPermission, no_access, privileged_only, user_read_only, full_access, access_bits,
  MmuCachePolicy, non_cached_non_buffered, non_cached_write_buffered, write_through_cache,
  write_back_cache, cache_bits,
}
use nspire_utils.Mmu.Editor.{section_descriptor}
use nspire_utils.Mmu.Editor.Section.{section_walk}
use nspire_utils.Sram.{section_attributes}

access_facts : (p : MmuAccessPermission) → (access_bits p % 2 ^ 10 ≡ 0) × (access_bits p < 2 ^ 12)
access_facts no_access = (refl, omega arith)
access_facts privileged_only = (refl, omega arith)
access_facts user_read_only = (refl, omega arith)
access_facts full_access = (refl, omega arith)

cache_facts : (c : MmuCachePolicy) → (cache_bits c % 4 ≡ 0) × (cache_bits c < 2 ^ 4)
cache_facts non_cached_non_buffered = (refl, omega arith)
cache_facts non_cached_write_buffered = (refl, omega arith)
cache_facts write_through_cache = (refl, omega arith)
cache_facts write_back_cache = (refl, omega arith)

module _ (p : MmuAccessPermission) (c : MmuCachePolicy) (d : ℕ) where
  attributes_field :
      (k j : ℕ) {x y z : ℕ}
      → access_bits p / 2 ^ k % 2 ^ j ≡ x
      → cache_bits c / 2 ^ k % 2 ^ j ≡ y
      → d % 16 * 32 / 2 ^ k % 2 ^ j ≡ z
      → section_attributes p c d / 2 ^ k % 2 ^ j ≡ bit_or (bit_or x y) z
  unfolding section_attributes
  attributes_field k j a b e = rw (
    select_domain_lem d,
    bit_or_field k j (bit_or (access_bits p) (cache_bits c)) (d % 16 * 32),
    bit_or_field k j (access_bits p) (cache_bits c),
    a,
    b,
    e,
  )

  pub attributes_small : section_attributes p c d < 2 ^ 20
  unfolding section_attributes
  attributes_small =
      let (_, access) = access_facts p in
      let (_, cache) = cache_facts c in
      ground (
        arith,
        select_domain_lem d,
        bit_or-div 20 (bit_or (access_bits p) (cache_bits c)) (d % 16 * 32),
        bit_or-div 20 (access_bits p) (cache_bits c),
        bit_or-zero 0,
      )

  pub attributes_clear : section_attributes p c d % 4 ≡ 0
  attributes_clear =
      let (access, _) = access_facts p in
      let (cache, _) = cache_facts c in
      let field : section_attributes p c d / 2 ^ 0 % 2 ^ 2 ≡ 0 =
        attributes_field 0 2 {x = 0} {y = 0} {z = 0} (omega arith) (omega arith) (omega arith) in
      omega arith

  attributes_permission : section_attributes p c d / 2 ^ 10 % 4 ≡ access_bits p / 2 ^ 10
  attributes_permission =
      let (_, access) = access_facts p in
      let (_, cache) = cache_facts c in
      attributes_field 10 2 {x = access_bits p / 2 ^ 10} {y = 0} {z = 0} (omega arith) (omega arith)
        (omega arith)
      ∙ bit_or-zero _
      ∙ bit_or-zero _

  attributes_policy : section_attributes p c d / 2 ^ 2 % 4 ≡ cache_bits c / 2 ^ 2
  attributes_policy =
      let (access, _) = access_facts p in
      let (_, cache) = cache_facts c in
      attributes_field 2 2 {x = 0} {y = cache_bits c / 2 ^ 2} {z = 0} (omega arith) (omega arith)
        (omega arith)
      ∙ bit_or-zero _
      ∙ zero-bit_or _

  attributes_domain : section_attributes p c d / 2 ^ 5 % 16 ≡ d % 16
  attributes_domain =
      let (access, _) = access_facts p in
      let (_, cache) = cache_facts c in
      attributes_field 5 4 {x = 0} {y = 0} {z = d % 16} (omega arith) (omega arith) (omega arith)
      ∙ zero-bit_or (d % 16)

-- The section at `pa`, with the permission, policy and domain that were asked for.
abbrev pub mapped_section : ℕ → MmuAccessPermission → MmuCachePolicy → ℕ → ℕ → Mapping
mapped_section pa p c d va = record {
  address = pa / 2 ^ 20 * 2 ^ 20 + va % 2 ^ 20;
  permission = access_bits p / 2 ^ 10;
  policy = cache_bits c / 2 ^ 2;
  domain = d % 16;
}

pub walk-section :
    (mem : ℕ → ℕ) (ttbr0 pa va : ℕ) (p : MmuAccessPermission) (c : MmuCachePolicy) (d : ℕ)
    → pa < 2 ^ 32
    → mem (ttbr0 / 2 ^ 14 * 2 ^ 14 + 4 * (va / 2 ^ 20))
      ≡ section_descriptor pa (section_attributes p c d)
    → walk mem ttbr0 va ≡ some (mapped_section pa p c d va)
unfolding walk
walk-section mem ttbr0 pa va p c d fits entry = rw entry (
    section_walk mem pa (section_attributes p c d) va (attributes_small p c d) fits
      (attributes_clear p c d)
    ∙ rw (attributes_permission p c d, attributes_policy p c d, attributes_domain p c d) refl)
