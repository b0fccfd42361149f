-- ===== src/Mmu/Coarse/Split.antt =====
-- The fields of the entries that the coarse editor computes: the 256 pages that replace a section,
-- and the first-level entry that names the new table.
use nspire_utils.Base.{
  ℕ, zero, suc, ◌+◌, ◌*◌, ◌/◌, ◌%◌, ◌^◌, ◌<◌, bit_and, bit_or, some, ◌≡◌, refl, ap, ◌∙◌, arith,
}
use nspire_utils.Word.{add32}
use nspire_utils.Word.Mask.{bit_and_field}
use nspire_utils.Word.Shift.{bit_or-zero, zero-bit_or, bit_or-div}
use nspire_utils.Mmu.Descriptor.{
  access_of_bits, cache_bits, cache_of_bits, cache_policy_from_entry,
  access_permission_from_section_entry, l2_entire_page_access_permissions, select_domain,
}
use nspire_utils.Mmu.Fields.{bit_or_fields, select_domain_lem}
use nspire_utils.Mmu.Walk.{walk_page, subpage}
use nspire_utils.Mmu.Coarse.{split_entry, coarse_descriptor}

-- One permission in all four fields of a page.
entire_page_lem :
    (n : ℕ) → n < 4 → l2_entire_page_access_permissions (access_of_bits (n * 2 ^ 10)) ≡ n * 0x550
unfolding l2_entire_page_access_permissions
entire_page_lem zero h = refl
entire_page_lem (suc zero) h = refl
entire_page_lem (suc (suc zero)) h = refl
entire_page_lem (suc (suc (suc zero))) h = refl
entire_page_lem (suc (suc (suc (suc n)))) h = absurd (omega arith)

policy_lem : (n : ℕ) → n < 4 → cache_bits (cache_of_bits (n * 2 ^ 2)) ≡ n * 4
policy_lem zero h = refl
policy_lem (suc zero) h = refl
policy_lem (suc (suc zero)) h = refl
policy_lem (suc (suc (suc zero))) h = refl
policy_lem (suc (suc (suc (suc n)))) h = absurd (omega arith)

-- A page's entry with the section's fields, as `|` of its parts.
split_entry_parts :
    (l1 i : ℕ)
    → l1 < 2 ^ 32
    → i < 256
    → split_entry l1 i
      ≡ bit_or
          (bit_or (bit_or (l1 / 2 ^ 20 * 2 ^ 20 + i * 2 ^ 12) 2) (l1 / 2 ^ 10 % 4 * 0x550))
          (l1 / 2 ^ 2 % 4 * 4)
unfolding split_entry access_permission_from_section_entry cache_policy_from_entry
split_entry_parts l1 i word small =
    let base : bit_and l1 0xfff00000 ≡ l1 / 2 ^ 20 * 2 ^ 20 =
      omega (arith, bit_and_field 12 20 l1) in
    let page : add32 (l1 / 2 ^ 20 * 2 ^ 20) (i * 0x1000) ≡ l1 / 2 ^ 20 * 2 ^ 20 + i * 2 ^ 12 =
      omega arith in
    let whole : bit_and (l1 / 2 ^ 20 * 2 ^ 20 + i * 2 ^ 12) 0xfffff000
        ≡ l1 / 2 ^ 20 * 2 ^ 20 + i * 2 ^ 12 =
      omega (arith, bit_and_field 20 12 (l1 / 2 ^ 20 * 2 ^ 20 + i * 2 ^ 12)) in
    rw (
      base,
      page,
      whole,
      bit_and_field 2 10 l1,
      entire_page_lem (l1 / 2 ^ 10 % 4) (omega arith),
      bit_and_field 2 2 l1,
      policy_lem (l1 / 2 ^ 2 % 4) (omega arith),
    )

-- Under a page's entry every address of the page means what it meant under the section's.
module _ (l1 i : ℕ) (word : l1 < 2 ^ 32) (small : i < 256) where
  page_address : split_entry l1 i / 2 ^ 12 ≡ l1 / 2 ^ 20 * 2 ^ 8 + i
  page_address = ground (
    arith,
    split_entry_parts l1 i word small,
    bit_or-div 12 (bit_or (bit_or (l1 / 2 ^ 20 * 2 ^ 20 + i * 2 ^ 12) 2) (l1 / 2 ^ 10 % 4 * 0x550))
        (l1 / 2 ^ 2 % 4 * 4),
    bit_or-div 12 (bit_or (l1 / 2 ^ 20 * 2 ^ 20 + i * 2 ^ 12) 2) (l1 / 2 ^ 10 % 4 * 0x550),
    bit_or-div 12 (l1 / 2 ^ 20 * 2 ^ 20 + i * 2 ^ 12) 2,
    bit_or-zero (l1 / 2 ^ 20 * 2 ^ 8 + i),
  )

  page_field :
      (k j : ℕ)
      → split_entry l1 i / 2 ^ k % 2 ^ j
        ≡ bit_or
            (bit_or
              (bit_or ((l1 / 2 ^ 20 * 2 ^ 20 + i * 2 ^ 12) / 2 ^ k % 2 ^ j) (2 / 2 ^ k % 2 ^ j))
              (l1 / 2 ^ 10 % 4 * 0x550 / 2 ^ k % 2 ^ j))
            (l1 / 2 ^ 2 % 4 * 4 / 2 ^ k % 2 ^ j)
  page_field k j =
      ap (λ t. t / 2 ^ k % 2 ^ j) (split_entry_parts l1 i word small)
      ∙ bit_or_fields k j (l1 / 2 ^ 20 * 2 ^ 20 + i * 2 ^ 12) 2 (l1 / 2 ^ 10 % 4 * 0x550)
          (l1 / 2 ^ 2 % 4 * 4)

  page_type : split_entry l1 i % 4 ≡ 2
  page_type = ground (arith, page_field 0 2)

  page_policy : split_entry l1 i / 2 ^ 2 % 4 ≡ l1 / 2 ^ 2 % 4
  page_policy = ground (arith, page_field 2 2, zero-bit_or (l1 / 2 ^ 2 % 4))

  page_permission : (s : ℕ) → subpage (split_entry l1 i) s ≡ l1 / 2 ^ 10 % 4
  unfolding subpage
  page_permission s = ground (
    arith,
    page_field 4 2,
    page_field 6 2,
    page_field 8 2,
    page_field 10 2,
    zero-bit_or (l1 / 2 ^ 10 % 4),
    bit_or-zero (l1 / 2 ^ 10 % 4),
  )

  pub split_entry-walk :
      (domain va : ℕ)
      → va / 2 ^ 12 % 256 ≡ i
      → walk_page (split_entry l1 i) domain va
        ≡ some (record {
          address = l1 / 2 ^ 20 * 2 ^ 20 + va % 2 ^ 20;
          permission = l1 / 2 ^ 10 % 4;
          policy = l1 / 2 ^ 2 % 4;
          domain = domain;
        })
  unfolding walk_page
  split_entry-walk domain va e =
      let whole : (l1 / 2 ^ 20 * 2 ^ 8 + i) * 2 ^ 12 + va % 2 ^ 12
          ≡ l1 / 2 ^ 20 * 2 ^ 20 + va % 2 ^ 20 =
        omega arith in
      rw (page_type, page_address, page_policy, page_permission (va / 2 ^ 10 % 4), whole)

-- The first-level entry of the new table: its address, type 1, and the domain asked for.
module _ (table domain : ℕ) (word : table < 2 ^ 32) (align : table % 2 ^ 10 ≡ 0) where
  descriptor_base : bit_and table 0xfffffc00 ≡ table
  descriptor_base = omega (arith, bit_and_field 22 10 table)

  pub coarse_descriptor-base : coarse_descriptor table domain / 2 ^ 10 * 2 ^ 10 ≡ table
  unfolding coarse_descriptor
  coarse_descriptor-base = ground (
    arith,
    descriptor_base,
    select_domain_lem domain,
    bit_or-div 10 (bit_or (bit_or (bit_and table 0xfffffc00) 1) (select_domain domain)) 16,
    bit_or-div 10 (bit_or (bit_and table 0xfffffc00) 1) (select_domain domain),
    bit_or-div 10 (bit_and table 0xfffffc00) 1,
    bit_or-zero (table / 2 ^ 10),
  )

  pub coarse_descriptor-type : coarse_descriptor table domain % 4 ≡ 1
  unfolding coarse_descriptor
  coarse_descriptor-type = ground (
    arith,
    descriptor_base,
    select_domain_lem domain,
    bit_or_fields 0 2 (bit_and table 0xfffffc00) 1 (select_domain domain) 16,
  )

  pub coarse_descriptor-domain : coarse_descriptor table domain / 2 ^ 5 % 16 ≡ domain % 16
  unfolding coarse_descriptor
  coarse_descriptor-domain = ground (
    arith,
    descriptor_base,
    select_domain_lem domain,
    bit_or_fields 5 4 (bit_and table 0xfffffc00) 1 (select_domain domain) 16,
    zero-bit_or (domain % 16),
    bit_or-zero (domain % 16),
  )
