-- ===== src/Mmu/Coarse/PageEntry.antt =====
-- The entries of small and large pages in a second-level table, and what they mean to the walk.
use nspire_utils.Base.{ℕ, ◌+◌, ◌*◌, ◌/◌, ◌%◌, ◌^◌, ◌<◌, bit_and, bit_or, some, ◌≡◌, refl, ap, arith}
use nspire_utils.Word.Mask.{bit_and_field, bit_and_low}
use nspire_utils.Word.Shift.{bit_or-zero, zero-bit_or, bit_or-div}
use nspire_utils.Mmu.Fields.{bit_or_field}
use nspire_utils.Mmu.Walk.{walk_page, subpage, Mapping}
use nspire_utils.Mmu.Coarse.{
  l2_small_page_index, l2_large_page_index, small_page_descriptor, large_page_descriptor,
}

pub small_index_lem : (va : ℕ) → l2_small_page_index va ≡ va / 2 ^ 12 % 256
unfolding l2_small_page_index
small_index_lem va = bit_and_low 8 (va / 2 ^ 12)

pub large_index_lem : (va : ℕ) → l2_large_page_index va ≡ va / 2 ^ 16 % 16 * 16
unfolding l2_large_page_index
large_index_lem va =
    omega
      (arith, ap (λ t. bit_and t 0xf0) (small_index_lem va), bit_and_field 4 4 (va / 2 ^ 12 % 256))

-- What a page with the given attributes, in bits 2 to 11, means.
abbrev pub page_mapping : ℕ → ℕ → ℕ → ℕ → Mapping
page_mapping address s attributes domain = record {
  address = address;
  permission = subpage attributes s;
  policy = attributes / 2 ^ 2 % 4;
  domain = domain;
}

-- The fields of `base | type | attributes`.
or_fields :
    (b t attributes k j : ℕ)
    → bit_or (bit_or b t) attributes / 2 ^ k % 2 ^ j
      ≡ bit_or (bit_or (b / 2 ^ k % 2 ^ j) (t / 2 ^ k % 2 ^ j)) (attributes / 2 ^ k % 2 ^ j)
or_fields b t attributes k j = rw (bit_or_field k j (bit_or b t) attributes, bit_or_field k j b t)

module _ (b t attributes : ℕ) (low : b % 2 ^ 12 ≡ 0) (kind : t < 4)
    (clear : attributes % 4 ≡ 0) where
  or_policy : bit_or (bit_or b t) attributes / 2 ^ 2 % 4 ≡ attributes / 2 ^ 2 % 4
  or_policy = or_high 2 2 (omega arith) (omega arith)
    where
      or_high :
          (k j : ℕ)
          → b / 2 ^ k % 2 ^ j ≡ 0
          → t / 2 ^ k % 2 ^ j ≡ 0
          → bit_or (bit_or b t) attributes / 2 ^ k % 2 ^ j ≡ attributes / 2 ^ k % 2 ^ j
      or_high k j hb ht =
          ground (arith, or_fields b t attributes k j, zero-bit_or (attributes / 2 ^ k % 2 ^ j))

  or_type : bit_or (bit_or b t) attributes % 4 ≡ t
  or_type = ground (arith, or_fields b t attributes 0 2, zero-bit_or t, bit_or-zero t)

  or_subpage : (s : ℕ) → subpage (bit_or (bit_or b t) attributes) s ≡ subpage attributes s
  unfolding subpage
  or_subpage s = ground (
    arith,
    or_fields b t attributes 4 2,
    or_fields b t attributes 6 2,
    or_fields b t attributes 8 2,
    or_fields b t attributes 10 2,
    zero-bit_or (attributes / 2 ^ 4 % 4),
    zero-bit_or (attributes / 2 ^ 6 % 4),
    zero-bit_or (attributes / 2 ^ 8 % 4),
    zero-bit_or (attributes / 2 ^ 10 % 4),
  )

or_address :
    (b t attributes k : ℕ)
    → t / 2 ^ k ≡ 0
    → attributes / 2 ^ k ≡ 0
    → bit_or (bit_or b t) attributes / 2 ^ k ≡ b / 2 ^ k
or_address b t attributes k ht ha =
    ground (arith, bit_or-div k (bit_or b t) attributes, bit_or-div k b t, bit_or-zero (b / 2 ^ k))

module _ (pa attributes domain va : ℕ) (fits : pa < 2 ^ 32) (small : attributes < 2 ^ 12)
    (clear : attributes % 4 ≡ 0) where
  pub small_page_walk :
      walk_page (small_page_descriptor pa attributes) domain va
      ≡ some (page_mapping (pa / 2 ^ 12 * 2 ^ 12 + va % 2 ^ 12) (va / 2 ^ 10 % 4) attributes domain)
  unfolding walk_page small_page_descriptor
  small_page_walk =
      let b = pa / 2 ^ 12 * 2 ^ 12 in
      let base : bit_and pa 0xfffff000 ≡ b = omega (arith, bit_and_field 20 12 pa) in
      let whole : b / 2 ^ 12 ≡ pa / 2 ^ 12 = omega arith in
      rw (
        base,
        or_type b 2 attributes (omega arith) (omega arith) clear,
        or_address b 2 attributes 12 refl (omega arith),
        or_subpage b 2 attributes (omega arith) (omega arith) clear (va / 2 ^ 10 % 4),
        or_policy b 2 attributes (omega arith) (omega arith) clear,
        whole,
      )

  pub large_page_walk :
      walk_page (large_page_descriptor pa attributes) domain va
      ≡ some (page_mapping (pa / 2 ^ 16 * 2 ^ 16 + va % 2 ^ 16) (va / 2 ^ 14 % 4) attributes domain)
  unfolding walk_page large_page_descriptor
  large_page_walk =
      let b = pa / 2 ^ 16 * 2 ^ 16 in
      let base : bit_and pa 0xffff0000 ≡ b = omega (arith, bit_and_field 16 16 pa) in
      let whole : b / 2 ^ 16 ≡ pa / 2 ^ 16 = omega arith in
      rw (
        base,
        or_type b 1 attributes (omega arith) (omega arith) clear,
        or_address b 1 attributes 16 refl (omega arith),
        or_subpage b 1 attributes (omega arith) (omega arith) clear (va / 2 ^ 14 % 4),
        or_policy b 1 attributes (omega arith) (omega arith) clear,
        whole,
      )
