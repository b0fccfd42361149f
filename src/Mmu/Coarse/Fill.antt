-- ===== src/Mmu/Coarse/Fill.antt =====
-- The contents that the coarse editor gives its new table, and what the table means to the walk.
use nspire_utils.Base.{
  ℕ, zero, suc, ◌+◌, ◌*◌, ◌/◌, ◌%◌, ◌^◌, ◌≤◌, ◌<◌, bit_and, Option, some, none, inl, inr, ◌⊎◌, ◌≡◌,
  ◌≢◌, refl, arith, ◌==◌, if◌then◌else◌,
}
use nspire_utils.Word.Mask.{bit_and_field, bit_and_low}
use nspire_utils.Machine.{Machine, done, store_range, copy_block, zero_block}
use nspire_utils.Machine.Store.{
  store_range-inside, store_range-outside, copy_block-inside, copy_block-outside, zero_block-inside,
  zero_block-outside,
}
use nspire_utils.Mmu.Descriptor.{descriptor_of_bits}
use nspire_utils.Mmu.Walk.{Mapping, walk_entry, walk_page, l2_base}
use nspire_utils.Mmu.Coarse.{split_entry, fill_l2_table}
use nspire_utils.Mmu.Coarse.Split.{split_entry-walk}

-- The store after the new table is filled in for the entry `l1`.
unfoldable pub filled : ℕ → ℕ → (ℕ → ℕ) → ℕ → ℕ
filled l1 table mem =
    if l1 % 4 == 1
    then copy_block table (l2_base l1) (2 ^ 10) mem
    else if l1 % 4 == 2
    then store_range table 0 256 (split_entry l1) mem
    else zero_block table (2 ^ 10) mem

-- By the type bits of the entry.
fill_by_type :
    {H : Type 0} (r l1 table : ℕ) (m : Machine H)
    → bit_and l1 0xfffffc00 ≡ l2_base l1
    → r < 4
    → fill_l2_table (descriptor_of_bits r) l1 table m
      ≡ done tt (record m {
        mem =
            if r == 1
            then copy_block table (l2_base l1) (2 ^ 10) m.mem
            else if r == 2
            then store_range table 0 256 (split_entry l1) m.mem
            else zero_block table (2 ^ 10) m.mem;
      })
unfolding fill_l2_table
fill_by_type zero l1 table m base h = refl
fill_by_type (suc zero) l1 table m base h = rw base
fill_by_type (suc (suc zero)) l1 table m base h = refl
fill_by_type (suc (suc (suc zero))) l1 table m base h = refl
fill_by_type (suc (suc (suc (suc r)))) l1 table m base h = absurd (omega arith)

pub fill_lem :
    {H : Type 0} (l1 table : ℕ) (m : Machine H)
    → l1 < 2 ^ 32
    → fill_l2_table (descriptor_of_bits (bit_and l1 3)) l1 table m
      ≡ done tt (record m { mem = filled l1 table m.mem })
unfolding filled
fill_lem l1 table m word =
    rw (bit_and_low 2 l1)
      (fill_by_type (l1 % 4) l1 table m (omega (arith, bit_and_field 22 10 l1)) (omega arith))

pub filled-outside :
    (l1 table : ℕ) (mem : ℕ → ℕ) (a : ℕ)
    → (a < table) ⊎ (table + 2 ^ 10 ≤ a)
    → filled l1 table mem a ≡ mem a
unfolding filled
filled-outside l1 table mem a h = ground (
  arith,
  copy_block-outside table (l2_base l1) (2 ^ 10) mem a,
  store_range-outside table 0 256 (split_entry l1) mem a,
  zero_block-outside table (2 ^ 10) mem a,
)

-- A mapping under another domain.
unfoldable pub retag : ℕ → Option Mapping → Option Mapping
retag domain none = none
retag domain (some x) = some (record x { domain = domain })

walk_page-retag : (w d d' va : ℕ) → walk_page w d va ≡ retag d (walk_page w d' va)
unfolding walk_page retag
walk_page-retag w d d' va = ground arith

module _ (l1 table domain va : ℕ) (mem : ℕ → ℕ) (word : l1 < 2 ^ 32) where
  abbrev Same : Type 0
  Same =
      walk_page (filled l1 table mem (table + 4 * (va / 2 ^ 12 % 256))) domain va
      ≡ retag domain (walk_entry mem l1 va)

  walk_copied : l1 % 4 ≡ 1 → Same
  unfolding filled walk_entry
  walk_copied e =
      rw
        (
          e,
          copy_block-inside table (l2_base l1) (2 ^ 10) mem (4 * (va / 2 ^ 12 % 256)) (omega arith),
        )
        (walk_page-retag (mem (l2_base l1 + 4 * (va / 2 ^ 12 % 256))) domain (l1 / 2 ^ 5 % 16) va)

  walk_split : l1 % 4 ≡ 2 → Same
  unfolding filled walk_entry retag
  walk_split e = rw (
    e,
    store_range-inside table 0 256 (split_entry l1) mem (va / 2 ^ 12 % 256) (omega arith)
        (omega arith),
    split_entry-walk l1 (va / 2 ^ 12 % 256) word (omega arith) domain va refl,
  )

  walk_zeroed : l1 % 4 ≡ 0 → Same
  unfolding filled walk_entry retag walk_page
  walk_zeroed e =
      rw (e, zero_block-inside table (2 ^ 10) mem (4 * (va / 2 ^ 12 % 256)) (omega arith))

  -- The page that the new table gives for an address is what the entry `l1`, which names no fine
  -- table, gave, under the domain of the entry that names the new table.
  pub filled-walk : l1 % 4 ≢ 3 → Same
  filled-walk kind = by_kind (three (l1 % 4) (omega arith) kind)
    where
      three : (r : ℕ) → r < 4 → r ≢ 3 → (r ≡ 1) ⊎ (r ≡ 2) ⊎ (r ≡ 0)
      three r h ne = omega arith

      by_kind : (l1 % 4 ≡ 1) ⊎ (l1 % 4 ≡ 2) ⊎ (l1 % 4 ≡ 0) → Same
      by_kind (inl e) = walk_copied e
      by_kind (inr (inl e)) = walk_split e
      by_kind (inr (inr e)) = walk_zeroed e
