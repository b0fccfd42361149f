-- ===== src/Interrupted/Page.antt =====
-- The page at 0xFFFF0000 under the tables that tests/interrupted/main.cpp sets up, and its stores through it.
use nspire_utils.Base.{ℕ, ◌+◌, ◌*◌, ◌/◌, ◌%◌, ◌^◌, ◌<◌, some, ◌≡◌, refl, arith}
use nspire_utils.Machine.{Machine, done, write}
use nspire_utils.Mmu.Walk.{walk}
use nspire_utils.Mmu.Descriptor.{l2_entire_page_access_permissions}
use nspire_utils.Mmu.Coarse.{coarse_descriptor, small_page_descriptor}
use nspire_utils.Mmu.Coarse.Split.{
  coarse_descriptor-base, coarse_descriptor-type, coarse_descriptor-domain,
}
use nspire_utils.Mmu.Coarse.Life.{walk_coarse}
use nspire_utils.Mmu.Coarse.PageEntry.{page_mapping, small_page_walk}
use nspire_utils.Interrupted.{page_attributes, store_virtual}

-- The first-level table at `ttb` sends the last megabyte to the second-level table at `l2`, and that one
-- sends the page at 0xFFFF0000 to `table`.
pub record MapsVectors {H : Type 0} (ttb l2 table domain : ℕ) (m : Machine H) : Type 0 where
  pub current : m.ttbr0 / 2 ^ 14 * 2 ^ 14 ≡ ttb
  pub slot : m.mem (ttb + 4 * 0xfff) ≡ coarse_descriptor l2 domain
  pub page : m.mem (l2 + 4 * 0xf0) ≡ small_page_descriptor table page_attributes

module _ {H : Type 0} {ttb l2 table domain : ℕ} (l2_fits : l2 < 2 ^ 32)
    (l2_aligned : l2 % 2 ^ 10 ≡ 0) (table_fits : table < 2 ^ 32)
    (table_aligned : table % 2 ^ 12 ≡ 0) where
  -- Every address of the page goes to the same offset of the block, with full access and no caching.
  pub walk-MapsVectors :
      (m : Machine H) (va : ℕ)
      → MapsVectors ttb l2 table domain m
      → va / 2 ^ 12 ≡ 0xffff0
      → walk m.mem m.ttbr0 va
        ≡ some (page_mapping (table + va % 2 ^ 12) (va / 2 ^ 10 % 4) page_attributes (domain % 16))
  unfolding walk l2_entire_page_access_permissions
  walk-MapsVectors m va maps inside =
      let megabyte : va / 2 ^ 20 ≡ 0xfff = omega arith in
      let index : va / 2 ^ 12 % 256 ≡ 0xf0 = omega arith in
      let whole : table / 2 ^ 12 * 2 ^ 12 ≡ table = omega arith in
      rw
        (
          maps.current,
          megabyte,
          maps.slot,
          walk_coarse m.mem (coarse_descriptor l2 domain) va
              (coarse_descriptor-type l2 domain l2_fits l2_aligned),
          coarse_descriptor-base l2 domain l2_fits l2_aligned,
          coarse_descriptor-domain l2 domain l2_fits l2_aligned,
          index,
          maps.page,
          small_page_walk table page_attributes (domain % 16) va table_fits (omega arith)
              (omega arith),
          whole,
        )
        refl

  pub store_virtual_lem :
      (m : Machine H) (va v : ℕ)
      → MapsVectors ttb l2 table domain m
      → va / 2 ^ 12 ≡ 0xffff0
      → store_virtual va v m ≡ done tt (record m { mem = write m.mem (table + va % 2 ^ 12) v })
  unfolding store_virtual
  store_virtual_lem m va v maps inside = rw (walk-MapsVectors m va maps inside) refl
