-- ===== src/Mmu/Coarse/Remap.antt =====
-- What one call of `Map4KBPage` or `Map64KBPage` makes of the whole address space.
use nspire_utils.Base.{
  ℕ, ◌+◌, ◌*◌, ◌/◌, ◌%◌, ◌^◌, ◌<◌, ◌&&◌, some, ◌≡◌, ◌≢◌, arith, ◌==◌, if◌then◌else◌, ==→eq,
}
use nspire_utils.Machine.{Machine, done}
use nspire_utils.Machine.Store.{write_ne, store_range-outside}
use nspire_utils.Mmu.Walk.{walk, TableOutside}
use nspire_utils.Mmu.Editor.{MmuEditor}
use nspire_utils.Mmu.Coarse.{
  CoarseEditor, small_page_descriptor, large_page_descriptor, map_4kb_page, map_64kb_page,
}
use nspire_utils.Mmu.Coarse.PageEntry.{page_mapping}
use nspire_utils.Mmu.Coarse.Pages.{
  small_mapped, large_mapped, map_4kb_page_lem, map_64kb_page_lem, map_4kb_page-walk,
  map_64kb_page-walk,
}
use nspire_utils.Mmu.Coarse.Attached.{
  Attached, small_mapped-WritesTable, large_mapped-WritesTable, WritesTable-walk,
}

module _ {H : Type 0} (e : MmuEditor) (c : CoarseEditor) (domain : ℕ) (m : Machine H)
    (at : Attached e c domain m) (va pa attributes : ℕ) (fits : pa < 2 ^ 32)
    (small : attributes < 2 ^ 12) (clear : attributes % 4 ≡ 0) where
  module _ (va' : ℕ) (va_fits : va' < 2 ^ 32)
      (outside : va' / 2 ^ 20 ≢ c.virtual_addr / 2 ^ 20
        → TableOutside c.l2_table (2 ^ 10) (m.mem (e.edited_table + 4 * (va' / 2 ^ 20)))) where
    -- `Map4KBPage` of an editor whose table stands in a live parent's, with attributes in bits 2 to 11,
    -- returns, and then every 32-bit address whose second-level table, if any, is apart from the
    -- editor's means: in the page of that number in the editor's megabyte the same offset of the
    -- physical page, with the subpage permission and policy of the attributes and the editor's
    -- domain; everywhere else what it meant before.
    pub walk-map_4kb_page :
        let m' = small_mapped c m at.held va pa attributes in
        (map_4kb_page c va pa attributes m ≡ done tt m')
        × (walk m'.mem m'.ttbr0 va' ≡ (
            if va' / 2 ^ 20 == c.virtual_addr / 2 ^ 20 && (va' / 2 ^ 12 % 256 == va / 2 ^ 12 % 256)
            then some (
                page_mapping
                  (pa / 2 ^ 12 * 2 ^ 12 + va' % 2 ^ 12)
                  (va' / 2 ^ 10 % 4)
                  attributes
                  (domain % 16))
            else walk m.mem m.ttbr0 va'))
    walk-map_4kb_page = (
      map_4kb_page_lem c m at.held va pa attributes,
      WritesTable-walk e c domain (va' / 2 ^ 12 % 256 == va / 2 ^ 12 % 256) at
          (small_mapped-WritesTable c m va pa attributes at.held) va_fits outside
          (λ hit.
            (map_4kb_page-walk c m at.held va pa attributes fits small clear (domain % 16) va'
              (==→eq (va' / 2 ^ 12 % 256) (va / 2 ^ 12 % 256) hit)).1)
          (λ miss. write_ne m.mem _ (small_page_descriptor pa attributes) _ (ground arith)),
    )

    -- `Map64KBPage` does the same for the sixteen entries of a page of 64 KB.
    pub walk-map_64kb_page :
        let m' = large_mapped c m at.held va pa attributes in
        (map_64kb_page c va pa attributes m ≡ done tt m')
        × (walk m'.mem m'.ttbr0 va' ≡ (
            if va' / 2 ^ 20 == c.virtual_addr / 2 ^ 20 && (va' / 2 ^ 16 % 16 == va / 2 ^ 16 % 16)
            then some (
                page_mapping
                  (pa / 2 ^ 16 * 2 ^ 16 + va' % 2 ^ 16)
                  (va' / 2 ^ 14 % 4)
                  attributes
                  (domain % 16))
            else walk m.mem m.ttbr0 va'))
    walk-map_64kb_page = (
      map_64kb_page_lem c m at.held va pa attributes,
      WritesTable-walk e c domain (va' / 2 ^ 16 % 16 == va / 2 ^ 16 % 16) at
          (large_mapped-WritesTable c m va pa attributes at.held) va_fits outside
          (λ hit.
            (map_64kb_page-walk c m at.held va pa attributes fits small clear (domain % 16) va'
              (==→eq (va' / 2 ^ 16 % 16) (va / 2 ^ 16 % 16) hit)).1)
          (λ miss.
            store_range-outside c.l2_table (va / 2 ^ 16 % 16 * 16) 16
              (λ i. large_page_descriptor pa attributes) m.mem _ (ground arith)),
    )
