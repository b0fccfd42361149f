-- ===== src/Mmu/Coarse/Pages.antt =====
-- `Map4KBPage` and `Map64KBPage`: the entries they write, and what they do besides.
use nspire_utils.Base.{ℕ, ◌+◌, ◌-◌, ◌*◌, ◌/◌, ◌%◌, ◌^◌, ◌≤◌, ◌<◌, some, ◌∷◌, ◌≡◌, ◌≢◌, arith, ne→==}
use nspire_utils.Word.{add32}
use nspire_utils.Machine.{
  Machine, done, write, store_range, drain_write_buffer, invalidate_tlb, clean_dcache_line,
}
use nspire_utils.Machine.Store.{write_self, store_range-inside}
use nspire_utils.Caches.{invalidate_tlbs}
use nspire_utils.Caches.Range.{flush_data_cache_range_lem, lines, line_count}
use nspire_utils.Alloc.{nullptr}
use nspire_utils.Mmu.Walk.{walk_page}
use nspire_utils.Mmu.Coarse.{
  CoarseEditor, small_page_descriptor, large_page_descriptor, map_4kb_page, map_64kb_page,
}
use nspire_utils.Mmu.Coarse.PageEntry.{
  small_index_lem, large_index_lem, page_mapping, small_page_walk, large_page_walk,
}

-- The editor holds a second-level table.
pub record HasTable (c : CoarseEditor) : Type 0 where
  pub installed : c.l2_table ≢ 0
  pub aligned : c.l2_table % 2 ^ 10 ≡ 0
  pub below : c.l2_table + 2 ^ 10 ≤ 2 ^ 32 - 32

module _ {H : Type 0} (c : CoarseEditor) (m : Machine H) (held : HasTable c)
    (va pa attributes : ℕ) where
  abbrev small_slot : ℕ
  small_slot = c.l2_table + 4 * (va / 2 ^ 12 % 256)

  abbrev large_slot : ℕ
  large_slot = c.l2_table + 4 * (va / 2 ^ 16 % 16 * 16)

  abbrev pub small_mapped : Machine H
  small_mapped = record m {
    mem = write m.mem small_slot (small_page_descriptor pa attributes);
    ops = drain_write_buffer ∷ invalidate_tlb ∷ clean_dcache_line (small_slot / 32 * 32) ∷ m.ops;
  }

  abbrev pub large_mapped : Machine H
  large_mapped = record m {
    mem =
        store_range c.l2_table (va / 2 ^ 16 % 16 * 16) 16 (λ i. large_page_descriptor pa attributes)
          m.mem;
    ops =
        drain_write_buffer
        ∷ invalidate_tlb
        ∷ lines clean_dcache_line (large_slot / 32 * 32) (line_count large_slot (large_slot + 64))
            m.ops;
  }

  -- `Map4KBPage` on an editor that holds a table returns with one entry written, cleaned and made
  -- visible, whatever the attributes.
  pub map_4kb_page_lem : map_4kb_page c va pa attributes m ≡ done tt small_mapped
  unfolding map_4kb_page invalidate_tlbs lines
  map_4kb_page_lem =
      let installed = held.installed in
      let aligned = held.aligned in
      let below = held.below in
      let next : add32 small_slot 4 ≡ small_slot + 4 = omega arith in
      let one : line_count small_slot (small_slot + 4) ≡ 1 = omega arith in
      rw (
        ne→== c.l2_table nullptr installed,
        small_index_lem va,
        next,
        flush_data_cache_range_lem small_slot (small_slot + 4)
            (record m { mem = write m.mem small_slot (small_page_descriptor pa attributes) })
            (omega arith) (omega arith),
        one,
      )

  -- `Map64KBPage` writes the same descriptor to all sixteen entries of the page, cleans their cache
  -- lines and makes them visible.
  pub map_64kb_page_lem : map_64kb_page c va pa attributes m ≡ done tt large_mapped
  unfolding map_64kb_page invalidate_tlbs
  map_64kb_page_lem =
      let installed = held.installed in
      let aligned = held.aligned in
      let below = held.below in
      let next : add32 large_slot 64 ≡ large_slot + 64 = omega arith in
      rw (
        ne→== c.l2_table nullptr installed,
        large_index_lem va,
        next,
        flush_data_cache_range_lem large_slot (large_slot + 64)
            (record m {
              mem =
                  store_range c.l2_table (va / 2 ^ 16 % 16 * 16) 16
                    (λ i. large_page_descriptor pa attributes) m.mem;
            })
            (omega arith) (omega arith),
      )

  module _ (fits : pa < 2 ^ 32) (small : attributes < 2 ^ 12) (clear : attributes % 4 ≡ 0) where
    -- `Map4KBPage` on an editor that holds a table returns, and the entry that it writes takes every
    -- address of the page to the same offset of the physical page, with the attributes' subpage
    -- permission and cache policy. The attributes lie in bits 2 to 11.
    pub map_4kb_page-walk :
        (domain va' : ℕ)
        → va' / 2 ^ 12 % 256 ≡ va / 2 ^ 12 % 256
        → (map_4kb_page c va pa attributes m ≡ done tt small_mapped)
          × (walk_page (small_mapped.mem (c.l2_table + 4 * (va' / 2 ^ 12 % 256))) domain va'
              ≡ some (
                  page_mapping
                    (pa / 2 ^ 12 * 2 ^ 12 + va' % 2 ^ 12)
                    (va' / 2 ^ 10 % 4)
                    attributes
                    domain))
    map_4kb_page-walk domain va' same = (
      map_4kb_page_lem,
      rw (same, write_self m.mem small_slot (small_page_descriptor pa attributes))
          (small_page_walk pa attributes domain va' fits small clear),
    )

    -- `Map64KBPage` on an editor that holds a table returns, and each of the sixteen entries that it
    -- writes takes every address of the 64 KB page to the same offset of the physical page.
    pub map_64kb_page-walk :
        (domain va' : ℕ)
        → va' / 2 ^ 16 % 16 ≡ va / 2 ^ 16 % 16
        → (map_64kb_page c va pa attributes m ≡ done tt large_mapped)
          × (walk_page (large_mapped.mem (c.l2_table + 4 * (va' / 2 ^ 12 % 256))) domain va'
              ≡ some (
                  page_mapping
                    (pa / 2 ^ 16 * 2 ^ 16 + va' % 2 ^ 16)
                    (va' / 2 ^ 14 % 4)
                    attributes
                    domain))
    map_64kb_page-walk domain va' same = (
      map_64kb_page_lem,
      rw
          (store_range-inside c.l2_table (va / 2 ^ 16 % 16 * 16) 16
            (λ i. large_page_descriptor pa attributes) m.mem (va' / 2 ^ 12 % 256) (omega arith)
            (omega arith))
          (large_page_walk pa attributes domain va' fits small clear),
    )
