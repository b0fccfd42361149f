-- ===== src/Mmu/Coarse/Life.antt =====
-- The life of a `MMUL2CoarsePageTableEditor`: the table that it puts in keeps every address of its
-- megabyte where it was, and its destructor puts the old entry back.
use nspire_utils.Base.{
  ℕ, ◌+◌, ◌-◌, ◌*◌, ◌/◌, ◌%◌, ◌^◌, ◌≤◌, ◌<◌, bit_and, ◌≡◌, ◌≢◌, ◌∙◌, arith, ne→==, eq→==,
}
use nspire_utils.Word.{add32}
use nspire_utils.Word.Mask.{bit_and_low}
use nspire_utils.Machine.{Machine, done, throw, runtime_error, write, clean_dcache_line}
use nspire_utils.Machine.Store.{write_self, write_ne}
use nspire_utils.Caches.Range.{flush_data_cache_range_lem, lines, line_count}
use nspire_utils.Alloc.{Platform, nullptr}
use nspire_utils.Alloc.Block.{Grants, aligned_alloc_lem, aligned_free_lem}
use nspire_utils.Mmu.Walk.{
  walk, walk_entry, walk_entry_frame, walk_page, l2_base, Disjoint, TableOutside,
}
use nspire_utils.Mmu.Editor.{MmuEditor}
use nspire_utils.Mmu.Editor.Section.{IsLive, after_put, map_lem, get_entry_lem}
use nspire_utils.Mmu.Coarse.{CoarseEditor, coarse_descriptor, construct, destroy}
use nspire_utils.Mmu.Coarse.Split.{
  coarse_descriptor-base, coarse_descriptor-type, coarse_descriptor-domain,
}
use nspire_utils.Mmu.Coarse.Fill.{filled, fill_lem, filled-walk, retag}

-- The walk from a coarse entry goes on with a page's entry.
pub walk_coarse :
    (mem : ℕ → ℕ) (entry va : ℕ)
    → entry % 4 ≡ 1
    → walk_entry mem entry va
      ≡ walk_page (mem (l2_base entry + 4 * (va / 2 ^ 12 % 256))) (entry / 2 ^ 5 % 16) va
unfolding walk_entry
walk_coarse mem entry va h = rw h

module _ {H : Type 0} (p : Platform H) (e : MmuEditor) (m : Machine H) (live : IsLive e m)
    (va domain : ℕ) (va_fits : va < 2 ^ 32) where
  -- The address and the present value of the first-level entry of `va`.
  abbrev pub slot : ℕ
  slot = e.edited_table + 4 * (va / 2 ^ 20)

  abbrev pub old_entry : ℕ
  old_entry = m.mem slot

  -- An entry that names a fine table cannot be taken over: the constructor throws before it asks
  -- the heap, and the state is as it was.
  construct-fine :
      old_entry % 4 ≡ 3
      → construct p e va domain m ≡ throw (runtime_error "Cannot copy fine page table") m
  unfolding construct
  construct-fine kind =
      rw (get_entry_lem e m live va, eq→== (bit_and old_entry 3) 3 (bit_and_low 2 old_entry ∙ kind))

  module _ {raw : ℕ} {heap' : H} (word : old_entry < 2 ^ 32) (kind : old_entry % 4 ≢ 3)
      (grant : Grants p (2 ^ 10 + 2 ^ 10 + 3) m.heap raw heap')
      (high : raw + 2 ^ 11 + 3 ≤ 2 ^ 32 - 32)
      (apart : Disjoint e.edited_table (2 ^ 14) raw (2 ^ 11 + 3)) where
    abbrev pub new_table : ℕ
    new_table = (raw + 2 ^ 10 + 3) / 2 ^ 10 * 2 ^ 10

    abbrev pub new_editor : CoarseEditor
    new_editor = record { virtual_addr = va; old_l1_entry = old_entry; l2_table = new_table }

    abbrev pub allocated : Machine H
    allocated = record m { mem = write m.mem (new_table - 4) raw; heap = heap' }

    abbrev pub flushed : Machine H
    flushed = record allocated {
      mem = filled old_entry new_table allocated.mem;
      ops =
          lines clean_dcache_line (new_table / 32 * 32) (line_count new_table (new_table + 2 ^ 10))
            m.ops;
    }

    abbrev pub replaced_state : Machine H
    replaced_state = after_put slot (coarse_descriptor new_table domain) flushed

    pub table_facts :
        (new_table % 2 ^ 10 ≡ 0) × (raw + 4 ≤ new_table) × (new_table + 2 ^ 10 ≤ raw + (2 ^ 11 + 3))
    table_facts =
        let (_, align, low, fits) =
          aligned_alloc_lem p 10 (2 ^ 10) m (omega arith) (omega arith) (omega arith) grant in
        (align, low, omega arith)

    IsLive-flushed : IsLive e flushed
    IsLive-flushed = record {
      installed = live.installed;
      aligned = live.aligned;
      below = live.below;
      current = live.current;
    }

    pub construct_lem : construct p e va domain m ≡ done new_editor replaced_state
    unfolding construct
    construct_lem =
        let (got, _, _, _) =
          aligned_alloc_lem p 10 (2 ^ 10) m (omega arith) (omega arith) (omega arith) grant in
        let (align, low, fits) = table_facts in
        let next : add32 new_table 1024 ≡ new_table + 2 ^ 10 = omega arith in
        let other : bit_and old_entry 3 ≢ 3 = λ c. kind (omega (arith, bit_and_low 2 old_entry)) in
        rw (
          get_entry_lem e m live va,
          ne→== (bit_and old_entry 3) 3 other,
          got,
          ne→== new_table nullptr (omega arith),
          fill_lem old_entry new_table allocated word,
          next,
          flush_data_cache_range_lem new_table (new_table + 2 ^ 10)
              (record allocated { mem = filled old_entry new_table allocated.mem }) (omega arith)
              (omega arith),
          map_lem e flushed IsLive-flushed va (coarse_descriptor new_table domain) va_fits,
        )

    -- The first-level entry that the constructor leaves, and the second-level one of an address.
    slot_after : replaced_state.mem slot ≡ coarse_descriptor new_table domain
    slot_after = write_self flushed.mem slot (coarse_descriptor new_table domain)

    page_after :
        (i : ℕ) → i < 256 → replaced_state.mem (new_table + 4 * i) ≡ flushed.mem (new_table + 4 * i)
    page_after i h =
        let (align, low, fits) = table_facts in
        let aligned = live.aligned in
        write_ne flushed.mem slot (coarse_descriptor new_table domain) (new_table + 4 * i)
          (omega arith)

    -- The old entry means under the new store what it meant under the old one.
    old_walk :
        (va' : ℕ)
        → TableOutside raw (2 ^ 11 + 3) old_entry
        → walk_entry allocated.mem old_entry va' ≡ walk_entry m.mem old_entry va'
    old_walk va' outside =
        let (align, low, fits) = table_facts in
        walk_entry_frame m.mem allocated.mem old_entry va' (λ c.
          write_ne m.mem (new_table - 4) raw _ (header_ne _ (va' / 2 ^ 12) (outside c) low fits))
      where
        header_ne :
            (b i : ℕ)
            → Disjoint b (2 ^ 10) raw (2 ^ 11 + 3)
            → raw + 4 ≤ new_table
            → new_table + 2 ^ 10 ≤ raw + (2 ^ 11 + 3)
            → b + 4 * (i % 256) ≢ new_table - 4
        header_ne b i h low fits = omega arith

    -- The constructor of the coarse editor returns on a fault, section or coarse entry, and the MMU
    -- takes every address of that megabyte where it took it before: to the same physical address
    -- or to a fault, with the same permission and cache policy. Only the domain is the one asked
    -- for, cut to four bits. The heap must grant a block that touches neither the first-level table
    -- nor the second-level table that it copies.
    pub coarse_construct-walk :
        (va' : ℕ)
        → va' / 2 ^ 20 ≡ va / 2 ^ 20
        → TableOutside raw (2 ^ 11 + 3) old_entry
        → (construct p e va domain m ≡ done new_editor replaced_state)
          × (walk replaced_state.mem replaced_state.ttbr0 va'
              ≡ retag (domain % 16) (walk m.mem m.ttbr0 va'))
    unfolding walk
    coarse_construct-walk va' same outside =
        let (align, low, fits) = table_facts in
        let fits_word : new_table < 2 ^ 32 = omega arith in
        (
          construct_lem,
          rw (
            live.current,
            same,
            slot_after,
            walk_coarse replaced_state.mem (coarse_descriptor new_table domain) va'
                (coarse_descriptor-type new_table domain fits_word align),
            coarse_descriptor-base new_table domain fits_word align,
            coarse_descriptor-domain new_table domain fits_word align,
            page_after (va' / 2 ^ 12 % 256) (omega arith),
            filled-walk old_entry new_table (domain % 16) va' allocated.mem word kind,
            old_walk va' outside,
          ),
        )

    -- Whatever was done meanwhile, as long as the parent is still live and nobody wrote over the
    -- allocator's header, the destructor puts the old first-level entry back and frees the raw block.
    pub destroy_lem :
        (m' : Machine H)
        → IsLive e m'
        → m'.mem (new_table - 4) ≡ raw
        → destroy p e new_editor m'
          ≡ done
              (record new_editor { l2_table = nullptr })
              (record (after_put slot old_entry m') { heap = p.free raw m'.heap })
    unfolding destroy
    destroy_lem m' live' header =
        let (align, low, fits) = table_facts in
        let aligned = live.aligned in
        rw (
          ne→== new_table nullptr (omega arith),
          map_lem e m' live' va old_entry va_fits,
          aligned_free_lem p new_table (after_put slot old_entry m') (omega arith) (omega arith),
          write_ne m'.mem slot old_entry (new_table - 4) (omega arith),
          header,
        )

    -- Whatever was done meanwhile, as long as the parent is still live and nobody wrote over the
    -- allocator's header, the destructor puts the old first-level entry back, so that the MMU takes
    -- every address of the megabyte where that entry says, and gives the raw block back to the heap.
    coarse_destroy-construct :
        (m' : Machine H) (va' : ℕ)
        → IsLive e m'
        → m'.mem (new_table - 4) ≡ raw
        → va' / 2 ^ 20 ≡ va / 2 ^ 20
        → TableOutside e.edited_table (2 ^ 14) old_entry
        → let m'' = record (after_put slot old_entry m') { heap = p.free raw m'.heap } in
          (destroy p e new_editor m' ≡ done (record new_editor { l2_table = nullptr }) m'')
          × (walk m''.mem m''.ttbr0 va' ≡ walk_entry m'.mem old_entry va')
    unfolding walk
    coarse_destroy-construct m' va' live' header same outside = (
      destroy_lem m' live' header,
      rw (live'.current, same, write_self m'.mem slot old_entry)
          (walk_entry_frame m'.mem (write m'.mem slot old_entry) old_entry va'
            (λ c. write_ne m'.mem slot old_entry _ (slot_ne _ (va' / 2 ^ 12) (outside c)))),
    )
      where
        slot_ne : (b i : ℕ) → Disjoint b (2 ^ 10) e.edited_table (2 ^ 14) → b + 4 * (i % 256) ≢ slot
        slot_ne b i h = omega arith
