-- ===== src/Sram/Construct.antt =====
-- The constructor of the accessor, on each of its ways.
use nspire_utils.Base.{
  ℕ, ◌+◌, ◌-◌, ◌*◌, ◌/◌, ◌%◌, ◌^◌, ◌≤◌, ◌<◌, ◌∷◌, true, false, Option, some, ◌≡◌, ◌≢◌, ◌⊎◌, refl,
  ap, ◌∙◌, arith, ne→==, eq→==,
}
use nspire_utils.Word.{add32}
use nspire_utils.Machine.{
  Machine, M, done, throw, runtime_error, write, drain_write_buffer, clean_dcache_line,
}
use nspire_utils.Machine.Store.{write_ne}
use nspire_utils.Caches.{drain_writes}
use nspire_utils.Caches.Range.{flush_data_cache_range_lem, lines, line_count}
use nspire_utils.Alloc.{Platform, nullptr}
use nspire_utils.Alloc.Block.{Grants, aligned_alloc_lem}
use nspire_utils.Mmu.Walk.{walk, Disjoint}
use nspire_utils.Mmu.Fields.{mapped_address_lem, domain_from_entry_lem}
use nspire_utils.Mmu.Descriptor.{
  MmuAccessPermission, full_access, MmuCachePolicy, non_cached_non_buffered,
}
use nspire_utils.Mmu.Editor.{MmuEditor}
use nspire_utils.Mmu.Editor.Section.{IsLive, get_entry_lem}
use nspire_utils.Sram.{
  SramAccessor, sram_physical_address, construct, clone_and_remap, check_and_remap,
}
use nspire_utils.Sram.Copy.{
  SectionAt, SectionAt-write, copied, copied-inside, copied-outside, virtual_memcpy_lem,
  entry_address,
}
use nspire_utils.Sram.Attributes.{mapped_section}
use nspire_utils.Sram.Remap.{
  table-outside, IsLive-same, AreCallbacks, remap_lem, walk-remap, remapped,
}

module _ {H : Type 0} (p : Platform H) (e : MmuEditor) (m : Machine H) {raw : ℕ} {heap' : H}
    (live : IsLive e m) (grant : Grants p (2 ^ 18 + 2 ^ 20 + 3) m.heap raw heap')
    (high : raw + 2 ^ 18 + 2 ^ 20 + 3 ≤ 2 ^ 32 - 32)
    (apart : Disjoint e.edited_table (2 ^ 14) raw (2 ^ 18 + 2 ^ 20 + 3)) where
  -- The clone that the allocator cuts out of the raw block.
  abbrev pub cloned_block : ℕ
  cloned_block = (raw + 2 ^ 20 + 3) / 2 ^ 20 * 2 ^ 20

  -- The state with the clone filled from the physical address `from` and cleaned out of the cache.
  abbrev pub filled : ℕ → Machine H
  filled from = record m {
    mem = copied cloned_block from (2 ^ 16) (write m.mem (cloned_block - 4) raw);
    ops =
        drain_write_buffer
        ∷ lines clean_dcache_line (cloned_block / 32 * 32)
            (line_count cloned_block (cloned_block + 2 ^ 18)) m.ops;
    heap = heap';
  }

  pub block_facts :
      (cloned_block % 2 ^ 20 ≡ 0)
      × (raw + 4 ≤ cloned_block)
      × (cloned_block + 2 ^ 18 ≤ raw + (2 ^ 18 + 2 ^ 20 + 3))
  block_facts =
      let (_, align, low, fits) =
        aligned_alloc_lem p 20 (2 ^ 18) m (omega arith) (omega arith) (omega arith) grant in
      (align, low, fits)

  pub filled-outside :
      (from a : ℕ) → (a < raw) ⊎ (raw + (2 ^ 18 + 2 ^ 20 + 3) ≤ a) → (filled from).mem a ≡ m.mem a
  filled-outside from a out =
      let (_, low, fits) = block_facts in
      copied-outside cloned_block from (2 ^ 16) (write m.mem (cloned_block - 4) raw) a (omega arith)
      ∙ write_ne m.mem (cloned_block - 4) raw a (omega arith)

  module _ {from : ℕ} (sram_at : SectionAt m.mem m.ttbr0 sram_physical_address from)
      (block_at : SectionAt m.mem m.ttbr0 cloned_block cloned_block) where
    -- The constructor up to its tests.
    construct-filled :
        (new : ℕ) (disable : Option (M H ℕ)) (enable : Option (ℕ → M H (Unit {0})))
        (permission : MmuAccessPermission) (policy : MmuCachePolicy) (domain : ℕ)
        → construct p e new disable enable permission policy domain m
          ≡ check_and_remap e
              (record {
                original_sram_domain = 0;
                cloned_sram_block = cloned_block;
                new_sram_address = new;
                disable_interrupts = disable;
                enable_interrupts = enable;
                init_successful = false;
              })
              permission
              policy
              domain
              (m.mem (e.edited_table + 4 * 2624))
              (filled from)
    unfolding construct clone_and_remap drain_writes
    construct-filled new disable enable permission policy domain =
        let aligned = live.aligned in
        let below = live.below in
        let current = live.current in
        let (allocated, align, low, fits) =
          aligned_alloc_lem p 20 (2 ^ 18) m (omega arith) (omega arith) (omega arith) grant in
        let m₁ : Machine H = record m { mem = write m.mem (cloned_block - 4) raw; heap = heap' } in
        let m₂ : Machine H = record m₁ { mem = copied cloned_block from (2 ^ 16) m₁.mem } in
        let next : add32 cloned_block (2 ^ 18) ≡ cloned_block + 2 ^ 18 = omega arith in
        rw
          (
            allocated,
            ne→== cloned_block nullptr (omega arith),
            virtual_memcpy_lem cloned_block sram_physical_address cloned_block from (2 ^ 16) m₁
                (SectionAt-write (cloned_block - 4) raw (omega arith) (omega arith) block_at)
                (SectionAt-write (cloned_block - 4) raw (omega arith) (omega arith) sram_at)
                (omega arith) (omega arith) (omega arith) (omega arith) (omega arith),
            next,
            flush_data_cache_range_lem cloned_block (cloned_block + 2 ^ 18) m₂ (omega arith)
                (omega arith),
            get_entry_lem e (filled from) (IsLive-same refl live) sram_physical_address,
            filled-outside from (e.edited_table + 4 * 2624) (omega arith),
          )
          refl

    -- Where the entry of the SRAM is a section of another megabyte, the constructor throws
    -- `runtime_error` in the state behind the copy: the heap that the allocation left, with the
    -- block still taken.
    pub construct-not_identity :
        (new : ℕ) (disable : Option (M H ℕ)) (enable : Option (ℕ → M H (Unit {0})))
        (permission : MmuAccessPermission) (policy : MmuCachePolicy) (domain : ℕ)
        → m.mem (e.edited_table + 4 * 2624) < 2 ^ 32
        → from / 2 ^ 20 ≢ sram_physical_address / 2 ^ 20
        → construct p e new disable enable permission policy domain m
          ≡ throw (runtime_error "SRAM region is not identity mapped") (filled from)
    unfolding check_and_remap
    construct-not_identity new disable enable permission policy domain word other =
        let current = live.current in
        let is_section = sram_at.is_section in
        let frame = sram_at.frame in
        let entry = m.mem (e.edited_table + 4 * 2624) in
        let same : entry ≡ m.mem (entry_address m.ttbr0 sram_physical_address) =
          ap m.mem (omega arith) in
        construct-filled new disable enable permission policy domain
        ∙ rw
            (
              ne→== entry 0xffffffff (omega arith),
              mapped_address_lem entry word,
              ne→== (entry / 2 ^ 20 * 2 ^ 20) sram_physical_address (omega arith),
            )
            refl

  module _ (sram_at : SectionAt m.mem m.ttbr0 sram_physical_address sram_physical_address)
      (block_at : SectionAt m.mem m.ttbr0 cloned_block cloned_block) (new : ℕ)
      {disable : Option (M H ℕ)} {enable : Option (ℕ → M H (Unit {0}))}
      (permission : MmuAccessPermission) (policy : MmuCachePolicy) (domain : ℕ) {mask : ℕ}
      (word : m.mem (e.edited_table + 4 * 2624) < 2 ^ 32) (calls : AreCallbacks disable enable mask)
      (new_fits : new < 2 ^ 32) where
    -- The domain of the SRAM's own entry, and the object.
    abbrev pub old_domain : ℕ
    old_domain = m.mem (e.edited_table + 4 * 2624) / 2 ^ 5 % 16

    abbrev pub accessor : SramAccessor H
    accessor = record {
      original_sram_domain = old_domain;
      cloned_sram_block = cloned_block;
      new_sram_address = new;
      disable_interrupts = disable;
      enable_interrupts = enable;
      init_successful = true;
    }

    abbrev pub moved : Machine H
    moved =
        remapped e cloned_block old_domain new permission policy domain
          (filled sram_physical_address)

    pub construct_lem :
        construct p e new disable enable permission policy domain m ≡ done accessor moved
    unfolding check_and_remap
    construct_lem =
        let current = live.current in
        let is_section = sram_at.is_section in
        let frame = sram_at.frame in
        let entry = m.mem (e.edited_table + 4 * 2624) in
        let same : entry ≡ m.mem (entry_address m.ttbr0 sram_physical_address) =
          ap m.mem (omega arith) in
        let (_, low, fits) = block_facts in
        construct-filled sram_at block_at new disable enable permission policy domain
        ∙ rw
            (
              ne→== entry 0xffffffff (omega arith),
              mapped_address_lem entry word,
              eq→== (entry / 2 ^ 20 * 2 ^ 20) sram_physical_address (omega arith),
              domain_from_entry_lem entry,
            )
            (remap_lem e (record accessor { init_successful = false }) permission policy domain
              (filled sram_physical_address) (IsLive-same refl live) calls (omega arith) new_fits)

    -- On a live editor and a new address in a megabyte that is neither that of address 0 nor that
    -- of the SRAM, with a granted block below the last cache lines and apart from the first-level
    -- table and from the SRAM, both mapped to themselves by sections, and with callbacks that
    -- change nothing modelled, `SRAM_Accessor` returns: the clone holds the words of the SRAM, the
    -- megabytes of the SRAM and of address 0 go to the clone, uncached and with full access, and
    -- the megabyte of the new address goes to the SRAM with the permission and cache policy that
    -- were asked for and the low four bits of the domain.
    pub construct-moves_sram :
        (i o : ℕ)
        → i < 2 ^ 16
        → o < 2 ^ 20
        → Disjoint sram_physical_address (2 ^ 18) raw (2 ^ 18 + 2 ^ 20 + 3)
        → new / 2 ^ 20 ≢ 0
        → new / 2 ^ 20 ≢ sram_physical_address / 2 ^ 20
        → (construct p e new disable enable permission policy domain m ≡ done accessor moved)
          × IsLive e moved
          × (moved.mem (cloned_block + 4 * i) ≡ m.mem (sram_physical_address + 4 * i))
          × (walk moved.mem moved.ttbr0 (sram_physical_address + o)
              ≡ some (
                  mapped_section cloned_block full_access non_cached_non_buffered old_domain
                    (sram_physical_address + o)))
          × (walk moved.mem moved.ttbr0 o
              ≡ some (mapped_section cloned_block full_access non_cached_non_buffered old_domain o))
          × (walk moved.mem moved.ttbr0 (new / 2 ^ 20 * 2 ^ 20 + o)
              ≡ some (
                  mapped_section sram_physical_address permission policy domain
                    (new / 2 ^ 20 * 2 ^ 20 + o)))
    construct-moves_sram i o below small clear not_zero not_sram =
        let aligned = live.aligned in
        let (align, low, fits) = block_facts in
        let (at_sram, at_zero, at_new) =
          walk-remap e accessor permission policy domain (filled sram_physical_address)
            (IsLive-same refl live) calls (omega arith) new_fits o small not_zero not_sram in
        (
          construct_lem,
          IsLive-same refl live,
          table-outside (filled sram_physical_address).mem e.edited_table (new / 2 ^ 20) _ _
                (cloned_block + 4 * i) not_zero not_sram (omega arith) (omega arith)
              ∙ copied-inside cloned_block sram_physical_address (2 ^ 16)
                  (write m.mem (cloned_block - 4) raw) i (omega arith) below
              ∙ write_ne m.mem (cloned_block - 4) raw (sram_physical_address + 4 * i) (omega arith),
          at_sram,
          at_zero,
          at_new,
        )
