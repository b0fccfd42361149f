-- ===== src/Sram/Life.antt =====
-- The accessor from its construction to its destruction.
use nspire_utils.Base.{
  ℕ, ◌+◌, ◌-◌, ◌*◌, ◌/◌, ◌%◌, ◌^◌, ◌≤◌, ◌<◌, Option, none, some, ◌≡◌, ◌≢◌, refl, ap, ◌∙◌, arith,
}
use nspire_utils.Machine.{Machine, M, done, ◌>>=◌}
use nspire_utils.Alloc.{Platform, nullptr}
use nspire_utils.Alloc.Block.{Grants}
use nspire_utils.Mmu.Walk.{walk, Disjoint}
use nspire_utils.Mmu.Descriptor.{
  MmuAccessPermission, full_access, MmuCachePolicy, write_back_cache, non_cached_non_buffered,
}
use nspire_utils.Mmu.Editor.{MmuEditor, section_descriptor}
use nspire_utils.Mmu.Editor.Section.{IsLive, section_address, section_type}
use nspire_utils.Machine.Store.{write_self}
use nspire_utils.Sram.{SramAccessor, sram_physical_address, section_attributes, construct, destroy}
use nspire_utils.Sram.Copy.{SectionAt, copied-outside, entry_address}
use nspire_utils.Sram.Attributes.{attributes_small, attributes_clear, mapped_section}
use nspire_utils.Sram.Remap.{
  AreCallbacks, IsLive-same, table-zero, table-new, table-elsewhere, table-outside,
}
use nspire_utils.Sram.Construct.{
  cloned_block, filled, block_facts, filled-outside, old_domain, accessor, moved,
  construct-moves_sram,
}
use nspire_utils.Sram.Destroy.{released, destroy-restores_sram}

module _ {H : Type 0} (p : Platform H) (e : MmuEditor) (m : Machine H) {raw : ℕ} {heap' : H}
    (live : IsLive e m) (grant : Grants p (2 ^ 18 + 2 ^ 20 + 3) m.heap raw heap')
    (high : raw + 2 ^ 18 + 2 ^ 20 + 3 ≤ 2 ^ 32 - 32)
    (apart : Disjoint e.edited_table (2 ^ 14) raw (2 ^ 18 + 2 ^ 20 + 3))
    (sram_at : SectionAt m.mem m.ttbr0 sram_physical_address sram_physical_address)
    (block_at : SectionAt m.mem m.ttbr0
      (cloned_block p e m live grant high apart)
      (cloned_block p e m live grant high apart))
    (new : ℕ) {disable : Option (M H ℕ)} {enable : Option (ℕ → M H (Unit {0}))}
    (permission : MmuAccessPermission) (policy : MmuCachePolicy) (domain : ℕ) {mask : ℕ}
    (word : m.mem (e.edited_table + 4 * 2624) < 2 ^ 32) (calls : AreCallbacks disable enable mask)
    (new_fits : new < 2 ^ 32)
    (clear : Disjoint sram_physical_address (2 ^ 18) raw (2 ^ 18 + 2 ^ 20 + 3))
    (not_zero : new / 2 ^ 20 ≢ 0) (not_sram : new / 2 ^ 20 ≢ sram_physical_address / 2 ^ 20)
    (not_block : new / 2 ^ 20 ≢ cloned_block p e m live grant high apart / 2 ^ 20)
    (new_aligned : new % 2 ^ 20 ≡ 0)
    (table_apart : Disjoint e.edited_table (2 ^ 14) sram_physical_address (2 ^ 18)) where
  abbrev block : ℕ
  block = cloned_block p e m live grant high apart

  abbrev object : SramAccessor H
  object =
      accessor p e m live grant high apart sram_at block_at new permission policy domain word calls
        new_fits

  abbrev in_place : Machine H
  in_place =
      moved p e m live grant high apart sram_at block_at new permission policy domain word calls
        new_fits

  abbrev copy : Machine H
  copy = filled p e m live grant high apart sram_physical_address

  in_place-block : SectionAt in_place.mem in_place.ttbr0 block block
  in_place-block =
      let current = live.current in
      let (align, low, fits) = block_facts p e m live grant high apart in
      let same : in_place.mem (entry_address m.ttbr0 block) ≡ m.mem (entry_address m.ttbr0 block) =
        table-elsewhere copy.mem e.edited_table (new / 2 ^ 20) _ _ (entry_address m.ttbr0 block)
          not_zero not_sram (omega arith) (omega arith) (omega arith)
        ∙ filled-outside p e m live grant high apart sram_physical_address
            (entry_address m.ttbr0 block) (omega arith) in
      record {
        is_section = rw same block_at.is_section;
        offset = refl;
        frame = rw same block_at.frame;
      }

  in_place-new : SectionAt in_place.mem in_place.ttbr0 new sram_physical_address
  in_place-new =
      let current = live.current in
      let attributes = section_attributes permission policy domain in
      let small = attributes_small permission policy domain in
      let entry : in_place.mem (entry_address m.ttbr0 new)
          ≡ section_descriptor sram_physical_address attributes =
        table-new copy.mem e.edited_table (new / 2 ^ 20) _ _ (entry_address m.ttbr0 new) not_zero
          not_sram (omega arith) in
      record {
        is_section =
            ap (λ x. x % 4) entry
            ∙ section_type sram_physical_address attributes small (omega arith)
                (attributes_clear permission policy domain);
        offset = omega arith;
        frame =
            ap (λ x. x / 2 ^ 20) entry
            ∙ section_address sram_physical_address attributes small (omega arith);
      }

  in_place-zero : in_place.mem e.edited_table % 4 ≡ 2
  in_place-zero =
      let (align, low, fits) = block_facts p e m live grant high apart in
      let old =
        old_domain p e m live grant high apart sram_at block_at new permission policy domain word
          calls new_fits in
      let attributes = section_attributes full_access non_cached_non_buffered old in
      ap (λ x. x % 4)
        (table-zero copy.mem e.edited_table (new / 2 ^ 20) _ _ e.edited_table not_zero not_sram
          refl)
      ∙ section_type block attributes (attributes_small full_access non_cached_non_buffered old)
          (omega arith) (attributes_clear full_access non_cached_non_buffered old)

  in_place-header : in_place.mem (block - 4) ≡ raw
  in_place-header =
      let (align, low, fits) = block_facts p e m live grant high apart in
      let aligned = live.aligned in
      table-outside copy.mem e.edited_table (new / 2 ^ 20) _ _ (block - 4) not_zero not_sram
        (omega arith) (omega arith)
      ∙ copied-outside block sram_physical_address (2 ^ 16) _ (block - 4) (omega arith)
      ∙ write_self m.mem (block - 4) raw

  block_placed :
      (4 ≤ block) × (block + 2 ^ 18 ≤ 2 ^ 32 - 32) × (block % 2 ^ 20 ≡ 0) × (raw + 4 ≤ block)
  block_placed =
      let (align, low, fits) = block_facts p e m live grant high apart in
      (omega arith, omega arith, align, low)

  -- On a live editor, with a granted block apart from the table and the SRAM, both mapped to
  -- themselves by sections, with a word-sized entry of the SRAM, callbacks that change nothing
  -- modelled, a table apart from the SRAM, and a new address that is a multiple of 2^20 in a
  -- megabyte other than those of address 0, the SRAM and the block: `~SRAM_Accessor` right after
  -- `SRAM_Accessor` returns with the SRAM's words as they were, the SRAM mapped to itself with full
  -- access, write-back cache and its domain, the new megabyte unmapped and the raw block freed.
  pub sram_destroy-construct :
      (i o : ℕ)
      → i < 2 ^ 16
      → o < 2 ^ 20
      → (m' : Machine H) × ((construct p e new disable enable permission policy domain
              >>= destroy p e)
            m
          ≡ done (record object { cloned_sram_block = nullptr }) m')
        × (m'.mem (sram_physical_address + 4 * i) ≡ m.mem (sram_physical_address + 4 * i))
        × (walk m'.mem m'.ttbr0 (sram_physical_address + o)
            ≡ some (
                mapped_section sram_physical_address full_access write_back_cache
                  object.original_sram_domain
                  (sram_physical_address + o)))
        × (walk m'.mem m'.ttbr0 (new + o) ≡ none)
        × (m'.heap ≡ p.free raw heap')
  sram_destroy-construct i o below small =
      let (low, under, align, above) = block_placed in
      let (align', low', fits') = block_facts p e m live grant high apart in
      let (built, _, content, _, _, _) =
        construct-moves_sram p e m live grant high apart sram_at block_at new permission policy
          domain word calls new_fits i o below small clear not_zero not_sram in
      let (closed, back, at_sram, at_new, _) =
        destroy-restores_sram p e object in_place (IsLive-same refl live) calls refl low under align
          new_fits new_aligned in_place-block in_place-new table_apart (omega arith) (omega arith) i
          o below small not_zero not_sram in_place-zero in
      (
        released p e object in_place (IsLive-same refl live) calls refl low under align new_fits
            new_aligned in_place-block in_place-new table_apart,
        rw built closed,
        back ∙ content,
        at_sram,
        at_new,
        ap (λ x. p.free x heap') in_place-header,
      )
