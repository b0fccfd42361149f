-- ===== src/Sram/Destroy.antt =====
-- The destructor of the accessor.
use nspire_utils.Base.{
  ℕ, ◌+◌, ◌-◌, ◌*◌, ◌/◌, ◌%◌, ◌^◌, ◌≤◌, ◌<◌, ◌∷◌, true, none, some, ◌≡◌, ◌≢◌, ◌⊎◌, refl, ap, ◌∙◌,
  arith, ne→==, if◌then◌else◌,
}
use nspire_utils.Word.{add32}
use nspire_utils.Machine.{Machine, pure, done, write, drain_write_buffer, clean_dcache_line}
use nspire_utils.Machine.Store.{write_ne}
use nspire_utils.Caches.{drain_writes}
use nspire_utils.Caches.Range.{flush_data_cache_range_lem, lines, line_count}
use nspire_utils.Alloc.{Platform, nullptr}
use nspire_utils.Alloc.Block.{aligned_free_lem}
use nspire_utils.Mmu.Walk.{walk, walk_entry, walk_entry_frame, Disjoint}
use nspire_utils.Mmu.Descriptor.{full_access, write_back_cache}
use nspire_utils.Mmu.Editor.{MmuEditor, section_descriptor}
use nspire_utils.Mmu.Editor.Section.{IsLive, after_put, map_lem}
use nspire_utils.Sram.{SramAccessor, sram_physical_address, section_attributes, restore, destroy}
use nspire_utils.Sram.Copy.{SectionAt, copied, copied-inside, copied-outside, virtual_memcpy_lem}
use nspire_utils.Sram.Attributes.{mapped_section, walk-section}
use nspire_utils.Sram.Remap.{AreCallbacks, IsLive-same, mapped, mapped_lem}

-- The table behind the two writes, read at each entry.
module _ (mem : ℕ → ℕ) (t i v x : ℕ) where
  abbrev table : ℕ → ℕ
  table = write (write mem (t + 10496) v) (t + 4 * i) 0

  table-sram : i ≢ 2624 → x ≡ t + 10496 → table x ≡ v
  unfolding write
  table-sram other h = ground arith

  table-new : x ≡ t + 4 * i → table x ≡ 0
  unfolding write
  table-new h = ground arith

  table-other : x ≢ t + 10496 → x ≢ t + 4 * i → table x ≡ mem x
  table-other h k =
      write_ne (write mem (t + 10496) v) (t + 4 * i) 0 x k ∙ write_ne mem (t + 10496) v x h

walk-none :
    (mem : ℕ → ℕ) (ttbr0 va : ℕ)
    → mem (ttbr0 / 2 ^ 14 * 2 ^ 14 + 4 * (va / 2 ^ 20)) ≡ 0
    → walk mem ttbr0 va ≡ none
unfolding walk walk_entry
walk-none mem ttbr0 va entry = rw entry refl

module _ {H : Type 0} (p : Platform H) (e : MmuEditor) (a : SramAccessor H) (m : Machine H)
    (live : IsLive e m) {mask : ℕ}
    (calls : AreCallbacks a.disable_interrupts a.enable_interrupts mask)
    (whole : a.init_successful ≡ true) (block_low : 4 ≤ a.cloned_sram_block)
    (block_high : a.cloned_sram_block + 2 ^ 18 ≤ 2 ^ 32 - 32)
    (block_room : a.cloned_sram_block % 2 ^ 20 ≡ 0) (new_fits : a.new_sram_address < 2 ^ 32)
    (new_aligned : a.new_sram_address % 2 ^ 20 ≡ 0)
    (block_at : SectionAt m.mem m.ttbr0 a.cloned_sram_block a.cloned_sram_block)
    (new_at : SectionAt m.mem m.ttbr0 a.new_sram_address sram_physical_address)
    (table_apart : Disjoint e.edited_table (2 ^ 14) sram_physical_address (2 ^ 18)) where
  abbrev block : ℕ
  block = a.cloned_sram_block

  abbrev written_back : Machine H
  written_back = record m {
    mem = copied sram_physical_address block (2 ^ 16) m.mem;
    ops =
        drain_write_buffer
        ∷ lines clean_dcache_line (block / 32 * 32) (line_count block (block + 2 ^ 18)) m.ops;
  }

  abbrev unmapped : Machine H
  unmapped = after_put (e.edited_table + 4 * (a.new_sram_address / 2 ^ 20)) 0 (
      mapped e sram_physical_address sram_physical_address full_access write_back_cache
        a.original_sram_domain written_back)

  restore_lem : restore e a m ≡ done tt unmapped
  unfolding restore drain_writes
  restore_lem =
      let current = live.current in
      let m₁ : Machine H = record m { mem = copied sram_physical_address block (2 ^ 16) m.mem } in
      let next : add32 block (2 ^ 18) ≡ block + 2 ^ 18 = omega arith in
      rw
        (
          calls.disables m,
          virtual_memcpy_lem a.new_sram_address block sram_physical_address block (2 ^ 16) m new_at
              block_at new_fits (omega arith) (omega arith) (omega arith) (omega arith),
          next,
          flush_data_cache_range_lem block (block + 2 ^ 18) m₁ (omega arith) block_high,
          mapped_lem e sram_physical_address sram_physical_address full_access write_back_cache
              a.original_sram_domain written_back (IsLive-same refl live) (omega arith),
          map_lem e
              (mapped e sram_physical_address sram_physical_address full_access write_back_cache
                a.original_sram_domain written_back)
              (IsLive-same refl live) a.new_sram_address 0 new_fits,
          calls.enables unmapped,
        )
        refl

  abbrev pub released : Machine H
  released = record unmapped { heap = p.free (m.mem (block - 4)) m.heap }

  -- A word that is neither in the SRAM nor one of the two entries stays.
  unmapped-outside :
      (x : ℕ)
      → (x < sram_physical_address) ⊎ (sram_physical_address + 2 ^ 18 ≤ x)
      → x ≢ e.edited_table + 10496
      → x ≢ e.edited_table + 4 * (a.new_sram_address / 2 ^ 20)
      → unmapped.mem x ≡ m.mem x
  unmapped-outside x out h k =
      table-other written_back.mem e.edited_table (a.new_sram_address / 2 ^ 20) _ x h k
      ∙ copied-outside sram_physical_address block (2 ^ 16) m.mem x (omega arith)

  module _ (block_apart : Disjoint sram_physical_address (2 ^ 18) (block - 4) (2 ^ 18 + 4))
      (header_apart : Disjoint e.edited_table (2 ^ 14) (block - 4) 4) where
    destroy_lem : destroy p e a m ≡ done (record a { cloned_sram_block = nullptr }) released
    unfolding destroy
    destroy_lem =
        let guarded : (if a.init_successful then restore e a else pure tt) m ≡ done tt unmapped =
          ap (λ b. (if b then restore e a else pure tt) m) whole ∙ restore_lem in
        rw
          (
            ne→== block nullptr (omega arith),
            guarded,
            aligned_free_lem p block unmapped block_low (omega arith),
            unmapped-outside (block - 4) (omega arith) (omega arith) (omega arith),
          )
          refl

    -- `~SRAM_Accessor` of an object that was set up, on a live editor whose table is apart from
    -- the SRAM and from the allocator's header, with the SRAM apart from the clone and its header,
    -- with callbacks that change nothing modelled, with the clone, a multiple of 2^20 below the
    -- last cache lines, mapped to itself by a section, with the new address, a multiple of 2^20 in
    -- a megabyte that is neither that of address 0 nor that of the SRAM, mapped to the SRAM by a
    -- section, and with a section at address 0: it returns with the clone's words in the SRAM, the
    -- SRAM mapped to itself with full access, write-back cache and the low four bits of the old
    -- domain, the new megabyte unmapped and the raw block freed; address 0 stays mapped as it was.
    pub destroy-restores_sram :
        (i o : ℕ)
        → i < 2 ^ 16
        → o < 2 ^ 20
        → a.new_sram_address / 2 ^ 20 ≢ 0
        → a.new_sram_address / 2 ^ 20 ≢ sram_physical_address / 2 ^ 20
        → m.mem e.edited_table % 4 ≡ 2
        → (destroy p e a m ≡ done (record a { cloned_sram_block = nullptr }) released)
          × (released.mem (sram_physical_address + 4 * i) ≡ m.mem (block + 4 * i))
          × (walk released.mem released.ttbr0 (sram_physical_address + o)
              ≡ some (
                  mapped_section sram_physical_address full_access write_back_cache
                    a.original_sram_domain
                    (sram_physical_address + o)))
          × (walk released.mem released.ttbr0 (a.new_sram_address + o) ≡ none)
          × (walk released.mem released.ttbr0 o ≡ walk m.mem m.ttbr0 o)
    unfolding walk
    destroy-restores_sram i o below small not_zero not_sram zero_at =
        let current : m.ttbr0 / 2 ^ 14 * 2 ^ 14 ≡ e.edited_table = live.current in
        let t = e.edited_table in
        let n = a.new_sram_address / 2 ^ 20 in
        let v =
          section_descriptor sram_physical_address
            (section_attributes full_access write_back_cache a.original_sram_domain) in
        let first : m.ttbr0 / 2 ^ 14 * 2 ^ 14 + 4 * (o / 2 ^ 20) ≡ t = omega arith in
        let x = m.ttbr0 / 2 ^ 14 * 2 ^ 14 + 4 * (o / 2 ^ 20) in
        let at_zero : m.mem x % 4 ≡ 2 = ap (λ y. m.mem y % 4) first ∙ zero_at in
        let same : released.mem x ≡ m.mem x =
          unmapped-outside x (omega arith) (omega arith) (omega arith) in
        (
          destroy_lem,
          table-other written_back.mem t n v _ (omega arith) (omega arith)
              ∙ copied-inside sram_physical_address block (2 ^ 16) m.mem i (omega arith) below,
          walk-section released.mem m.ttbr0 sram_physical_address (sram_physical_address + o)
              full_access write_back_cache a.original_sram_domain (omega arith)
              (table-sram written_back.mem t n v _ not_sram (omega arith)),
          walk-none released.mem m.ttbr0 (a.new_sram_address + o)
              (table-new written_back.mem t n v _ (omega arith)),
          rw same
              (walk_entry_frame m.mem released.mem (m.mem x) o (λ coarse. absurd (omega arith))),
        )
