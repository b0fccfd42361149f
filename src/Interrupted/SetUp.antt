-- ===== src/Interrupted/SetUp.antt =====
-- The set-up of tests/interrupted/main.cpp: the editors on two more blocks, the page at 0xFFFF0000 and the
-- vectors moved there.
use nspire_utils.Base.{
  ℕ, ◌+◌, ◌-◌, ◌*◌, ◌/◌, ◌%◌, ◌^◌, ◌≤◌, ◌<◌, ◌∷◌, ◌≡◌, ◌≢◌, ◌⊎◌, refl, ◌∙◌, arith,
}
use nspire_utils.Machine.{Machine, write, drain_write_buffer, invalidate_tlb, clean_dcache_line}
use nspire_utils.Machine.Store.{write_self, write_ne, copy_block-outside}
use nspire_utils.Alloc.{Platform}
use nspire_utils.Alloc.Block.{Grants}
use nspire_utils.Mmu.Descriptor.{domain_from_entry, l2_entire_page_access_permissions}
use nspire_utils.Mmu.Walk.{Disjoint}
use nspire_utils.Mmu.Editor.{MmuEditor}
use nspire_utils.Mmu.Editor.Section.{IsLive, get_entry_lem}
use nspire_utils.Mmu.Editor.Life as L1
use nspire_utils.Mmu.Editor.Life.{installed_state}
use nspire_utils.Mmu.Coarse.{CoarseEditor, coarse_descriptor, small_page_descriptor}
use nspire_utils.Mmu.Coarse.Fill.{filled}
use nspire_utils.Mmu.Coarse.Life as L2
use nspire_utils.Mmu.Coarse.Insert.{replaced-outside, replaced-header}
use nspire_utils.Mmu.Coarse.Pages.{HasTable, map_4kb_page_lem}
use nspire_utils.Evt.{high, with_position, set_evt_position}
use nspire_utils.Interrupted.State.{System, returns}
use nspire_utils.Interrupted.{page_attributes, map_vectors}
use nspire_utils.Interrupted.Page.{MapsVectors}

-- The heap's answers to the two editors, and where their blocks are: apart from each other, from the
-- block for the vectors and from the table in place, whose last entry can be taken over.
pub record Room {H : Type 0} (p : Platform H) (m : Machine H) (table raw_ttb raw_l2 : ℕ)
    (heap₃ heap₄ : H) : Type 0 where
  pub word : m.ttbr0 < 2 ^ 32
  pub aligned : table % 2 ^ 12 ≡ 0
  pub table_below : table + 2 ^ 12 ≤ 2 ^ 32 - 32
  pub ttb_grant : Grants p (2 ^ 14 + 2 ^ 14 + 3) m.heap raw_ttb heap₃
  pub l2_grant : Grants p (2 ^ 10 + 2 ^ 10 + 3) heap₃ raw_l2 heap₄
  pub ttb_high : raw_ttb + 2 ^ 15 + 3 ≤ 2 ^ 32 - 32
  pub l2_high : raw_l2 + 2 ^ 11 + 3 ≤ 2 ^ 32 - 32
  pub old_ttb : Disjoint (m.ttbr0 / 2 ^ 14 * 2 ^ 14) (2 ^ 14) raw_ttb (2 ^ 15 + 3)
  pub ttb_l2 : Disjoint raw_ttb (2 ^ 15 + 3) raw_l2 (2 ^ 11 + 3)
  pub table_ttb : Disjoint table (2 ^ 12) raw_ttb (2 ^ 15 + 3)
  pub table_l2 : Disjoint table (2 ^ 12) raw_l2 (2 ^ 11 + 3)
  pub entry_word : m.mem (m.ttbr0 / 2 ^ 14 * 2 ^ 14 + 4 * 0xfff) < 2 ^ 32
  pub entry_kind : m.mem (m.ttbr0 / 2 ^ 14 * 2 ^ 14 + 4 * 0xfff) % 4 ≢ 3

module _ {H : Type 0} (p : Platform H) (m : Machine H) {table raw_ttb raw_l2 : ℕ} {heap₃ heap₄ : H}
    (room : Room p m table raw_ttb raw_l2 heap₃ heap₄) where
  abbrev pub ttb : ℕ
  ttb = (raw_ttb + 2 ^ 14 + 3) / 2 ^ 14 * 2 ^ 14

  abbrev pub l2 : ℕ
  l2 = (raw_l2 + 2 ^ 10 + 3) / 2 ^ 10 * 2 ^ 10

  abbrev pub mmu_editor : MmuEditor
  mmu_editor = record { original_ttbr0_reg = m.ttbr0; edited_table = ttb }

  abbrev pub copied : Machine H
  copied = installed_state ttb raw_ttb heap₃ m

  abbrev pub domain : ℕ
  domain = domain_from_entry (copied.mem (ttb + 4 * 0))

  abbrev pub old_entry : ℕ
  old_entry = copied.mem (ttb + 4 * 0xfff)

  abbrev pub coarse_editor : CoarseEditor
  coarse_editor = record { virtual_addr = 0xffff0000; old_l1_entry = old_entry; l2_table = l2 }

  pub copied-IsLive : IsLive mmu_editor copied
  copied-IsLive = L1.new_editor-IsLive p m room.word room.ttb_grant room.ttb_high room.old_ttb

  -- The entry that the coarse editor takes over is the one in the table in place.
  entry_lem : old_entry ≡ m.mem (m.ttbr0 / 2 ^ 14 * 2 ^ 14 + 4 * 0xfff)
  entry_lem =
      L1.installed-entry p m room.word room.ttb_grant room.ttb_high room.old_ttb 0xfff (omega arith)

  pub ttb_facts : (ttb % 2 ^ 14 ≡ 0) × (raw_ttb + 4 ≤ ttb) × (ttb + 2 ^ 14 ≤ raw_ttb + (2 ^ 15 + 3))
  ttb_facts = L1.table_facts p m room.word room.ttb_grant room.ttb_high room.old_ttb

  pub apart : Disjoint ttb (2 ^ 14) raw_l2 (2 ^ 11 + 3)
  apart = let (_, low, fits) = ttb_facts in let d = room.ttb_l2 in omega arith

  pub old_word : old_entry < 2 ^ 32
  old_word = rw entry_lem room.entry_word

  pub old_kind : old_entry % 4 ≢ 3
  old_kind = rw entry_lem room.entry_kind

  abbrev pub replaced : Machine H
  replaced =
      L2.replaced_state p mmu_editor copied copied-IsLive 0xffff0000 domain (omega arith) old_word
        old_kind room.l2_grant room.l2_high apart

  pub l2_facts : (l2 % 2 ^ 10 ≡ 0) × (raw_l2 + 4 ≤ l2) × (l2 + 2 ^ 10 ≤ raw_l2 + (2 ^ 11 + 3))
  l2_facts =
      L2.table_facts p mmu_editor copied copied-IsLive 0xffff0000 domain (omega arith) old_word
        old_kind room.l2_grant room.l2_high apart

  -- The machine with the page mapped and the vectors moved.
  abbrev pub prepared : Machine H
  prepared = record replaced {
    mem = write replaced.mem (l2 + 4 * 0xf0) (small_page_descriptor table page_attributes);
    sctlr = with_position high m.sctlr;
    ops =
        drain_write_buffer
        ∷ invalidate_tlb
        ∷ clean_dcache_line ((l2 + 4 * 0xf0) / 32 * 32)
        ∷ replaced.ops;
  }

  module _ {V T : Type 0} (s : System H V T) where
    pub map_vectors_lem :
        s.machine ≡ m
        → map_vectors p table s
          ≡ returns (mmu_editor, coarse_editor) (record s { machine = prepared })
    unfolding map_vectors set_evt_position l2_entire_page_access_permissions
    map_vectors_lem at_m =
        let (align, low, fits) = l2_facts in
        let high = room.l2_high in
        let below = room.table_below in
        let held : HasTable coarse_editor = record {
          installed = omega arith;
          aligned = align;
          below = omega arith;
        } in
        let constructed =
          L1.construct_lem p m room.word room.ttb_grant room.ttb_high room.old_ttb in
        let coarse =
          L2.construct_lem p mmu_editor copied copied-IsLive 0xffff0000 domain (omega arith)
            old_word old_kind room.l2_grant room.l2_high apart in
        let mapped =
          map_4kb_page_lem coarse_editor replaced held 0xffff0000 table page_attributes in
        rw (at_m, constructed, get_entry_lem mmu_editor copied copied-IsLive 0, coarse, mapped) refl

  prepared-IsLive : IsLive mmu_editor prepared
  prepared-IsLive = record {
    installed = copied-IsLive.installed;
    aligned = copied-IsLive.aligned;
    below = copied-IsLive.below;
    current = copied-IsLive.current;
  }

  -- The second editor writes into its block and into the last entry of the first-level table.
  pub prepared-copied :
      (x : ℕ)
      → (x < raw_l2) ⊎ (raw_l2 + (2 ^ 11 + 3) ≤ x)
      → x ≢ ttb + 4 * 0xfff
      → prepared.mem x ≡ copied.mem x
  prepared-copied x out other =
      let (align, low, fits) = l2_facts in
      write_ne replaced.mem (l2 + 4 * 0xf0) (small_page_descriptor table page_attributes) x
        (omega arith)
      ∙ replaced-outside p mmu_editor copied copied-IsLive 0xffff0000 domain (omega arith) old_word
          old_kind room.l2_grant room.l2_high apart x out other

  -- Outside the blocks of the two editors the store is as it was.
  pub prepared-outside :
      (x : ℕ)
      → (x < raw_ttb) ⊎ (raw_ttb + (2 ^ 15 + 3) ≤ x)
      → (x < raw_l2) ⊎ (raw_l2 + (2 ^ 11 + 3) ≤ x)
      → prepared.mem x ≡ m.mem x
  prepared-outside x out₁ out₂ =
      let (align, low, fits) = ttb_facts in
      prepared-copied x out₂ (omega arith)
      ∙ L1.installed-outside p m room.word room.ttb_grant room.ttb_high room.old_ttb x out₁

  ttb_header : prepared.mem (ttb - 4) ≡ raw_ttb
  ttb_header =
      let (align, low, fits) = ttb_facts in
      let d = room.ttb_l2 in
      prepared-copied (ttb - 4) (omega arith) (omega arith)
      ∙ copy_block-outside ttb (m.ttbr0 / 2 ^ 14 * 2 ^ 14) (2 ^ 14) (write m.mem (ttb - 4) raw_ttb)
          (ttb - 4) (omega arith)
      ∙ write_self m.mem (ttb - 4) raw_ttb

  pub l2_header : prepared.mem (l2 - 4) ≡ raw_l2
  l2_header =
      let (align, low, fits) = l2_facts in
      write_ne replaced.mem (l2 + 4 * 0xf0) (small_page_descriptor table page_attributes) (l2 - 4)
        (omega arith)
      ∙ replaced-header p mmu_editor copied copied-IsLive 0xffff0000 domain (omega arith) old_word
          old_kind room.l2_grant room.l2_high apart

  pub prepared-MapsVectors : MapsVectors ttb l2 table domain prepared
  prepared-MapsVectors =
      let (align, low, fits) = l2_facts in
      let (_, ttb_low, ttb_fits) = ttb_facts in
      let d = room.ttb_l2 in
      let header = write copied.mem (l2 - 4) raw_l2 in
      record {
        current = copied-IsLive.current;
        slot =
            write_ne replaced.mem (l2 + 4 * 0xf0) (small_page_descriptor table page_attributes)
              (ttb + 4 * 0xfff) (omega arith)
            ∙ write_self (filled old_entry l2 header) (ttb + 4 * 0xfff)
                (coarse_descriptor l2 domain);
        page =
            write_self replaced.mem (l2 + 4 * 0xf0) (small_page_descriptor table page_attributes);
      }
