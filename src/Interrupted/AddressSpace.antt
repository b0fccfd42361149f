-- ===== src/Interrupted/AddressSpace.antt =====
-- What every virtual address means once tests/interrupted/main.cpp has mapped its page.
use nspire_utils.Base.{
  ℕ, ◌+◌, ◌*◌, ◌/◌, ◌%◌, ◌^◌, ◌<◌, some, ◌≡◌, ◌≢◌, refl, sym, ◌∙◌, arith, ◌==◌, if◌then◌else◌, ◌&&◌,
}
use mathlib.Core.Path.{subst}
use nspire_utils.Mmu.Descriptor.{l2_entire_page_access_permissions}
use nspire_utils.Machine.{Machine}
use nspire_utils.Alloc.{Platform}
use nspire_utils.Mmu.Walk.{walk, TableOutside}
use nspire_utils.Mmu.Editor.Life as L1
use nspire_utils.Mmu.Coarse.Fill.{retag}
use nspire_utils.Mmu.Coarse.Insert as L2
use nspire_utils.Mmu.Coarse.Attached.{Attached}
use nspire_utils.Mmu.Coarse.Remap.{walk-map_4kb_page}
use nspire_utils.Mmu.Coarse.PageEntry.{page_mapping}
use nspire_utils.Interrupted.{page_attributes, map_vectors}
use nspire_utils.Interrupted.State.{System, returns}
use nspire_utils.Interrupted.SetUp.{
  Room, ttb, l2, domain, copied, copied-IsLive, replaced, prepared, mmu_editor, coarse_editor,
  old_word, old_kind, apart, ttb_facts, l2_facts, map_vectors_lem,
}

module _ {H : Type 0} (p : Platform H) (m : Machine H) {table raw_ttb raw_l2 : ℕ} {heap₃ heap₄ : H}
    (room : Room p m table raw_ttb raw_l2 heap₃ heap₄) (va : ℕ) (va_fits : va < 2 ^ 32) where
  -- The first-level entry of the address in the table in place.
  abbrev pub entry : ℕ
  entry = m.mem (m.ttbr0 / 2 ^ 14 * 2 ^ 14 + 4 * (va / 2 ^ 20))

  module _ (outside_ttb : TableOutside raw_ttb (2 ^ 15 + 3) entry)
      (outside_l2 : TableOutside raw_l2 (2 ^ 11 + 3) entry) where
    copied-walk : walk (copied p m room).mem (copied p m room).ttbr0 va ≡ walk m.mem m.ttbr0 va
    copied-walk =
        let (_, _, _, same) =
          L1.construct-walk p m room.word room.ttb_grant room.ttb_high room.old_ttb va va_fits
            outside_ttb in
        same

    copied-entry : (copied p m room).mem (ttb p m room + 4 * (va / 2 ^ 20)) ≡ entry
    copied-entry =
        L1.installed-entry p m room.word room.ttb_grant room.ttb_high room.old_ttb (va / 2 ^ 20)
          (omega arith)

    -- The second editor stands in the first, apart from the tables of other megabytes.
    replaced-Attached :
        Attached
          (mmu_editor p m room)
          (coarse_editor p m room)
          (domain p m room)
          (replaced p m room)
    replaced-Attached =
        L2.replaced-Attached p (mmu_editor p m room) (copied p m room) (copied-IsLive p m room)
          0xffff0000 (domain p m room) (omega arith) (old_word p m room) (old_kind p m room)
          room.l2_grant room.l2_high (apart p m room)

    replaced-walk : walk (replaced p m room).mem (replaced p m room).ttbr0 va ≡ (
        if va / 2 ^ 20 == 0xfff
        then retag (domain p m room % 16) (walk m.mem m.ttbr0 va)
        else walk m.mem m.ttbr0 va)
    replaced-walk =
        let (_, from, fits) = ttb_facts p m room in
        rw (← copied-walk)
          (L2.walk-coarse_construct p (mmu_editor p m room) (copied p m room)
            (copied-IsLive p m room) 0xffff0000 (domain p m room) (omega arith) (old_word p m room)
            (old_kind p m room) room.l2_grant room.l2_high (apart p m room) va va_fits
            (rw copied-entry outside_l2)
            (λ other. rw copied-entry (λ c. (let d = outside_ttb c in omega arith)))).1

    elsewhere :
        va / 2 ^ 20 ≢ 0xfff
        → TableOutside
            (l2 p m room)
            (2 ^ 10)
            ((replaced p m room).mem (ttb p m room + 4 * (va / 2 ^ 20)))
    elsewhere other =
        let (_, from, fits) = ttb_facts p m room in
        let (_, l2_from, l2_fits) = l2_facts p m room in
        let d = room.ttb_l2 in
        let kept =
          L2.replaced-outside p (mmu_editor p m room) (copied p m room) (copied-IsLive p m room)
            0xffff0000 (domain p m room) (omega arith) (old_word p m room) (old_kind p m room)
            room.l2_grant room.l2_high (apart p m room) (ttb p m room + 4 * (va / 2 ^ 20))
            (omega arith) (omega arith)
          ∙ copied-entry in
        subst (TableOutside (l2 p m room) (2 ^ 10)) (sym kept)
          (λ c. let d' = outside_l2 c in omega arith)

    prepared-walk : walk (prepared p m room).mem (prepared p m room).ttbr0 va ≡ (
        if va / 2 ^ 12 == 0xffff0
        then some (
            page_mapping
              (table + va % 2 ^ 12)
              (va / 2 ^ 10 % 4)
              page_attributes
              (domain p m room % 16))
        else if va / 2 ^ 20 == 0xfff
        then retag (domain p m room % 16) (walk m.mem m.ttbr0 va)
        else walk m.mem m.ttbr0 va)
    unfolding l2_entire_page_access_permissions
    prepared-walk =
        let below = room.table_below in
        let aligned = room.aligned in
        let whole : table / 2 ^ 12 * 2 ^ 12 ≡ table = omega arith in
        let hit : (va / 2 ^ 20 == 0xfff && (va / 2 ^ 12 % 256 == 0xf0)) ≡ (va / 2 ^ 12 == 0xffff0) =
          ground arith in
        let small : page_attributes < 2 ^ 12 = omega arith in
        let clear : page_attributes % 4 ≡ 0 = refl in
        (walk-map_4kb_page (mmu_editor p m room) (coarse_editor p m room) (domain p m room)
          (replaced p m room) replaced-Attached 0xffff0000 table page_attributes (omega arith) small
          clear va va_fits elsewhere).1
        ∙ rw (whole, hit, replaced-walk) refl

    -- The set-up returns where the heap grants the blocks of both editors below the last cache
    -- lines, apart from each other, from the page-aligned block for the vectors and (the first)
    -- from the table in force, and where the last first-level entry names no fine table. Under its
    -- tables every 32-bit address whose second-level table, if any, is outside the blocks of the
    -- two editors then means: in the page at 0xFFFF0000 the same offset of the block for the
    -- vectors, with full access and no caching; elsewhere in the last megabyte what it meant
    -- before, under the domain of address 0; and in every other megabyte what it meant before.
    pub map_vectors-walk :
        {V T : Type 0} (s : System H V T)
        → s.machine ≡ m
        → let m' = prepared p m room in
          let d = domain p m room % 16 in
          (map_vectors p table s
            ≡ returns (mmu_editor p m room, coarse_editor p m room) (record s { machine = m' }))
          × (walk m'.mem m'.ttbr0 va ≡ (
              if va / 2 ^ 12 == 0xffff0
              then some (page_mapping (table + va % 2 ^ 12) (va / 2 ^ 10 % 4) page_attributes d)
              else if va / 2 ^ 20 == 0xfff
              then retag d (walk m.mem m.ttbr0 va)
              else walk m.mem m.ttbr0 va))
    map_vectors-walk s at_m = (map_vectors_lem p m room s at_m, prepared-walk)
