-- ===== src/Mmu/Coarse/Insert.antt =====
-- The constructor of `MMUL2CoarsePageTableEditor` seen from the whole address space.
use nspire_utils.Base.{
  ℕ, ◌+◌, ◌-◌, ◌*◌, ◌/◌, ◌%◌, ◌^◌, ◌≤◌, ◌<◌, ◌≡◌, ◌≢◌, ◌⊎◌, inl, inr, ◌∙◌, arith, ◌==◌,
  if◌then◌else◌, Bool-cases, ==→eq,
}
use mathlib.Core.Path.{subst}
use nspire_utils.Machine.{Machine, done, write}
use nspire_utils.Machine.Store.{write_self, write_ne}
use nspire_utils.Alloc.{Platform}
use nspire_utils.Alloc.Block.{Grants}
use nspire_utils.Mmu.Walk.{walk, walk_entry_frame, Disjoint, TableOutside, outside_block}
use nspire_utils.Mmu.Editor.{MmuEditor}
use nspire_utils.Mmu.Editor.Section.{IsLive}
use nspire_utils.Mmu.Coarse.{coarse_descriptor, construct}
use nspire_utils.Mmu.Coarse.Fill.{filled, filled-outside, retag}
use nspire_utils.Mmu.Coarse.Life.{
  slot, new_editor, replaced_state, table_facts, construct_lem, coarse_construct-walk,
}
use nspire_utils.Mmu.Coarse.Attached.{Attached}

module _ {H : Type 0} (p : Platform H) (e : MmuEditor) (m : Machine H) (live : IsLive e m)
    (va domain : ℕ) (va_fits : va < 2 ^ 32) {raw : ℕ} {heap' : H}
    (word : m.mem (slot p e m live va domain va_fits) < 2 ^ 32)
    (kind : m.mem (slot p e m live va domain va_fits) % 4 ≢ 3)
    (grant : Grants p (2 ^ 10 + 2 ^ 10 + 3) m.heap raw heap')
    (high : raw + 2 ^ 11 + 3 ≤ 2 ^ 32 - 32)
    (apart : Disjoint e.edited_table (2 ^ 14) raw (2 ^ 11 + 3)) where
  abbrev at_slot : ℕ
  at_slot = e.edited_table + 4 * (va / 2 ^ 20)

  abbrev table : ℕ
  table = (raw + 2 ^ 10 + 3) / 2 ^ 10 * 2 ^ 10

  abbrev pub replaced : Machine H
  replaced = replaced_state p e m live va domain va_fits word kind grant high apart

  facts : (table % 2 ^ 10 ≡ 0) × (raw + 4 ≤ table) × (table + 2 ^ 10 ≤ raw + (2 ^ 11 + 3))
  facts = table_facts p e m live va domain va_fits word kind grant high apart

  -- The constructor writes into the raw block and into one entry of the parent's table.
  pub replaced-outside :
      (x : ℕ) → (x < raw) ⊎ (raw + (2 ^ 11 + 3) ≤ x) → x ≢ at_slot → replaced.mem x ≡ m.mem x
  replaced-outside x out other =
      let (align, low, fits) = facts in
      let header = write m.mem (table - 4) raw in
      write_ne (filled (m.mem at_slot) table header) at_slot (coarse_descriptor table domain) x
        other
      ∙ filled-outside (m.mem at_slot) table header x (omega arith)
      ∙ write_ne m.mem (table - 4) raw x (omega arith)

  -- The allocator's header is in front of the table.
  pub replaced-header : replaced.mem (table - 4) ≡ raw
  replaced-header =
      let (align, low, fits) = facts in
      let aligned = live.aligned in
      let header = write m.mem (table - 4) raw in
      write_ne (filled (m.mem at_slot) table header) at_slot (coarse_descriptor table domain)
        (table - 4) (omega arith)
      ∙ filled-outside (m.mem at_slot) table header (table - 4) (omega arith)
      ∙ write_self m.mem (table - 4) raw

  pub replaced-Attached :
      Attached e
        (new_editor p e m live va domain va_fits word kind grant high apart)
        domain
        replaced
  replaced-Attached =
      let (align, low, fits) = facts in
      record {
        live = record {
          installed = live.installed;
          aligned = live.aligned;
          below = live.below;
          current = live.current;
        };
        held = record { installed = omega arith; aligned = align; below = omega arith };
        slot =
            write_self (filled (m.mem at_slot) table (write m.mem (table - 4) raw)) at_slot
              (coarse_descriptor table domain);
        apart = omega arith;
        va_fits = va_fits;
      }

  module _ (va' : ℕ) (va'_fits : va' < 2 ^ 32)
      (outside : TableOutside raw (2 ^ 11 + 3) (m.mem (e.edited_table + 4 * (va' / 2 ^ 20))))
      (outside_parent : va' / 2 ^ 20 ≢ va / 2 ^ 20
        → TableOutside e.edited_table (2 ^ 14) (m.mem (e.edited_table + 4 * (va' / 2 ^ 20)))) where
    walk-replaced_other :
        va' / 2 ^ 20 ≢ va / 2 ^ 20 → walk replaced.mem replaced.ttbr0 va' ≡ walk m.mem m.ttbr0 va'
    unfolding walk
    walk-replaced_other other =
        let entry = m.mem (e.edited_table + 4 * (va' / 2 ^ 20)) in
        let kept =
          replaced-outside (e.edited_table + 4 * (va' / 2 ^ 20)) (omega arith) (omega arith) in
        rw (live.current, kept)
          (walk_entry_frame m.mem replaced.mem entry va' (λ coarse.
            replaced-outside _ (outside_block _ _ _ (va' / 2 ^ 12) (outside coarse))
              (apart_from _ (va' / 2 ^ 12) (outside_parent other coarse))))
      where
        apart_from :
            (b i : ℕ) → Disjoint b (2 ^ 10) e.edited_table (2 ^ 14) → b + 4 * (i % 256) ≢ at_slot
        apart_from b i h = omega arith

    -- The constructor of the coarse editor, on a live parent, a fault, section or coarse entry and
    -- a heap that grants a block below the last cache lines and apart from the parent's table,
    -- returns, and every 32-bit address whose second-level table, if any, is outside that block,
    -- and in other megabytes outside the parent's table too, means what it meant before: in the
    -- editor's megabyte under the low four bits of the domain asked for, elsewhere under its own
    -- domain.
    pub walk-coarse_construct :
        (construct p e va domain m
          ≡ done (new_editor p e m live va domain va_fits word kind grant high apart) replaced)
        × (walk replaced.mem replaced.ttbr0 va' ≡ (
            if va' / 2 ^ 20 == va / 2 ^ 20
            then retag (domain % 16) (walk m.mem m.ttbr0 va')
            else walk m.mem m.ttbr0 va'))
    walk-coarse_construct = (
      construct_lem p e m live va domain va_fits word kind grant high apart,
      elim (Bool-cases (va' / 2 ^ 20 == va / 2 ^ 20)) [
        | inl here ↦
            let same = ==→eq (va' / 2 ^ 20) (va / 2 ^ 20) here in
            rw here
              (coarse_construct-walk p e m live va domain va_fits word kind grant high apart va'
                same
                (subst (λ i. TableOutside raw (2 ^ 11 + 3) (m.mem (e.edited_table + 4 * i))) same
                  outside)).1
        | inr away ↦ rw away (walk-replaced_other (λ e. ground arith))
      ],
    )
