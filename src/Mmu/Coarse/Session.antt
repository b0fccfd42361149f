-- ===== src/Mmu/Coarse/Session.antt =====
-- Any sequence of the mapping calls of a coarse editor between its construction and its destruction.
use nspire_utils.Base.{
  ℕ, ◌+◌, ◌-◌, ◌*◌, ◌/◌, ◌%◌, ◌^◌, ◌≤◌, ◌<◌, ◌≡◌, ◌≢◌, ◌⊎◌, inl, inr, refl, sym, ◌∙◌, arith, ◌==◌,
  Bool-cases, ==→eq,
}
use mathlib.Core.Path.{subst}
use nspire_utils.Machine.{Machine, done}
use nspire_utils.Machine.Store.{write_self, write_ne}
use nspire_utils.Alloc.{Platform, nullptr}
use nspire_utils.Alloc.Block.{Grants}
use nspire_utils.Mmu.Walk.{walk, walk_entry_frame, Disjoint, TableOutside, outside_block}
use nspire_utils.Mmu.Editor.{MmuEditor}
use nspire_utils.Mmu.Editor.Section.{IsLive, after_put}
use nspire_utils.Mmu.Editor.Session.{left-done}
use nspire_utils.Mmu.Coarse.{CoarseEditor, map_4kb_page, map_64kb_page, destroy}
use nspire_utils.Mmu.Coarse.Pages.{HasTable, map_4kb_page_lem, map_64kb_page_lem}
use nspire_utils.Mmu.Coarse.Life.{slot, new_editor, table_facts, destroy_lem}
use nspire_utils.Mmu.Coarse.Attached.{
  WritesTable, WritesTable-Attached, small_mapped-WritesTable, large_mapped-WritesTable,
}
use nspire_utils.Mmu.Coarse.Insert.{replaced, replaced-outside, replaced-header, replaced-Attached}

-- One mapping call that returns, whatever its arguments.
pub data PageStep {H : Type 0} (c : CoarseEditor) : Machine H → Machine H → Type 0 where
  small_step :
      {m m' : Machine H} (va pa attributes : ℕ)
      → map_4kb_page c va pa attributes m ≡ done tt m'
      → PageStep c m m'
  large_step :
      {m m' : Machine H} (va pa attributes : ℕ)
      → map_64kb_page c va pa attributes m ≡ done tt m'
      → PageStep c m m'

pub data PageSession {H : Type 0} (c : CoarseEditor) : Machine H → Machine H → Type 0 where
  at_rest : {m : Machine H} → PageSession c m m
  step_then : {m m' m'' : Machine H} → PageStep c m m' → PageSession c m' m'' → PageSession c m m''

module _ {H : Type 0} (c : CoarseEditor) (held : HasTable c) where
  step-WritesTable : {m m' : Machine H} → PageStep c m m' → WritesTable c m m'
  step-WritesTable {m} (small_step va pa attributes returned) =
      subst (λ s. WritesTable c m s)
        (sym (left-done (map_4kb_page_lem c m held va pa attributes) returned))
        (small_mapped-WritesTable c m va pa attributes held)
  step-WritesTable {m} (large_step va pa attributes returned) =
      subst (λ s. WritesTable c m s)
        (sym (left-done (map_64kb_page_lem c m held va pa attributes) returned))
        (large_mapped-WritesTable c m va pa attributes held)

  session-WritesTable : {m m' : Machine H} → PageSession c m m' → WritesTable c m m'
  session-WritesTable at_rest = record {
    same_ttbr0 = refl;
    same_heap = refl;
    outside = λ x out. refl;
  }
  session-WritesTable (step_then step rest) =
      let first = step-WritesTable step in
      let later = session-WritesTable rest in
      record {
        same_ttbr0 = later.same_ttbr0 ∙ first.same_ttbr0;
        same_heap = later.same_heap ∙ first.same_heap;
        outside = λ x out. later.outside x out ∙ first.outside x out;
      }

module _ {H : Type 0} (p : Platform H) (e : MmuEditor) (m : Machine H) (live : IsLive e m)
    (va domain : ℕ) (va_fits : va < 2 ^ 32) {raw : ℕ} {heap' : H}
    (word : m.mem (slot p e m live va domain va_fits) < 2 ^ 32)
    (kind : m.mem (slot p e m live va domain va_fits) % 4 ≢ 3)
    (grant : Grants p (2 ^ 10 + 2 ^ 10 + 3) m.heap raw heap')
    (high : raw + 2 ^ 11 + 3 ≤ 2 ^ 32 - 32)
    (apart : Disjoint e.edited_table (2 ^ 14) raw (2 ^ 11 + 3)) (m' : Machine H) where
  abbrev editor : CoarseEditor
  editor = new_editor p e m live va domain va_fits word kind grant high apart

  abbrev at_slot : ℕ
  at_slot = e.edited_table + 4 * (va / 2 ^ 20)

  -- The state behind the destructor.
  abbrev removed : Machine H
  removed = record (after_put at_slot (m.mem at_slot) m') { heap = p.free raw heap' }

  module _
      (session : PageSession editor
        (replaced p e m live va domain va_fits word kind grant high apart)
        m') where
    wrote : WritesTable editor (replaced p e m live va domain va_fits word kind grant high apart) m'
    wrote =
        session-WritesTable editor
          (replaced-Attached p e m live va domain va_fits word kind grant high apart).held session

    removed-outside : (x : ℕ) → (x < raw) ⊎ (raw + (2 ^ 11 + 3) ≤ x) → removed.mem x ≡ m.mem x
    removed-outside x out =
        let (align, low, fits) =
          table_facts p e m live va domain va_fits word kind grant high apart in
        elim (Bool-cases (x == at_slot)) [
          | inl here ↦
              let e = ==→eq x at_slot here in rw e (write_self m'.mem at_slot (m.mem at_slot))
          | inr other ↦
              let away : x ≢ at_slot = λ e. ground arith in
              write_ne m'.mem at_slot (m.mem at_slot) x away
              ∙ wrote.outside x (omega arith)
              ∙ replaced-outside p e m live va domain va_fits word kind grant high apart x out away
        ]

    removed-walk :
        (va' : ℕ)
        → va' < 2 ^ 32
        → TableOutside raw (2 ^ 11 + 3) (m.mem (e.edited_table + 4 * (va' / 2 ^ 20)))
        → walk removed.mem removed.ttbr0 va' ≡ walk m.mem m.ttbr0 va'
    unfolding walk
    removed-walk va' fits outside =
        let entry = m.mem (e.edited_table + 4 * (va' / 2 ^ 20)) in
        let kept = removed-outside (e.edited_table + 4 * (va' / 2 ^ 20)) (omega arith) in
        rw (wrote.same_ttbr0, live.current, kept)
          (walk_entry_frame m.mem removed.mem entry va'
            (λ coarse. removed-outside _ (outside_block _ _ _ (va' / 2 ^ 12) (outside coarse))))

    -- Between the constructor and the destructor of the coarse editor, on a live parent, a fault, section
    -- or coarse entry and a heap that grants a block apart from the parent's table, any calls of
    -- `Map4KBPage` and `Map64KBPage` that return, with any arguments, leave the destructor able to
    -- return: TTBR0 is then as it was, the raw block freed, every word outside that block as it was,
    -- and every 32-bit address whose second-level table, if any, is outside it means what it meant
    -- before the constructor.
    pub destroy-PageSession :
        (x va' : ℕ)
        → (x < raw) ⊎ (raw + (2 ^ 11 + 3) ≤ x)
        → va' < 2 ^ 32
        → TableOutside raw (2 ^ 11 + 3) (m.mem (e.edited_table + 4 * (va' / 2 ^ 20)))
        → (destroy p e editor m' ≡ done (record editor { l2_table = nullptr }) removed)
          × (removed.ttbr0 ≡ m.ttbr0)
          × (removed.mem x ≡ m.mem x)
          × (walk removed.mem removed.ttbr0 va' ≡ walk m.mem m.ttbr0 va')
    destroy-PageSession x va' out fits outside =
        let (align, low, table_fits) =
          table_facts p e m live va domain va_fits word kind grant high apart in
        let attached = replaced-Attached p e m live va domain va_fits word kind grant high apart in
        let live' = (WritesTable-Attached e editor domain wrote attached).live in
        let header =
          wrote.outside (editor.l2_table - 4) (omega arith)
          ∙ replaced-header p e m live va domain va_fits word kind grant high apart in
        (
          rw (← wrote.same_heap)
              (destroy_lem p e m live va domain va_fits word kind grant high apart m' live' header),
          wrote.same_ttbr0,
          removed-outside x out,
          removed-walk va' fits outside,
        )
