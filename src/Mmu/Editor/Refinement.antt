-- ===== src/Mmu/Editor/Refinement.antt =====
-- The class `MMUEditor` against an abstract address space: a call that maps or unmaps a megabyte is an
-- update of that function.
use nspire_utils.Base.{
  ℕ, ◌+◌, ◌-◌, ◌*◌, ◌/◌, ◌%◌, ◌^◌, ◌≤◌, ◌<◌, Option, some, none, inl, inr, List, [], ◌∷◌, ◌≡◌, ◌≢◌,
  refl, sym, ap, ◌∙◌, arith, ◌==◌, if◌then◌else◌, Bool-cases, ==→eq,
}
use mathlib.Core.Path.{subst}
use nspire_utils.Machine.{M, Machine, done, pure, ◌>>◌}
use nspire_utils.Machine.Store.{write_self, write_ne}
use nspire_utils.Alloc.{Platform}
use nspire_utils.Alloc.Block.{Grants}
use nspire_utils.Mmu.Walk.{AddressSpace, Mapping, walk, walk_entry, Disjoint, TableOutside}
use nspire_utils.Mmu.Editor.{MmuEditor, construct, map, map_section, section_descriptor}
use nspire_utils.Mmu.Editor.Section.{
  IsLive, after_put, section_mapping, section_walk, section_type, map_lem, map_section_lem,
  map-walk_other,
}
use nspire_utils.Mmu.Editor.Life.{
  new_table, new_editor, installed_state, installed-entry, table_facts, construct-walk,
}

-- `MapSection` with its arguments, or `map` of a zero entry.
pub data Edit : Type 0 where
  section_edit : (virtual_addr physical_addr attributes : ℕ) → Edit
  unmapping : (virtual_addr : ℕ) → Edit

-- Words for the addresses, and attributes in bits 2 to 19.
pub data ValidEdits : List Edit → Type 0 where
  no_edits : ValidEdits []
  section_then :
      {va pa attributes : ℕ} {ks : List Edit}
      → va < 2 ^ 32
      → pa < 2 ^ 32
      → attributes < 2 ^ 20
      → attributes % 4 ≡ 0
      → ValidEdits ks
      → ValidEdits (section_edit va pa attributes ∷ ks)
  unmapping_then :
      {va : ℕ} {ks : List Edit} → va < 2 ^ 32 → ValidEdits ks → ValidEdits (unmapping va ∷ ks)

module _ {H : Type 0} (e : MmuEditor) where
  -- The calls one after the other.
  pub run_edits : List Edit → M H (Unit {0})
  run_edits [] = pure tt
  run_edits (section_edit va pa attributes ∷ ks) = map_section e va pa attributes >> run_edits ks
  run_edits (unmapping va ∷ ks) = map e va 0 >> run_edits ks

-- The address space in which one megabyte has another meaning.
abbrev remap_megabyte : ℕ → (ℕ → Option Mapping) → AddressSpace → AddressSpace
remap_megabyte base meaning space va = if va / 2 ^ 20 == base / 2 ^ 20 then meaning va else space va

pub edited_space : List Edit → AddressSpace → AddressSpace
edited_space [] space = space
edited_space (section_edit base pa attributes ∷ ks) space =
    edited_space ks (remap_megabyte base (λ va. some (section_mapping pa attributes va)) space)
edited_space (unmapping base ∷ ks) space = edited_space ks (remap_megabyte base (λ va. none) space)

-- Spaces that agree at one address still do there after the same edits.
edited_space-at :
    (va : ℕ) (ks : List Edit) (space space' : AddressSpace)
    → space va ≡ space' va
    → edited_space ks space va ≡ edited_space ks space' va
unfolding edited_space
edited_space-at va [] space space' same = same
edited_space-at va (section_edit base pa attributes ∷ ks) space space' same =
    edited_space-at va ks _ _ (rw same refl)
edited_space-at va (unmapping base ∷ ks) space space' same =
    edited_space-at va ks _ _ (rw same refl)

unmapped_walk : (mem : ℕ → ℕ) (va : ℕ) → walk_entry mem 0 va ≡ none
unfolding walk_entry
unmapped_walk mem va = refl

module _ {H : Type 0} (e : MmuEditor) (va : ℕ) (va_fits : va < 2 ^ 32) where
  abbrev OutsideAt : Machine H → Type 0
  OutsideAt m = TableOutside e.edited_table (2 ^ 14) (m.mem (e.edited_table + 4 * (va / 2 ^ 20)))

  module _ (m : Machine H) (live : IsLive e m) (outside : OutsideAt m) (base entry : ℕ)
      (base_fits : base < 2 ^ 32) where
    abbrev put : Machine H
    put = after_put (e.edited_table + 4 * (base / 2 ^ 20)) entry m

    put-IsLive : IsLive e put
    put-IsLive = record {
      installed = live.installed;
      aligned = live.aligned;
      below = live.below;
      current = live.current;
    }

    -- An entry that names no second-level table is not overlapped by one.
    put-OutsideAt : entry % 4 ≢ 1 → OutsideAt put
    put-OutsideAt kind = elim (Bool-cases (va / 2 ^ 20 == base / 2 ^ 20)) [
      | inl here ↦
          let same = ==→eq (va / 2 ^ 20) (base / 2 ^ 20) here in
          let now =
            ap (λ i. put.mem (e.edited_table + 4 * i)) same
            ∙ write_self m.mem (e.edited_table + 4 * (base / 2 ^ 20)) entry in
          λ coarse. absurd (kind (ap (λ w. w % 4) (sym now) ∙ coarse))
      | inr away ↦
          let other : va / 2 ^ 20 ≢ base / 2 ^ 20 = λ e. ground arith in
          subst (TableOutside e.edited_table (2 ^ 14))
            (sym (
              write_ne m.mem (e.edited_table + 4 * (base / 2 ^ 20)) entry
                (e.edited_table + 4 * (va / 2 ^ 20)) (omega arith)))
            outside
    ]

    put-walk :
        (meaning : ℕ → Option Mapping)
        → walk_entry put.mem entry va ≡ meaning va
        → walk put.mem put.ttbr0 va ≡ remap_megabyte base meaning (walk m.mem m.ttbr0) va
    unfolding walk
    put-walk meaning means = elim (Bool-cases (va / 2 ^ 20 == base / 2 ^ 20)) [
      | inl here ↦
          let same = ==→eq (va / 2 ^ 20) (base / 2 ^ 20) here in
          rw
            (
              here,
              live.current,
              same,
              write_self m.mem (e.edited_table + 4 * (base / 2 ^ 20)) entry,
            )
            means
      | inr away ↦
          let other : va / 2 ^ 20 ≢ base / 2 ^ 20 = λ e. ground arith in
          rw away (map-walk_other e m live base entry va base_fits va_fits other outside).1
    ]

  -- On a live editor any sequence of valid calls of `MapSection`, and of `map` with a zero entry,
  -- returns and leaves the editor live; the walk is then the address space before with those
  -- megabytes edited one after the other, at every 32-bit address whose second-level table, if any,
  -- is outside the edited table.
  walk-run_edits :
      (ks : List Edit) (m : Machine H)
      → ValidEdits ks
      → IsLive e m
      → TableOutside e.edited_table (2 ^ 14) (m.mem (e.edited_table + 4 * (va / 2 ^ 20)))
      → (m' : Machine H) × (run_edits e ks m ≡ done tt m')
        × IsLive e m'
        × (walk m'.mem m'.ttbr0 va ≡ edited_space ks (walk m.mem m.ttbr0) va)
  unfolding run_edits edited_space
  walk-run_edits [] m no_edits live outside = (m, refl, live, refl)
  walk-run_edits (section_edit base pa attributes ∷ ks) m
        (section_then b_fits p_fits small clear vs) live outside =
      let entry = section_descriptor pa attributes in
      let kind : entry % 4 ≢ 1 =
        λ c. omega (arith, section_type pa attributes small p_fits clear) in
      let (m', rest, still, meaning) =
        walk-run_edits ks (put m live outside base entry b_fits) vs
          (put-IsLive m live outside base entry b_fits)
          (put-OutsideAt m live outside base entry b_fits kind) in
      (
        m',
        rw (map_section_lem e m live base pa attributes b_fits) rest,
        still,
        meaning
            ∙ edited_space-at va ks _ _ (
                put-walk m live outside base entry b_fits
                  (λ a. some (section_mapping pa attributes a))
                  (section_walk _ pa attributes va small p_fits clear)),
      )
  walk-run_edits (unmapping base ∷ ks) m (unmapping_then b_fits vs) live outside =
      let (m', rest, still, meaning) =
        walk-run_edits ks (put m live outside base 0 b_fits) vs
          (put-IsLive m live outside base 0 b_fits)
          (put-OutsideAt m live outside base 0 b_fits (λ c. omega arith)) in
      (
        m',
        rw (map_lem e m live base 0 b_fits) rest,
        still,
        meaning
            ∙ edited_space-at va ks _ _
                (put-walk m live outside base 0 b_fits (λ a. none) (unmapped_walk _ va)),
      )

module _ {H : Type 0} (p : Platform H) (m : Machine H) {raw : ℕ} {heap' : H}
    (word : m.ttbr0 < 2 ^ 32) (grant : Grants p (2 ^ 14 + 2 ^ 14 + 3) m.heap raw heap')
    (high : raw + 2 ^ 15 + 3 ≤ 2 ^ 32 - 32)
    (apart : Disjoint (m.ttbr0 / 2 ^ 14 * 2 ^ 14) (2 ^ 14) raw (2 ^ 15 + 3)) where
  -- `MMUEditor()` on a heap that grants a block apart from the table in force, and any sequence of valid
  -- calls of `MapSection` and of `map` with a zero entry, return and leave the editor live; every
  -- 32-bit address whose second-level table, if any, is outside the new block then means what it
  -- meant before the constructor, with those megabytes mapped or unmapped one after the other.
  pub run_edits-construct :
      (ks : List Edit) (va : ℕ)
      → ValidEdits ks
      → va < 2 ^ 32
      → TableOutside raw (2 ^ 15 + 3) (m.mem (m.ttbr0 / 2 ^ 14 * 2 ^ 14 + 4 * (va / 2 ^ 20)))
      → let e = new_editor p m word grant high apart in
        let m₁ = installed_state (new_table p m word grant high apart) raw heap' m in
        (construct p m ≡ done e m₁)
        × ((m' : Machine H) × (run_edits e ks m₁ ≡ done tt m')
            × IsLive e m'
            × (walk m'.mem m'.ttbr0 va ≡ edited_space ks (walk m.mem m.ttbr0) va))
  run_edits-construct ks va valid fits outside =
      let e = new_editor p m word grant high apart in
      let m₁ = installed_state (new_table p m word grant high apart) raw heap' m in
      let (built, live, _, same) = construct-walk p m word grant high apart va fits outside in
      let entry = installed-entry p m word grant high apart (va / 2 ^ 20) (omega arith) in
      let outside₁ : TableOutside e.edited_table (2 ^ 14)
          (m₁.mem (e.edited_table + 4 * (va / 2 ^ 20))) =
        subst (TableOutside e.edited_table (2 ^ 14)) (sym entry)
          (λ coarse. narrower _ (outside coarse)) in
      let (m', ran, still, meaning) = walk-run_edits e va fits ks m₁ valid live outside₁ in
      (built, (m', ran, still, meaning ∙ edited_space-at va ks _ _ same))
    where
      narrower :
          (b : ℕ)
          → Disjoint b (2 ^ 10) raw (2 ^ 15 + 3)
          → Disjoint b (2 ^ 10) (new_table p m word grant high apart) (2 ^ 14)
      narrower b h = let (_, low, fits) = table_facts p m word grant high apart in omega arith
