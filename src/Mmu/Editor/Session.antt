-- ===== src/Mmu/Editor/Session.antt =====
-- Any sequence of the operations of an `MMUEditor` between its construction and its destruction.
use nspire_utils.Base.{
  ℕ, ◌+◌, ◌-◌, ◌*◌, ◌/◌, ◌^◌, ◌≤◌, ◌<◌, ◌∷◌, ◌≡◌, ◌⊎◌, refl, ap, sym, ◌∙◌, arith,
}
use mathlib.Core.Path.{subst}
use nspire_utils.Machine.{Machine, Outcome, done, throw, hang, drain_write_buffer, invalidate_tlb}
use nspire_utils.Machine.Store.{write_ne}
use nspire_utils.Alloc.{Platform, nullptr}
use nspire_utils.Alloc.Block.{Grants}
use nspire_utils.Mmu.Walk.{Disjoint}
use nspire_utils.Mmu.Editor.{MmuEditor, section_descriptor, map, map_section, get_entry, destroy}
use nspire_utils.Mmu.Editor.Section.{IsLive, after_put, map_section_lem, map_lem, get_entry_lem}
use nspire_utils.Mmu.Editor.Life.{
  new_table, new_editor, new_editor-IsLive, installed_state, destroy-construct,
}

-- One call on the editor that returns.
pub data EditorStep {H : Type 0} (e : MmuEditor) : Machine H → Machine H → Type 0 where
  mapping_step :
      {m m' : Machine H} (va entry : ℕ)
      → va < 2 ^ 32
      → map e va entry m ≡ done tt m'
      → EditorStep e m m'
  section_mapping_step :
      {m m' : Machine H} (va pa attributes : ℕ)
      → va < 2 ^ 32
      → map_section e va pa attributes m ≡ done tt m'
      → EditorStep e m m'
  reading_step :
      {m m' : Machine H} (va entry : ℕ) → get_entry e va m ≡ done entry m' → EditorStep e m m'

pub data Session {H : Type 0} (e : MmuEditor) : Machine H → Machine H → Type 0 where
  at_rest : {m : Machine H} → Session e m m
  step_then : {m m' m'' : Machine H} → EditorStep e m m' → Session e m' m'' → Session e m m''

-- The state that a call leaves.
left : {H A : Type 0} → Machine H → Outcome H A → Machine H
left m (done a m') = m'
left m (throw x m') = m'
left m hang = m

pub left-done :
    {H A : Type 0} {r : Outcome H A} {a b : A} {m m' : Machine H}
    → r ≡ done a m
    → r ≡ done b m'
    → m' ≡ m
unfolding left
left-done {m = m} h k = ap (left m) (sym k ∙ h)

-- What a call may change.
pub record Preserved {H : Type 0} (e : MmuEditor) (m m' : Machine H) : Type 0 where
  pub same_ttbr0 : m'.ttbr0 ≡ m.ttbr0
  pub same_heap : m'.heap ≡ m.heap
  pub outside : (x : ℕ) → (x < e.edited_table) ⊎ (e.edited_table + 2 ^ 14 ≤ x) → m'.mem x ≡ m.mem x

module _ {H : Type 0} (e : MmuEditor) where
  after_put-Preserved :
      (m : Machine H) (va entry : ℕ)
      → va < 2 ^ 32
      → Preserved e m (after_put (e.edited_table + 4 * (va / 2 ^ 20)) entry m)
  after_put-Preserved m va entry fits = record {
    same_ttbr0 = refl;
    same_heap = refl;
    outside = λ x out. write_ne m.mem _ entry x (omega arith);
  }

  step-Preserved : {m m' : Machine H} → IsLive e m → EditorStep e m m' → Preserved e m m'
  step-Preserved {m} live (mapping_step va entry fits returned) =
      subst (λ s. Preserved e m s) (sym (left-done (map_lem e m live va entry fits) returned))
        (after_put-Preserved m va entry fits)
  step-Preserved {m} live (section_mapping_step va pa attributes fits returned) =
      subst (λ s. Preserved e m s)
        (sym (left-done (map_section_lem e m live va pa attributes fits) returned))
        (after_put-Preserved m va (section_descriptor pa attributes) fits)
  step-Preserved {m} live (reading_step va entry returned) =
      subst (λ s. Preserved e m s) (sym (left-done (get_entry_lem e m live va) returned))
        (record { same_ttbr0 = refl; same_heap = refl; outside = λ x out. refl })

  Preserved-IsLive : {m m' : Machine H} → Preserved e m m' → IsLive e m → IsLive e m'
  Preserved-IsLive kept live = record {
    installed = live.installed;
    aligned = live.aligned;
    below = live.below;
    current = rw kept.same_ttbr0 live.current;
  }

  -- Any sequence of `map`, `MapSection` and `getEntry` calls that return leaves a live editor live,
  -- and changes neither TTBR0, nor the heap, nor a word outside the edited table.
  pub Session-IsLive :
      {m m' : Machine H} → IsLive e m → Session e m m' → IsLive e m' × Preserved e m m'
  Session-IsLive live at_rest =
      (live, record { same_ttbr0 = refl; same_heap = refl; outside = λ x out. refl })
  Session-IsLive live (step_then step rest) =
      let first = step-Preserved live step in
      let (live', later) = Session-IsLive (Preserved-IsLive first live) rest in
      (
        live',
        record {
          same_ttbr0 = later.same_ttbr0 ∙ first.same_ttbr0;
          same_heap = later.same_heap ∙ first.same_heap;
          outside = λ x out. later.outside x out ∙ first.outside x out;
        },
      )

module _ {H : Type 0} (p : Platform H) (m : Machine H) {raw : ℕ} {heap' : H}
    (word : m.ttbr0 < 2 ^ 32) (grant : Grants p (2 ^ 14 + 2 ^ 14 + 3) m.heap raw heap')
    (high : raw + 2 ^ 15 + 3 ≤ 2 ^ 32 - 32)
    (apart : Disjoint (m.ttbr0 / 2 ^ 14 * 2 ^ 14) (2 ^ 14) raw (2 ^ 15 + 3)) where
  -- The state behind the destructor, from the heap that it finds.
  abbrev pub taken_down : H → Machine H → Machine H
  taken_down heap m' = record m' {
    ttbr0 = m.ttbr0;
    ops = drain_write_buffer ∷ invalidate_tlb ∷ m'.ops;
    heap = p.free raw heap;
  }

  abbrev pub closed_editor : MmuEditor
  closed_editor = record { original_ttbr0_reg = m.ttbr0; edited_table = nullptr }

  -- After `MMUEditor()` on a heap that grants a block apart from the old table, and any sequence of
  -- calls of the editor that return, the editor is live, and `~MMUEditor()` puts the first TTBR0
  -- back, drops the TLB and frees the raw block; a second call does nothing.
  pub destroy-Session :
      (m' : Machine H)
      → Session
          (new_editor p m word grant high apart)
          (installed_state (new_table p m word grant high apart) raw heap' m)
          m'
      → IsLive (new_editor p m word grant high apart) m'
        × (destroy p (new_editor p m word grant high apart) m'
            ≡ done closed_editor (taken_down heap' m'))
        × (destroy p closed_editor (taken_down heap' m') ≡ done closed_editor (taken_down heap' m'))
  destroy-Session m' session =
      let e = new_editor p m word grant high apart in
      let live = new_editor-IsLive p m word grant high apart in
      let (live', kept) = Session-IsLive e live session in
      let low = live.installed in
      let aligned = live.aligned in
      let (closed, twice) =
        destroy-construct p m word grant high apart m'
          (kept.outside (e.edited_table - 4) (omega arith)) in
      (live', rw (← kept.same_heap) closed, rw (← kept.same_heap) twice)
