-- ===== src/Mmu/Coarse/Attached.antt =====
-- A coarse editor whose table stands in the parent's: what `Map4KBPage` and `Map64KBPage` make of the
-- whole address space.
use nspire_utils.Base.{
  ℕ, ◌+◌, ◌*◌, ◌/◌, ◌%◌, ◌^◌, ◌≤◌, ◌<◌, ◌&&◌, Option, ◌≡◌, ◌≢◌, ◌⊎◌, inl, inr, refl, sym, ◌∙◌,
  arith, ◌==◌, if◌then◌else◌, Bool, true, false, Bool-cases, ==→eq,
}
use nspire_utils.Machine.{Machine}
use nspire_utils.Machine.Store.{write_ne, store_range-outside}
use nspire_utils.Mmu.Walk.{
  Mapping, walk, walk_entry_frame, walk_page, Disjoint, TableOutside, outside_block,
}
use nspire_utils.Mmu.Editor.{MmuEditor}
use nspire_utils.Mmu.Editor.Section.{IsLive}
use nspire_utils.Mmu.Coarse.{
  CoarseEditor, coarse_descriptor, small_page_descriptor, large_page_descriptor,
}
use nspire_utils.Mmu.Coarse.Split.{
  coarse_descriptor-base, coarse_descriptor-type, coarse_descriptor-domain,
}
use nspire_utils.Mmu.Coarse.Life.{walk_coarse}
use nspire_utils.Mmu.Coarse.Pages.{HasTable, small_mapped, large_mapped}

-- The parent is live, and its entry for the editor's megabyte names the editor's table, which is apart
-- from the parent's.
pub record Attached {H : Type 0} (e : MmuEditor) (c : CoarseEditor) (domain : ℕ) (m : Machine H)
    : Type 0 where
  pub live : IsLive e m
  pub held : HasTable c
  pub slot :
      m.mem (e.edited_table + 4 * (c.virtual_addr / 2 ^ 20)) ≡ coarse_descriptor c.l2_table domain
  pub apart : Disjoint e.edited_table (2 ^ 14) c.l2_table (2 ^ 10)
  pub va_fits : c.virtual_addr < 2 ^ 32

-- What a call of the editor may change: the words of its table and the list of cache operations.
pub record WritesTable {H : Type 0} (c : CoarseEditor) (m m' : Machine H) : Type 0 where
  pub same_ttbr0 : m'.ttbr0 ≡ m.ttbr0
  pub same_heap : m'.heap ≡ m.heap
  pub outside : (x : ℕ) → (x < c.l2_table) ⊎ (c.l2_table + 2 ^ 10 ≤ x) → m'.mem x ≡ m.mem x

module _ {H : Type 0} (c : CoarseEditor) (m : Machine H) (va pa attributes : ℕ) where
  pub small_mapped-WritesTable :
      (held : HasTable c) → WritesTable c m (small_mapped c m held va pa attributes)
  small_mapped-WritesTable held = record {
    same_ttbr0 = refl;
    same_heap = refl;
    outside = λ x out. write_ne m.mem _ (small_page_descriptor pa attributes) x (omega arith);
  }

  pub large_mapped-WritesTable :
      (held : HasTable c) → WritesTable c m (large_mapped c m held va pa attributes)
  large_mapped-WritesTable held = record {
    same_ttbr0 = refl;
    same_heap = refl;
    outside = λ x out.
        store_range-outside c.l2_table (va / 2 ^ 16 % 16 * 16) 16
          (λ i. large_page_descriptor pa attributes) m.mem x (omega arith);
  }

module _ {H : Type 0} (e : MmuEditor) (c : CoarseEditor) (domain : ℕ) where
  pub WritesTable-Attached :
      {m m' : Machine H} → WritesTable c m m' → Attached e c domain m → Attached e c domain m'
  WritesTable-Attached {m} {m'} wrote at =
      let live = at.live in
      let apart = at.apart in
      let fits = at.va_fits in
      record {
        live = record {
          installed = live.installed;
          aligned = live.aligned;
          below = live.below;
          current = rw wrote.same_ttbr0 live.current;
        };
        held = at.held;
        slot = wrote.outside _ (omega arith) ∙ at.slot;
        apart = apart;
        va_fits = fits;
      }

  -- The walk of an address of the editor's megabyte goes through one entry of the editor's table.
  Attached-walk :
      (m : Machine H) (va' : ℕ)
      → Attached e c domain m
      → va' / 2 ^ 20 ≡ c.virtual_addr / 2 ^ 20
      → walk m.mem m.ttbr0 va'
        ≡ walk_page (m.mem (c.l2_table + 4 * (va' / 2 ^ 12 % 256))) (domain % 16) va'
  unfolding walk
  Attached-walk m va' at same =
      let held = at.held in
      let align = held.aligned in
      let below = held.below in
      let word : c.l2_table < 2 ^ 32 = omega arith in
      rw (
        at.live.current,
        same,
        at.slot,
        walk_coarse m.mem (coarse_descriptor c.l2_table domain) va'
            (coarse_descriptor-type c.l2_table domain word align),
        coarse_descriptor-base c.l2_table domain word align,
        coarse_descriptor-domain c.l2_table domain word align,
      )

  -- An address of another megabyte means what it meant before.
  WritesTable-walk_other :
      (m m' : Machine H) (va' : ℕ)
      → Attached e c domain m
      → WritesTable c m m'
      → va' < 2 ^ 32
      → va' / 2 ^ 20 ≢ c.virtual_addr / 2 ^ 20
      → TableOutside c.l2_table (2 ^ 10) (m.mem (e.edited_table + 4 * (va' / 2 ^ 20)))
      → walk m'.mem m'.ttbr0 va' ≡ walk m.mem m.ttbr0 va'
  unfolding walk
  WritesTable-walk_other m m' va' at wrote fits other outside =
      let apart = at.apart in
      let entry = m.mem (e.edited_table + 4 * (va' / 2 ^ 20)) in
      rw
        (
          wrote.same_ttbr0,
          at.live.current,
          wrote.outside (e.edited_table + 4 * (va' / 2 ^ 20)) (omega arith),
        )
        (walk_entry_frame m.mem m'.mem entry va'
          (λ coarse. wrote.outside _ (outside_block _ _ _ (va' / 2 ^ 12) (outside coarse))))

  -- The walk of every address, from what the call did to the addresses of its page and to the entries of
  -- the other pages.
  pub WritesTable-walk :
      {m m' : Machine H} {va' : ℕ} {mapping : Option Mapping} (hit : Bool)
      → Attached e c domain m
      → WritesTable c m m'
      → va' < 2 ^ 32
      → (va' / 2 ^ 20 ≢ c.virtual_addr / 2 ^ 20
          → TableOutside c.l2_table (2 ^ 10) (m.mem (e.edited_table + 4 * (va' / 2 ^ 20))))
      → (hit ≡ true
          → walk_page (m'.mem (c.l2_table + 4 * (va' / 2 ^ 12 % 256))) (domain % 16) va' ≡ mapping)
      → (hit ≡ false
          → m'.mem (c.l2_table + 4 * (va' / 2 ^ 12 % 256))
            ≡ m.mem (c.l2_table + 4 * (va' / 2 ^ 12 % 256)))
      → walk m'.mem m'.ttbr0 va' ≡ (
          if va' / 2 ^ 20 == c.virtual_addr / 2 ^ 20 && hit
          then mapping
          else walk m.mem m.ttbr0 va')
  WritesTable-walk {m} {m'} {va'} hit at wrote fits outside in_page elsewhere =
      elim (Bool-cases (va' / 2 ^ 20 == c.virtual_addr / 2 ^ 20)) [
        | inl here ↦
            let same = ==→eq (va' / 2 ^ 20) (c.virtual_addr / 2 ^ 20) here in
            let after = Attached-walk m' va' (WritesTable-Attached wrote at) same in
            rw (here, after)
              (elim (Bool-cases hit) [
                | inl mapped ↦ rw (in_page mapped, mapped) refl
                | inr kept ↦ rw (elsewhere kept, kept) (sym (Attached-walk m va' at same))
              ])
        | inr away ↦
            let other : va' / 2 ^ 20 ≢ c.virtual_addr / 2 ^ 20 = λ e. ground arith in
            rw away (WritesTable-walk_other m m' va' at wrote fits other (outside other))
      ]
