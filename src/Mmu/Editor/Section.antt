-- ===== src/Mmu/Editor/Section.antt =====
-- What the entries that `map` and `MapSection` write mean to the table walk.
use nspire_utils.Base.{
  ℕ, ◌+◌, ◌-◌, ◌*◌, ◌/◌, ◌%◌, ◌^◌, ◌≤◌, ◌<◌, bit_and, bit_or, ◌∷◌, some, ◌≡◌, ◌≢◌, arith, ne→==,
}
use nspire_utils.Word.{add32}
use nspire_utils.Word.Mask.{bit_and_field}
use nspire_utils.Word.Shift.{bit_or-zero, zero-bit_or, bit_or-div}
use nspire_utils.Machine.{
  Machine, done, write, drain_write_buffer, invalidate_tlb, clean_dcache_line,
}
use nspire_utils.Machine.Store.{write_self, write_ne}
use nspire_utils.Caches.{invalidate_tlbs}
use nspire_utils.Caches.Range.{flush_data_cache_range_lem, lines, line_count}
use nspire_utils.Alloc.{nullptr}
use nspire_utils.Mmu.Fields.{bit_or_fields}
use nspire_utils.Mmu.Walk.{walk, walk_entry, walk_entry_frame, Mapping, Disjoint, TableOutside}
use nspire_utils.Mmu.Editor.{MmuEditor, section_descriptor, put_entry, map, map_section, get_entry}

-- The state after one entry is written, cleaned and made visible.
abbrev pub after_put : {H : Type 0} → ℕ → ℕ → Machine H → Machine H
after_put a entry m = record m {
  mem = write m.mem a entry;
  ops = drain_write_buffer ∷ invalidate_tlb ∷ clean_dcache_line (a / 32 * 32) ∷ m.ops;
}

put_entry_lem :
    {H : Type 0} (a entry : ℕ) (m : Machine H)
    → a % 4 ≡ 0
    → a + 4 ≤ 2 ^ 32 - 32
    → put_entry a entry m ≡ done tt (after_put a entry m)
unfolding put_entry invalidate_tlbs lines
put_entry_lem a entry m align fits =
    let next : add32 a 4 ≡ a + 4 = omega arith in
    let one : line_count a (a + 4) ≡ 1 = omega arith in
    rw (
      next,
      flush_data_cache_range_lem a (a + 4) (record m { mem = write m.mem a entry }) (omega arith)
          fits,
      one,
    )

-- The editor holds a first-level table, and it is the one that the MMU walks.
pub record IsLive {H : Type 0} (e : MmuEditor) (m : Machine H) : Type 0 where
  pub installed : e.edited_table ≢ 0
  pub aligned : e.edited_table % 2 ^ 14 ≡ 0
  pub below : e.edited_table + 2 ^ 14 ≤ 2 ^ 32 - 32
  pub current : m.ttbr0 / 2 ^ 14 * 2 ^ 14 ≡ e.edited_table

-- The fields of a section's descriptor: the section's address, type 2, and the attributes' fields.
module _ (pa attributes : ℕ) (small : attributes < 2 ^ 20) (fits : pa < 2 ^ 32) where
  base_lem : bit_and pa 0xfff00000 ≡ pa / 2 ^ 20 * 2 ^ 20
  base_lem = omega (arith, bit_and_field 12 20 pa)

  pub section_address : section_descriptor pa attributes / 2 ^ 20 ≡ pa / 2 ^ 20
  unfolding section_descriptor
  section_address = ground (
    arith,
    base_lem,
    bit_or-div 20 (bit_or (bit_or (bit_and pa 0xfff00000) attributes) 2) 16,
    bit_or-div 20 (bit_or (bit_and pa 0xfff00000) attributes) 2,
    bit_or-div 20 (bit_and pa 0xfff00000) attributes,
    bit_or-zero (pa / 2 ^ 20),
  )

  section_permission : section_descriptor pa attributes / 2 ^ 10 % 4 ≡ attributes / 2 ^ 10 % 4
  unfolding section_descriptor
  section_permission = ground (
    arith,
    base_lem,
    bit_or_fields 10 2 (bit_and pa 0xfff00000) attributes 2 16,
    zero-bit_or (attributes / 2 ^ 10 % 4),
    bit_or-zero (attributes / 2 ^ 10 % 4),
  )

  section_policy : section_descriptor pa attributes / 2 ^ 2 % 4 ≡ attributes / 2 ^ 2 % 4
  unfolding section_descriptor
  section_policy = ground (
    arith,
    base_lem,
    bit_or_fields 2 2 (bit_and pa 0xfff00000) attributes 2 16,
    zero-bit_or (attributes / 2 ^ 2 % 4),
    bit_or-zero (attributes / 2 ^ 2 % 4),
  )

  section_domain : section_descriptor pa attributes / 2 ^ 5 % 16 ≡ attributes / 2 ^ 5 % 16
  unfolding section_descriptor
  section_domain = ground (
    arith,
    base_lem,
    bit_or_fields 5 4 (bit_and pa 0xfff00000) attributes 2 16,
    zero-bit_or (attributes / 2 ^ 5 % 16),
    bit_or-zero (attributes / 2 ^ 5 % 16),
  )

  pub section_type : attributes % 4 ≡ 0 → section_descriptor pa attributes % 4 ≡ 2
  unfolding section_descriptor
  section_type clear =
      ground (arith, base_lem, bit_or_fields 0 2 (bit_and pa 0xfff00000) attributes 2 16)

-- The mapping of a section: `va`'s offset in the megabyte at `pa`, with the attributes' fields.
abbrev pub section_mapping : ℕ → ℕ → ℕ → Mapping
section_mapping pa attributes va = record {
  address = pa / 2 ^ 20 * 2 ^ 20 + va % 2 ^ 20;
  permission = attributes / 2 ^ 10 % 4;
  policy = attributes / 2 ^ 2 % 4;
  domain = attributes / 2 ^ 5 % 16;
}

pub section_walk :
    (mem : ℕ → ℕ) (pa attributes va : ℕ)
    → attributes < 2 ^ 20
    → pa < 2 ^ 32
    → attributes % 4 ≡ 0
    → walk_entry mem (section_descriptor pa attributes) va ≡ some (section_mapping pa attributes va)
unfolding walk_entry
section_walk mem pa attributes va small fits clear = rw (
  section_type pa attributes small fits clear,
  section_address pa attributes small fits,
  section_permission pa attributes small fits,
  section_policy pa attributes small fits,
  section_domain pa attributes small fits,
)

outside-ne :
    {t : ℕ} (base a i : ℕ)
    → Disjoint base (2 ^ 10) t (2 ^ 14)
    → t ≤ a
    → a < t + 2 ^ 14
    → base + 4 * (i % 256) ≢ a
outside-ne base a i h lo hi = omega arith

module _ {H : Type 0} (e : MmuEditor) (m : Machine H) (live : IsLive e m) where
  -- `MapSection` on a live editor returns with one entry of the table written, and from then on
  -- the MMU takes every address of that megabyte to the same offset of the physical megabyte, with
  -- the permission, cache policy and domain that the attributes hold. The attributes are those of a
  -- section: below bit 20, and clear in the two type bits.
  map_section-walk :
      (va pa attributes va' : ℕ)
      → va < 2 ^ 32
      → pa < 2 ^ 32
      → attributes < 2 ^ 20
      → attributes % 4 ≡ 0
      → va' / 2 ^ 20 ≡ va / 2 ^ 20
      → let m' =
          after_put (e.edited_table + 4 * (va / 2 ^ 20)) (section_descriptor pa attributes) m in
        (map_section e va pa attributes m ≡ done tt m')
        × (walk m'.mem m'.ttbr0 va' ≡ some (section_mapping pa attributes va'))
  unfolding map_section walk
  map_section-walk va pa attributes va' vfits fits small clear same =
      let installed = live.installed in
      let aligned = live.aligned in
      let below = live.below in
      let a = e.edited_table + 4 * (va / 2 ^ 20) in
      let entry = section_descriptor pa attributes in
      (
        rw (
          ne→== e.edited_table nullptr installed,
          put_entry_lem a entry m (omega arith) (omega arith),
        ),
        rw (live.current, same, write_self m.mem a entry)
            (section_walk (write m.mem a entry) pa attributes va' small fits clear),
      )

module _ {H : Type 0} (e : MmuEditor) (m : Machine H) (live : IsLive e m) where
  -- `map` on a live editor writes the one entry of its address, and every address of another
  -- megabyte, whose second-level table, if it has one, lies outside the edited table, means what it
  -- meant before.
  pub map-walk_other :
      (va entry va' : ℕ)
      → va < 2 ^ 32
      → va' < 2 ^ 32
      → va' / 2 ^ 20 ≢ va / 2 ^ 20
      → TableOutside e.edited_table (2 ^ 14) (m.mem (e.edited_table + 4 * (va' / 2 ^ 20)))
      → let m' = after_put (e.edited_table + 4 * (va / 2 ^ 20)) entry m in
        (map e va entry m ≡ done tt m') × (walk m'.mem m'.ttbr0 va' ≡ walk m.mem m.ttbr0 va')
  unfolding map walk
  map-walk_other va entry va' vfits vfits' other apart =
      let installed = live.installed in
      let aligned = live.aligned in
      let below = live.below in
      let a = e.edited_table + 4 * (va / 2 ^ 20) in
      let l1 = m.mem (e.edited_table + 4 * (va' / 2 ^ 20)) in
      (
        rw (
          ne→== e.edited_table nullptr installed,
          put_entry_lem a entry m (omega arith) (omega arith),
        ),
        rw
            (
              live.current,
              write_ne m.mem a entry (e.edited_table + 4 * (va' / 2 ^ 20)) (omega arith),
            )
            (walk_entry_frame m.mem (write m.mem a entry) l1 va' (λ c.
              write_ne m.mem a entry _ (outside-ne _ a _ (apart c) (omega arith) (omega arith)))),
      )

-- `map`, `MapSection` and `get_entry` on a live editor.
module _ {H : Type 0} (e : MmuEditor) (m : Machine H) (live : IsLive e m) where
  pub map_lem :
      (va entry : ℕ)
      → va < 2 ^ 32
      → map e va entry m ≡ done tt (after_put (e.edited_table + 4 * (va / 2 ^ 20)) entry m)
  unfolding map
  map_lem va entry fits =
      let installed = live.installed in
      let aligned = live.aligned in
      let below = live.below in
      rw (
        ne→== e.edited_table nullptr installed,
        put_entry_lem (e.edited_table + 4 * (va / 2 ^ 20)) entry m (omega arith) (omega arith),
      )

  pub map_section_lem :
      (va pa attributes : ℕ)
      → va < 2 ^ 32
      → map_section e va pa attributes m
        ≡ done tt
            (after_put (e.edited_table + 4 * (va / 2 ^ 20)) (section_descriptor pa attributes) m)
  unfolding map_section
  map_section_lem va pa attributes fits =
      let installed = live.installed in
      let aligned = live.aligned in
      let below = live.below in
      rw (
        ne→== e.edited_table nullptr installed,
        put_entry_lem (e.edited_table + 4 * (va / 2 ^ 20)) (section_descriptor pa attributes) m
            (omega arith) (omega arith),
      )

  pub get_entry_lem :
      (va : ℕ) → get_entry e va m ≡ done (m.mem (e.edited_table + 4 * (va / 2 ^ 20))) m
  unfolding get_entry
  get_entry_lem va = rw (ne→== e.edited_table nullptr live.installed)
