-- ===== src/Mmu/Editor/Life.antt =====
-- The life of an `MMUEditor`: the constructor installs a copy under which every address means what
-- it meant, and the destructor takes it down again.
use nspire_utils.Base.{
  ℕ, ◌+◌, ◌-◌, ◌*◌, ◌/◌, ◌%◌, ◌^◌, ◌≤◌, ◌<◌, bit_and, bit_or, ◌∷◌, ◌≡◌, ◌≢◌, ◌⊎◌, refl, ap, ◌∙◌,
  arith, ne→==, sym,
}
use nspire_utils.Word.{add32, not32}
use nspire_utils.Word.Mask.{bit_and_field, bit_and_low, bit_or_sum}
use nspire_utils.Machine.{
  Machine, done, write, copy_block, drain_write_buffer, invalidate_tlb, clean_dcache_line,
}
use nspire_utils.Machine.Store.{write_self, write_ne, copy_block-inside, copy_block-outside}
use nspire_utils.Caches.{invalidate_tlbs}
use nspire_utils.Caches.Range.{flush_data_cache_range_lem, lines, line_count}
use nspire_utils.Alloc.{Platform, nullptr}
use nspire_utils.Alloc.Block.{Grants, aligned_alloc_lem, aligned_free_lem}
use nspire_utils.Mmu.Walk.{outside_block, walk, walk_entry_frame, Disjoint, TableOutside}
use nspire_utils.Mmu.Editor.{MmuEditor, install, construct, destroy}
use nspire_utils.Mmu.Editor.Section.{IsLive}

-- TTBR0 as the code takes it apart: the table's address and 14 bits of flags.
table_lem : (r : ℕ) → r < 2 ^ 32 → bit_and r 0xffffc000 ≡ r / 2 ^ 14 * 2 ^ 14
table_lem r h = omega (arith, bit_and_field 18 14 r)

flags_lem : (r : ℕ) → bit_and r (not32 0xffffc000) ≡ r % 2 ^ 14
flags_lem r = bit_and_low 14 r

new_ttbr0_lem : (table r : ℕ) → table % 2 ^ 14 ≡ 0 → bit_or table (r % 2 ^ 14) ≡ table + r % 2 ^ 14
new_ttbr0_lem table r h =
    let e : table ≡ table / 2 ^ 14 * 2 ^ 14 = omega arith in
    ap (λ t. bit_or t (r % 2 ^ 14)) e
    ∙ bit_or_sum 14 (table / 2 ^ 14) (r % 2 ^ 14) (omega arith)
    ∙ ap (λ t. t + r % 2 ^ 14) (sym e)

-- The state that the constructor leaves, from the block's address and the heap behind it.
abbrev pub installed_state : {H : Type 0} → ℕ → ℕ → H → Machine H → Machine H
installed_state table raw heap' m = record {
  mem = copy_block table (m.ttbr0 / 2 ^ 14 * 2 ^ 14) (2 ^ 14) (write m.mem (table - 4) raw);
  ttbr0 = table + m.ttbr0 % 2 ^ 14;
  sctlr = m.sctlr;
  ops =
      drain_write_buffer
      ∷ invalidate_tlb
      ∷ lines clean_dcache_line (table / 32 * 32) (line_count table (table + 2 ^ 14)) m.ops;
  heap = heap';
}

install_lem :
    {H : Type 0} (p : Platform H) (table : ℕ) (m : Machine H)
    → table ≢ 0
    → table % 2 ^ 14 ≡ 0
    → table + 2 ^ 14 ≤ 2 ^ 32 - 32
    → m.ttbr0 < 2 ^ 32
    → install p m.ttbr0 table m
      ≡ done
          (record { original_ttbr0_reg = m.ttbr0; edited_table = table })
          (record {
            mem = copy_block table (m.ttbr0 / 2 ^ 14 * 2 ^ 14) (2 ^ 14) m.mem;
            ttbr0 = table + m.ttbr0 % 2 ^ 14;
            sctlr = m.sctlr;
            ops =
                drain_write_buffer
                ∷ invalidate_tlb
                ∷ lines clean_dcache_line
                    (table / 32 * 32)
                    (line_count table (table + 2 ^ 14))
                    m.ops;
            heap = m.heap;
          })
unfolding install invalidate_tlbs
install_lem p table m ne align below word =
    let next : add32 table 16384 ≡ table + 2 ^ 14 = omega arith in
    rw (
      ne→== table nullptr ne,
      table_lem m.ttbr0 word,
      next,
      flush_data_cache_range_lem table (table + 2 ^ 14)
          (record m { mem = copy_block table (m.ttbr0 / 2 ^ 14 * 2 ^ 14) (2 ^ 14) m.mem })
          (omega arith) below,
      flags_lem m.ttbr0,
      new_ttbr0_lem table m.ttbr0 align,
    )

module _ {H : Type 0} (p : Platform H) (m : Machine H) {raw : ℕ} {heap' : H}
    (word : m.ttbr0 < 2 ^ 32) (grant : Grants p (2 ^ 14 + 2 ^ 14 + 3) m.heap raw heap')
    (high : raw + 2 ^ 15 + 3 ≤ 2 ^ 32 - 32)
    (apart : Disjoint (m.ttbr0 / 2 ^ 14 * 2 ^ 14) (2 ^ 14) raw (2 ^ 15 + 3)) where
  -- The table that the allocator cuts out of the raw block.
  abbrev pub new_table : ℕ
  new_table = (raw + 2 ^ 14 + 3) / 2 ^ 14 * 2 ^ 14

  abbrev pub new_editor : MmuEditor
  new_editor = record { original_ttbr0_reg = m.ttbr0; edited_table = new_table }

  pub construct_lem : construct p m ≡ done new_editor (installed_state new_table raw heap' m)
  unfolding construct
  construct_lem =
      let (allocated, align, low, fits) =
        aligned_alloc_lem p 14 (2 ^ 14) m (omega arith) (omega arith) (omega arith) grant in
      rw allocated (
        install_lem p new_table (record m { mem = write m.mem (new_table - 4) raw; heap = heap' })
          (omega arith) align (omega arith) word)

  pub table_facts :
      (new_table % 2 ^ 14 ≡ 0) × (raw + 4 ≤ new_table) × (new_table + 2 ^ 14 ≤ raw + (2 ^ 15 + 3))
  table_facts =
      let (_, align, low, fits) =
        aligned_alloc_lem p 14 (2 ^ 14) m (omega arith) (omega arith) (omega arith) grant in
      (align, low, omega arith)

  pub new_editor-IsLive : IsLive new_editor (installed_state new_table raw heap' m)
  new_editor-IsLive =
      let (align, low, fits) = table_facts in
      record {
        installed = omega arith;
        aligned = align;
        below = omega arith;
        current = omega arith;
      }

  -- Outside the raw block the store is as it was.
  pub installed-outside :
      (a : ℕ)
      → (a < raw) ⊎ (raw + (2 ^ 15 + 3) ≤ a)
      → (installed_state new_table raw heap' m).mem a ≡ m.mem a
  installed-outside a out =
      let (_, low, fits) = table_facts in
      copy_block-outside new_table (m.ttbr0 / 2 ^ 14 * 2 ^ 14) (2 ^ 14)
        (write m.mem (new_table - 4) raw) a (omega arith)
      ∙ write_ne m.mem (new_table - 4) raw a (omega arith)

  -- The copied entries are the old ones.
  pub installed-entry :
      (i : ℕ)
      → i < 2 ^ 12
      → (installed_state new_table raw heap' m).mem (new_table + 4 * i)
        ≡ m.mem (m.ttbr0 / 2 ^ 14 * 2 ^ 14 + 4 * i)
  installed-entry i h =
      let (_, low, fits) = table_facts in
      copy_block-inside new_table (m.ttbr0 / 2 ^ 14 * 2 ^ 14) (2 ^ 14)
        (write m.mem (new_table - 4) raw) (4 * i) (omega arith)
      ∙ write_ne m.mem (new_table - 4) raw (m.ttbr0 / 2 ^ 14 * 2 ^ 14 + 4 * i) (omega arith)

  -- `MMUEditor()` returns an editor that is live on a fresh copy of the first-level table: TTBR0
  -- keeps its flags, and the MMU takes every address, whose second-level table, if it has one, is
  -- not in the block just allocated, exactly where it took it before. The heap must grant a block
  -- that ends below the last cache line and does not touch the old table.
  pub construct-walk :
      (va : ℕ)
      → va < 2 ^ 32
      → TableOutside raw (2 ^ 15 + 3) (m.mem (m.ttbr0 / 2 ^ 14 * 2 ^ 14 + 4 * (va / 2 ^ 20)))
      → let m' = installed_state new_table raw heap' m in
        (construct p m ≡ done new_editor m')
        × IsLive new_editor m'
        × (m'.ttbr0 % 2 ^ 14 ≡ m.ttbr0 % 2 ^ 14)
        × (walk m'.mem m'.ttbr0 va ≡ walk m.mem m.ttbr0 va)
  unfolding walk
  construct-walk va fits_va outside =
      let (align, low, fits) = table_facts in
      let m' = installed_state new_table raw heap' m in
      let base : (new_table + m.ttbr0 % 2 ^ 14) / 2 ^ 14 * 2 ^ 14 ≡ new_table = omega arith in
      let l1 = m.mem (m.ttbr0 / 2 ^ 14 * 2 ^ 14 + 4 * (va / 2 ^ 20)) in
      (
        construct_lem,
        new_editor-IsLive,
        omega arith,
        rw (base, installed-entry (va / 2 ^ 20) (omega arith))
            (walk_entry_frame m.mem m'.mem l1 va
              (λ c. installed-outside _ (outside_block _ _ _ (va / 2 ^ 12) (outside c)))),
      )

  -- Whatever was done meanwhile, as long as nobody wrote over the allocator's header,
  -- `~MMUEditor()` puts the first TTBR0 back, drops the TLB, and gives the raw block back to the
  -- heap; a second call does nothing.
  pub destroy-construct :
      (m' : Machine H)
      → m'.mem (new_table - 4) ≡ (installed_state new_table raw heap' m).mem (new_table - 4)
      → let e' = record new_editor { edited_table = nullptr } in
        let m'' = record m' {
          ttbr0 = m.ttbr0;
          ops = drain_write_buffer ∷ invalidate_tlb ∷ m'.ops;
          heap = p.free raw m'.heap;
        } in
        (destroy p new_editor m' ≡ done e' m'') × (destroy p e' m'' ≡ done e' m'')
  unfolding destroy invalidate_tlbs
  destroy-construct m' kept =
      let (align, low, fits) = table_facts in
      let header : (installed_state new_table raw heap' m).mem (new_table - 4) ≡ raw =
        copy_block-outside new_table (m.ttbr0 / 2 ^ 14 * 2 ^ 14) (2 ^ 14)
          (write m.mem (new_table - 4) raw) (new_table - 4) (omega arith)
        ∙ write_self m.mem (new_table - 4) raw in
      (
        rw (
          ne→== new_table nullptr (omega arith),
          aligned_free_lem p new_table
              (record m' { ttbr0 = m.ttbr0; ops = drain_write_buffer ∷ invalidate_tlb ∷ m'.ops })
              (omega arith) (omega arith),
          kept,
          header,
        ),
        refl,
      )
