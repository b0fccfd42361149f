-- ===== src/Interrupted/Blocks.antt =====
-- The blocks that `main` of tests/interrupted/main.cpp takes from the heap, and what is in them when it maps the
-- first one.
use nspire_utils.Base.{ℕ, ◌+◌, ◌-◌, ◌*◌, ◌/◌, ◌%◌, ◌^◌, ◌≤◌, ◌<◌, ◌∷◌, ◌≡◌, ◌≢◌, ◌⊎◌, ◌∙◌, arith}
use nspire_utils.Machine.{Machine, write, zero_block, drain_write_buffer, clean_dcache_line}
use nspire_utils.Machine.Store.{write_self, write_ne, zero_block-outside}
use nspire_utils.Caches.Range.{lines, line_count}
use nspire_utils.Alloc.{Platform}
use nspire_utils.Alloc.Block.{Grants, aligned_alloc_lem}
use nspire_utils.Mmu.Walk.{Disjoint}
use nspire_utils.Interrupted.SetUp.{Room, ttb, l2, prepared, ttb_facts, l2_facts, prepared-outside}
use nspire_utils.Interrupted.Running.{Kept}
use nspire_utils.Interrupted.Vectors.{Layout}
use nspire_utils.Interrupted.CleanUp.{Held}

-- A heap that grants the four blocks, which are apart from each other and from the first-level table in
-- force, whose last entry can be taken over.
pub record Blocks {H : Type 0} (p : Platform H) (m : Machine H)
    (raw_table raw_stack raw_ttb raw_l2 : ℕ) (heap₁ heap₂ heap₃ heap₄ : H) : Type 0 where
  pub word : m.ttbr0 < 2 ^ 32
  pub table_grant : Grants p (2 ^ 12 + 2 ^ 12 + 3) m.heap raw_table heap₁
  pub stack_grant : Grants p (2 ^ 12 + 2 ^ 12 + 3) heap₁ raw_stack heap₂
  pub ttb_grant : Grants p (2 ^ 14 + 2 ^ 14 + 3) heap₂ raw_ttb heap₃
  pub l2_grant : Grants p (2 ^ 10 + 2 ^ 10 + 3) heap₃ raw_l2 heap₄
  pub table_high : raw_table + 2 ^ 13 + 3 ≤ 2 ^ 32 - 32
  pub ttb_high : raw_ttb + 2 ^ 15 + 3 ≤ 2 ^ 32 - 32
  pub l2_high : raw_l2 + 2 ^ 11 + 3 ≤ 2 ^ 32 - 32
  pub old_table : Disjoint (m.ttbr0 / 2 ^ 14 * 2 ^ 14) (2 ^ 14) raw_table (2 ^ 13 + 3)
  pub old_stack : Disjoint (m.ttbr0 / 2 ^ 14 * 2 ^ 14) (2 ^ 14) raw_stack (2 ^ 13 + 3)
  pub old_ttb : Disjoint (m.ttbr0 / 2 ^ 14 * 2 ^ 14) (2 ^ 14) raw_ttb (2 ^ 15 + 3)
  pub table_stack : Disjoint raw_table (2 ^ 13 + 3) raw_stack (2 ^ 13 + 3)
  pub table_ttb : Disjoint raw_table (2 ^ 13 + 3) raw_ttb (2 ^ 15 + 3)
  pub table_l2 : Disjoint raw_table (2 ^ 13 + 3) raw_l2 (2 ^ 11 + 3)
  pub stack_ttb : Disjoint raw_stack (2 ^ 13 + 3) raw_ttb (2 ^ 15 + 3)
  pub stack_l2 : Disjoint raw_stack (2 ^ 13 + 3) raw_l2 (2 ^ 11 + 3)
  pub ttb_l2 : Disjoint raw_ttb (2 ^ 15 + 3) raw_l2 (2 ^ 11 + 3)
  pub entry_word : m.mem (m.ttbr0 / 2 ^ 14 * 2 ^ 14 + 4 * 0xfff) < 2 ^ 32
  pub entry_kind : m.mem (m.ttbr0 / 2 ^ 14 * 2 ^ 14 + 4 * 0xfff) % 4 ≢ 3

module _ {H : Type 0} (p : Platform H) (m : Machine H) {raw_table raw_stack raw_ttb raw_l2 : ℕ}
    {heap₁ heap₂ heap₃ heap₄ : H}
    (blocks : Blocks p m raw_table raw_stack raw_ttb raw_l2 heap₁ heap₂ heap₃ heap₄) where
  abbrev pub table : ℕ
  table = (raw_table + 2 ^ 12 + 3) / 2 ^ 12 * 2 ^ 12

  abbrev pub stack : ℕ
  stack = (raw_stack + 2 ^ 12 + 3) / 2 ^ 12 * 2 ^ 12

  -- The machine behind the first allocation, behind the second, and with the block for the vectors
  -- cleared.
  abbrev pub one_block : Machine H
  one_block = record m { mem = write m.mem (table - 4) raw_table; heap = heap₁ }

  abbrev pub two_blocks : Machine H
  two_blocks = record one_block { mem = write one_block.mem (stack - 4) raw_stack; heap = heap₂ }

  abbrev pub blank : Machine H
  blank = record two_blocks {
    mem = zero_block table (2 ^ 12) two_blocks.mem;
    ops =
        drain_write_buffer
        ∷ lines clean_dcache_line (table / 32 * 32) (line_count table (table + 2 ^ 12)) m.ops;
  }

  pub table_facts :
      (table % 2 ^ 12 ≡ 0) × (raw_table + 4 ≤ table) × (table + 2 ^ 12 ≤ raw_table + (2 ^ 13 + 3))
  table_facts =
      let (_, align, from, fits) =
        aligned_alloc_lem p 12 (2 ^ 12) m (omega arith) (omega arith) (omega arith)
          blocks.table_grant in
      (align, from, omega arith)

  pub stack_facts :
      (stack % 2 ^ 12 ≡ 0) × (raw_stack + 4 ≤ stack) × (stack + 2 ^ 12 ≤ raw_stack + (2 ^ 13 + 3))
  stack_facts =
      let (_, align, from, fits) =
        aligned_alloc_lem p 12 (2 ^ 12) one_block (omega arith) (omega arith) (omega arith)
          blocks.stack_grant in
      (align, from, omega arith)

  -- Outside the two blocks the store is as it was.
  pub blank-outside :
      (x : ℕ)
      → (x < raw_table) ⊎ (raw_table + (2 ^ 13 + 3) ≤ x)
      → (x < raw_stack) ⊎ (raw_stack + (2 ^ 13 + 3) ≤ x)
      → blank.mem x ≡ m.mem x
  blank-outside x o₁ o₂ =
      let (_, from₁, fits₁) = table_facts in
      let (_, from₂, fits₂) = stack_facts in
      zero_block-outside table (2 ^ 12) two_blocks.mem x (omega arith)
      ∙ write_ne one_block.mem (stack - 4) raw_stack x (omega arith)
      ∙ write_ne m.mem (table - 4) raw_table x (omega arith)

  pub room : Room p blank table raw_ttb raw_l2 heap₃ heap₄
  room =
      let (align, from, fits) = table_facts in
      let d₁ = blocks.old_table in
      let d₂ = blocks.old_stack in
      let d₃ = blocks.table_ttb in
      let d₄ = blocks.table_l2 in
      let top = blocks.table_high in
      let entry =
        blank-outside (m.ttbr0 / 2 ^ 14 * 2 ^ 14 + 4 * 0xfff) (omega arith) (omega arith) in
      record {
        word = blocks.word;
        aligned = align;
        table_below = omega arith;
        ttb_grant = blocks.ttb_grant;
        l2_grant = blocks.l2_grant;
        ttb_high = blocks.ttb_high;
        l2_high = blocks.l2_high;
        old_ttb = blocks.old_ttb;
        ttb_l2 = blocks.ttb_l2;
        table_ttb = omega arith;
        table_l2 = omega arith;
        entry_word = rw entry blocks.entry_word;
        entry_kind = rw entry blocks.entry_kind;
      }

  pub layout : Layout (ttb p blank room) (l2 p blank room) table stack
  layout =
      let (table_align, table_from, table_fits) = table_facts in
      let (_, stack_from, stack_fits) = stack_facts in
      let (_, ttb_from, ttb_fits) = ttb_facts p blank room in
      let (l2_align, l2_from, l2_fits) = l2_facts p blank room in
      let top₁ = blocks.table_high in
      let top₂ = blocks.l2_high in
      let d₁ = blocks.table_ttb in
      let d₂ = blocks.table_l2 in
      let d₃ = blocks.stack_ttb in
      let d₄ = blocks.stack_l2 in
      let d₅ = blocks.table_stack in
      record {
        l2_fits = omega arith;
        l2_aligned = l2_align;
        table_fits = omega arith;
        table_aligned = table_align;
        table_ttb = omega arith;
        table_l2 = omega arith;
        stack_ttb = omega arith;
        stack_l2 = omega arith;
        stack_table = omega arith;
      }

  -- The headers of the first two blocks are behind the set-up and behind what the program and its
  -- handlers write.
  pub held :
      (m' : Machine H)
      → Kept table (2 ^ 12) stack (2 ^ 12) (prepared p blank room) m'
      → Held table raw_table stack raw_stack raw_ttb raw_l2 m'
  held m' kept =
      let (_, table_from, table_fits) = table_facts in
      let (_, stack_from, stack_fits) = stack_facts in
      let inside = blocks.stack_grant.inside in
      let d₁ = blocks.table_ttb in
      let d₂ = blocks.table_l2 in
      let d₃ = blocks.stack_ttb in
      let d₄ = blocks.stack_l2 in
      let d₅ = blocks.table_stack in
      record {
        table_low = omega arith;
        stack_low = omega arith;
        stack_fits = omega arith;
        stack_ttb = omega arith;
        stack_l2 = omega arith;
        table_header =
            kept.outside (table - 4) (omega arith) (omega arith)
            ∙ prepared-outside p blank room (table - 4) (omega arith) (omega arith)
            ∙ zero_block-outside table (2 ^ 12) two_blocks.mem (table - 4) (omega arith)
            ∙ write_ne one_block.mem (stack - 4) raw_stack (table - 4) (omega arith)
            ∙ write_self m.mem (table - 4) raw_table;
        stack_header =
            kept.outside (stack - 4) (omega arith) (omega arith)
            ∙ prepared-outside p blank room (stack - 4) (omega arith) (omega arith)
            ∙ zero_block-outside table (2 ^ 12) two_blocks.mem (stack - 4) (omega arith)
            ∙ write_self one_block.mem (stack - 4) raw_stack;
      }
