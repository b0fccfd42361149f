-- ===== src/Interrupted/Main.antt =====
-- `main` of tests/interrupted/main.cpp from end to end: it takes its interrupts and puts everything back.
use nspire_utils.Base.{ℕ, ◌+◌, ◌*◌, ◌%◌, ◌^◌, ◌≤◌, ◌<◌, ◌≡◌, ◌⊎◌, refl, ap, ◌∙◌, arith, ne→==}
use mathlib.Core.Path.{subst}
use nspire_utils.Word.{add32}
use nspire_utils.Machine.{Machine, zero_block}
use nspire_utils.Machine.Store.{write_ne}
use nspire_utils.Caches.{drain_writes}
use nspire_utils.Caches.Range.{flush_data_cache_range_lem}
use nspire_utils.Alloc.{Platform, nullptr}
use nspire_utils.Alloc.Block.{aligned_alloc_lem}
use nspire_utils.Cpu as Processor
use nspire_utils.Cpu.{set_banked_sp}
use nspire_utils.Cpu.Banks.{SameMode, set_banked_sp-cpsr}
use nspire_utils.Device.{Bus}
use nspire_utils.Vic.Editor.{VicEditor}
use nspire_utils.Evt.{low, high, with_position}
use nspire_utils.Interrupted.State.{System, Program, returns}
use nspire_utils.Interrupted.{Handlers, with_blocks, with_stack, with_table, main, block_size}
use nspire_utils.Interrupted.Lifetime.{
  vic_editor, opened, Bootable, Restored, main_lem, closed-Restored, opened-cpu,
}
use nspire_utils.Interrupted.SetUp.{
  prepared, map_vectors_lem, prepared-outside, prepared-MapsVectors, ttb, ttb_facts, old_entry,
}
use nspire_utils.Interrupted.Running.{Kept, ServesInterrupts}
use nspire_utils.Interrupted.Vectors.{interrupts-vectors}
use nspire_utils.Interrupted.CleanUp.{cleaned, clean_up_lem}
use nspire_utils.Interrupted.Blocks.{
  Blocks, table, stack, one_block, two_blocks, blank, table_facts, stack_facts, blank-outside, room,
  layout, held,
}

-- The system at the end of `main`, at one address `x`: the controller and the processor as they were, the
-- same table in force, the vectors low, the four blocks freed, and the word at `x` as it was.
pub record PutBack {H V T : Type 0} (p : Platform H) (vic_bus : Bus V)
    (raw_table raw_stack raw_ttb raw_l2 : ℕ) (heap : H) (x : ℕ) (s s' : System H V T) : Type 0 where
  pub devices : Restored vic_bus s s'
  pub same_ttbr0 : s'.machine.ttbr0 ≡ s.machine.ttbr0
  pub vectors : s'.machine.sctlr ≡ with_position low (with_position high s.machine.sctlr)
  pub freed :
      s'.machine.heap ≡ p.free raw_ttb (p.free raw_l2 (p.free raw_stack (p.free raw_table heap)))
  pub same_word : s'.machine.mem x ≡ s.machine.mem x

module _ {H V T : Type 0} (p : Platform H) (vic_bus : Bus V) (timer_bus : Bus T)
    (handlers : Handlers) (wait : Program (System H V T) (Unit {0})) (m : Machine H)
    {raw_table raw_stack raw_ttb raw_l2 : ℕ} {heap₁ heap₂ heap₃ heap₄ : H}
    (blocks : Blocks p m raw_table raw_stack raw_ttb raw_l2 heap₁ heap₂ heap₃ heap₄)
    (serves : ServesInterrupts (stack p m blocks) wait) where
  -- `main` from its second allocation on: the system before the clean-up, and what it has kept.
  with_blocks_lem :
      (e : VicEditor) (s : System H V T)
      → s.machine ≡ two_blocks p m blocks
      → s.cpu.cpsr < 2 ^ 32
      → (s' : System H V T) × (with_blocks p vic_bus timer_bus handlers wait e
            (table p m blocks)
            (stack p m blocks)
            s
          ≡ returns 0 (record s' {
            machine = cleaned p (blank p m blocks) (room p m blocks) raw_table raw_stack s'.machine;
          }))
        × Kept
            (table p m blocks)
            (2 ^ 12)
            (stack p m blocks)
            (2 ^ 12)
            (prepared p (blank p m blocks) (room p m blocks))
            s'.machine
        × SameMode s.cpu s'.cpu
  unfolding with_blocks drain_writes
  with_blocks_lem e s at word =
      let t = table p m blocks in
      let k = stack p m blocks in
      let r = room p m blocks in
      let (_, from, fits) = table_facts p m blocks in
      let top = blocks.table_high in
      let next : add32 t 4096 ≡ t + 2 ^ 12 = omega arith in
      let two = two_blocks p m blocks in
      let zeroed : Machine H = record two { mem = zero_block t (2 ^ 12) two.mem } in
      let flushed = flush_data_cache_range_lem t (t + 2 ^ 12) zeroed (omega arith) (omega arith) in
      let s₁ : System H V T = record s {
        machine = blank p m blocks;
        cpu = set_banked_sp Processor.irq (k + block_size) s.cpu;
      } in
      let mapped = map_vectors_lem p (blank p m blocks) r s₁ refl in
      let s₂ : System H V T = record s₁ { machine = prepared p (blank p m blocks) r } in
      let same = set_banked_sp-cpsr (k + block_size) s.cpu word in
      let (s₃, ran, kept, fits₃, _, _, _) =
        interrupts-vectors vic_bus timer_bus handlers wait (layout p m blocks) serves e s₂
          (prepared-MapsVectors p (blank p m blocks) r) (rw same word) in
      let closing = clean_up_lem p (blank p m blocks) r s₃ kept (held p m blocks s₃.machine kept) in
      (
        s₃,
        rw (at, next, flushed, mapped, ran, closing) refl,
        kept,
        (fits₃.0, fits₃.1 ∙ ap (λ v. v % 2 ^ 5) same),
      )

  with_table_lem :
      (e : VicEditor) (s : System H V T)
      → s.cpu.cpsr < 2 ^ 32
      → (s' : System H V T) × (with_table p vic_bus timer_bus handlers wait e
            (table p m blocks)
            (record s { machine = one_block p m blocks })
          ≡ returns 0 (record s' {
            machine = cleaned p (blank p m blocks) (room p m blocks) raw_table raw_stack s'.machine;
          }))
        × Kept
            (table p m blocks)
            (2 ^ 12)
            (stack p m blocks)
            (2 ^ 12)
            (prepared p (blank p m blocks) (room p m blocks))
            s'.machine
        × SameMode s.cpu s'.cpu
  unfolding with_table with_stack
  with_table_lem e s word =
      let (_, from₁, _) = table_facts p m blocks in
      let (_, from₂, _) = stack_facts p m blocks in
      let (got, _, _, _) =
        aligned_alloc_lem p 12 (2 ^ 12) (one_block p m blocks) (omega arith) (omega arith)
          (omega arith) blocks.stack_grant in
      let (s', ran, kept, fits) =
        with_blocks_lem e (record s { machine = two_blocks p m blocks }) refl word in
      (
        s',
        rw
            (
              ne→== (table p m blocks) nullptr (omega arith),
              got,
              ne→== (stack p m blocks) nullptr (omega arith),
            )
            ran,
        kept,
        fits,
      )

  -- Outside the four blocks the clean-up leaves what was there at the start.
  cleaned-outside :
      {m' : Machine H} (x : ℕ)
      → Kept
          (table p m blocks)
          (2 ^ 12)
          (stack p m blocks)
          (2 ^ 12)
          (prepared p (blank p m blocks) (room p m blocks))
          m'
      → (x < raw_table) ⊎ (raw_table + (2 ^ 13 + 3) ≤ x)
      → (x < raw_stack) ⊎ (raw_stack + (2 ^ 13 + 3) ≤ x)
      → (x < raw_ttb) ⊎ (raw_ttb + (2 ^ 15 + 3) ≤ x)
      → (x < raw_l2) ⊎ (raw_l2 + (2 ^ 11 + 3) ≤ x)
      → (cleaned p (blank p m blocks) (room p m blocks) raw_table raw_stack m').mem x ≡ m.mem x
  cleaned-outside {m'} x kept o₁ o₂ o₃ o₄ =
      let b = blank p m blocks in
      let r = room p m blocks in
      let (_, from₁, fits₁) = table_facts p m blocks in
      let (_, from₂, fits₂) = stack_facts p m blocks in
      let (_, from₃, fits₃) = ttb_facts p b r in
      write_ne m'.mem (ttb p b r + 4 * 0xfff) (old_entry p b r) x (omega arith)
      ∙ kept.outside x (omega arith) (omega arith)
      ∙ prepared-outside p b r x o₃ o₄
      ∙ blank-outside p m blocks x o₁ o₂

module _ {H V T : Type 0} (p : Platform H) (vic_bus : Bus V) (timer_bus : Bus T)
    (handlers : Handlers) (wait : Program (System H V T) (Unit {0})) where
  -- `main`, not started in user mode and with a PL190 that can hold the state read from it,
  -- returns 0, where the heap grants four blocks apart from each other and from the table in
  -- force, whose last entry names no fine table, and where the handlers write to their stack only
  -- and come back in the mode that they interrupted. It leaves TTBR0, the controller's state and
  -- the processor's saved registers as it found them, the vectors low, the four blocks freed, and
  -- every word outside them as it was.
  pub main-PutBack :
      (s : System H V T) {raw_table raw_stack raw_ttb raw_l2 : ℕ} {heap₁ heap₂ heap₃ heap₄ : H}
      → Bootable vic_bus s
      → (blocks : Blocks p s.machine raw_table raw_stack raw_ttb raw_l2 heap₁ heap₂ heap₃ heap₄)
      → ServesInterrupts (stack p s.machine blocks) wait
      → (x : ℕ) → (x < raw_table) ⊎ (raw_table + (2 ^ 13 + 3) ≤ x)
      → (x < raw_stack) ⊎ (raw_stack + (2 ^ 13 + 3) ≤ x)
      → (x < raw_ttb) ⊎ (raw_ttb + (2 ^ 15 + 3) ≤ x)
      → (x < raw_l2) ⊎ (raw_l2 + (2 ^ 11 + 3) ≤ x)
      → (s' : System H V T) × (main p vic_bus timer_bus handlers wait s ≡ returns 0 s')
        × PutBack p vic_bus raw_table raw_stack raw_ttb raw_l2 heap₄ x s s'
  main-PutBack s {raw_table} {raw_stack} {raw_ttb} {raw_l2} start blocks serves x o₁ o₂ o₃ o₄ =
      let word = start.word in
      let (got, _, _, _) =
        aligned_alloc_lem p 12 (2 ^ 12) s.machine (omega arith) (omega arith) (omega arith)
          blocks.table_grant in
      let (s₅, used, kept, fits) =
        with_table_lem p vic_bus timer_bus handlers wait s.machine blocks serves
          (vic_editor vic_bus s) (opened vic_bus s) (rw (opened-cpu vic_bus s start) word) in
      (
        _,
        main_lem p vic_bus timer_bus handlers wait s _ got used,
        record {
          devices =
              closed-Restored vic_bus s _ start
                (subst (λ c. SameMode c s₅.cpu) (opened-cpu vic_bus s start) fits);
          same_ttbr0 = refl;
          vectors = ap (λ v. with_position low v) kept.same_sctlr;
          freed =
              ap (λ h. p.free raw_ttb (p.free raw_l2 (p.free raw_stack (p.free raw_table h))))
                kept.same_heap;
          same_word =
              cleaned-outside p vic_bus timer_bus handlers wait s.machine blocks serves x kept o₁ o₂
                o₃ o₄;
        },
      )
