-- ===== src/Interrupted/Vectors.antt =====
-- `interrupts` of tests/interrupted/main.cpp puts the IRQ vector and its handler's address where the processor
-- finds them, and keeps the rest of the machine.
use nspire_utils.Base.{
  ℕ, ◌+◌, ◌*◌, ◌/◌, ◌%◌, ◌^◌, ◌≤◌, ◌<◌, bit_or, some, true, ◌≡◌, List, ◌∷◌, refl, ◌∙◌, arith,
}
use nspire_utils.Machine.{
  Machine, M, CacheOp, drain_write_buffer, invalidate_both, clean_dcache_line, done, write, load,
}
use nspire_utils.Machine
use nspire_utils.Machine.Store.{write_self, write_ne}
use nspire_utils.Caches.{drain_writes, invalidate_both_caches}
use nspire_utils.Caches.Range.{flush_data_cache_range_lem, lines, line_count}
use nspire_utils.Arm.{decode, ldr_literal}
use nspire_utils.Mmu.Walk.{Disjoint}
use nspire_utils.Device.{Bus}
use nspire_utils.Vic.{source_number, first_timer}
use nspire_utils.Vic.Editor.{VicEditor, disable_interrupt}
use nspire_utils.Timer.Flags.{control_flag, disable, int_disable}
use nspire_utils.Timer.Sp804.{timer1, set_control}
use nspire_utils.Sram.{translate}
use nspire_utils.Interrupted.State.{System, Program, returns}
use nspire_utils.Interrupted.{
  Handlers, exception_vector_jump, set_vectors, start_timer, register_timer, interrupts,
  timer1_base_address,
}
use nspire_utils.Interrupted.Page.{MapsVectors, walk-MapsVectors, store_virtual_lem}
use nspire_utils.Cpu.Banks.{SameMode}
use nspire_utils.Interrupted.Running.{Kept, Kept-trans, ServesInterrupts, take_interrupts_lem}

-- The blocks that the program holds: both tables, the vectors and the stack.
pub record Layout (ttb l2 table stack : ℕ) : Type 0 where
  pub l2_fits : l2 + 2 ^ 10 ≤ 2 ^ 32
  pub l2_aligned : l2 % 2 ^ 10 ≡ 0
  pub table_fits : table + 2 ^ 12 ≤ 2 ^ 32
  pub table_aligned : table % 2 ^ 12 ≡ 0
  pub table_ttb : Disjoint table (2 ^ 12) ttb (2 ^ 14)
  pub table_l2 : Disjoint table (2 ^ 12) l2 (2 ^ 10)
  pub stack_ttb : Disjoint stack (2 ^ 12) ttb (2 ^ 14)
  pub stack_l2 : Disjoint stack (2 ^ 12) l2 (2 ^ 10)
  pub stack_table : Disjoint stack (2 ^ 12) table (2 ^ 12)

-- The word that the processor reads at a virtual address.
pub read_virtual : {H : Type 0} → ℕ → M H ℕ
read_virtual va = Machine.◌>>=◌ (translate va) load

module _ {H : Type 0} {ttb l2 table stack : ℕ} (layout : Layout ttb l2 table stack) where
  -- What the program and its handlers write leaves the tables as they are.
  MapsVectors-Kept :
      {domain : ℕ} {m m' : Machine H}
      → Kept table (2 ^ 12) stack (2 ^ 12) m m'
      → MapsVectors ttb l2 table domain m
      → MapsVectors ttb l2 table domain m'
  MapsVectors-Kept kept maps =
      let d₁ = layout.table_ttb in
      let d₂ = layout.table_l2 in
      let d₃ = layout.stack_ttb in
      let d₄ = layout.stack_l2 in
      record {
        current = rw kept.same_ttbr0 maps.current;
        slot = kept.outside (ttb + 4 * 0xfff) (omega arith) (omega arith) ∙ maps.slot;
        page = kept.outside (l2 + 4 * 0xf0) (omega arith) (omega arith) ∙ maps.page;
      }

  Kept-ops :
      {m m' : Machine H} (ops : List CacheOp)
      → Kept table (2 ^ 12) stack (2 ^ 12) m m'
      → Kept table (2 ^ 12) stack (2 ^ 12) m (record m' { ops = ops })
  Kept-ops ops kept = record {
    same_ttbr0 = kept.same_ttbr0;
    same_sctlr = kept.same_sctlr;
    same_heap = kept.same_heap;
    outside = kept.outside;
  }

  in_table :
      (m : Machine H) (o v : ℕ)
      → o < 2 ^ 12
      → Kept table (2 ^ 12) stack (2 ^ 12) m (record m { mem = write m.mem (table + o) v })
  in_table m o v h = record {
    same_ttbr0 = refl;
    same_sctlr = refl;
    same_heap = refl;
    outside = λ x o₁ o₂. write_ne m.mem (table + o) v x (omega arith);
  }

  on_stack :
      {m m' : Machine H}
      → Kept stack (2 ^ 12) stack (2 ^ 12) m m'
      → Kept table (2 ^ 12) stack (2 ^ 12) m m'
  on_stack kept = record {
    same_ttbr0 = kept.same_ttbr0;
    same_sctlr = kept.same_sctlr;
    same_heap = kept.same_heap;
    outside = λ x o₁ o₂. kept.outside x o₂ o₂;
  }

  read_virtual_lem :
      {domain : ℕ} (m : Machine H) (va : ℕ)
      → MapsVectors ttb l2 table domain m
      → va / 2 ^ 12 ≡ 0xffff0
      → read_virtual va m ≡ done (m.mem (table + va % 2 ^ 12)) m
  unfolding read_virtual
  read_virtual_lem m va maps inside =
      let l2_fits = layout.l2_fits in
      let table_fits = layout.table_fits in
      rw
        (walk-MapsVectors (omega arith) layout.l2_aligned (omega arith) layout.table_aligned m va
          maps inside)
        refl

  module _ (handlers : Handlers) where
    abbrev with_vectors : Machine H → Machine H
    with_vectors m = record m {
      mem =
          write (write m.mem (table + 0x118) handlers.handle_irq) (table + 0x18)
            exception_vector_jump;
    }

    with_vectors-Kept : (m : Machine H) → Kept table (2 ^ 12) stack (2 ^ 12) m (with_vectors m)
    with_vectors-Kept m = Kept-trans (in_table m 0x118 handlers.handle_irq (omega arith)) (
        in_table (record m { mem = write m.mem (table + 0x118) handlers.handle_irq }) 0x18
          exception_vector_jump (omega arith))

    -- The two words are still there when the handlers have written to their stack.
    vector_words :
        (m : Machine H) (ops : List CacheOp) {m' : Machine H}
        → Kept stack (2 ^ 12) stack (2 ^ 12) (record (with_vectors m) { ops = ops }) m'
        → (m'.mem (table + 0x18) ≡ exception_vector_jump)
          × (m'.mem (table + 0x118) ≡ handlers.handle_irq)
    vector_words m ops kept =
        let d = layout.stack_table in
        let handler = write m.mem (table + 0x118) handlers.handle_irq in
        (
          kept.outside (table + 0x18) (omega arith) (omega arith)
              ∙ write_self handler (table + 0x18) exception_vector_jump,
          kept.outside (table + 0x118) (omega arith) (omega arith)
              ∙ write_ne handler (table + 0x18) exception_vector_jump (table + 0x118) (omega arith)
              ∙ write_self m.mem (table + 0x118) handlers.handle_irq,
        )

    set_vectors_lem :
        {V T : Type 0} {domain : ℕ} (s : System H V T)
        → MapsVectors ttb l2 table domain s.machine
        → set_vectors handlers s ≡ returns tt (record s { machine = with_vectors s.machine })
    unfolding set_vectors
    set_vectors_lem s maps =
        let l2_fits = layout.l2_fits in
        let table_fits = layout.table_fits in
        let m₁ : Machine H = record s.machine {
          mem = write s.machine.mem (table + 0x118) handlers.handle_irq;
        } in
        let maps₁ =
          MapsVectors-Kept (in_table s.machine 0x118 handlers.handle_irq (omega arith)) maps in
        rw
          (
            store_virtual_lem (omega arith) layout.l2_aligned (omega arith) layout.table_aligned
                s.machine 0xffff0118 handlers.handle_irq maps refl,
            store_virtual_lem (omega arith) layout.l2_aligned (omega arith) layout.table_aligned m₁
                0xffff0018 exception_vector_jump maps₁ refl,
          )
          refl

module _ {H V T : Type 0} (vic_bus : Bus V) (timer_bus : Bus T) (handlers : Handlers)
    (wait : Program (System H V T) (Unit {0})) {ttb l2 table stack : ℕ}
    (layout : Layout ttb l2 table stack) (serves : ServesInterrupts stack wait) where
  -- The devices' set-up before the loop.
  timer_started :
      (s : System H V T) → (t : T) × (start_timer timer_bus s ≡ returns tt (record s { timer = t }))
  unfolding start_timer
  timer_started s = (_, refl)

  timer_registered :
      (e : VicEditor) (s : System H V T)
      → (v : V) × (register_timer vic_bus handlers e s ≡ returns tt (record s { vic = v }))
  unfolding register_timer
  timer_registered e s = (_, refl)

  -- The system behind the loop, with the interrupt and the timer off.
  abbrev finished : VicEditor → System H V T → System H V T
  finished e s = record s {
    vic = (disable_interrupt vic_bus e (source_number first_timer) s.vic).1;
    timer =
        (set_control timer_bus timer1_base_address timer1
          (bit_or (control_flag disable) (control_flag int_disable)) s.timer).1;
  }

  -- `interrupts` returns where the page at 0xFFFF0000 goes to the block for the vectors and the
  -- handlers write to their stack only and come back in the mode that they interrupted. It keeps
  -- the tables, the heap, the processor's mode and every word outside those two blocks; and from
  -- then on the IRQ vector, read through the tables, is a load of the program counter from where,
  -- through the tables again, the address of handleIRQ stands.
  pub interrupts-vectors :
      {domain : ℕ} (e : VicEditor) (s : System H V T)
      → MapsVectors ttb l2 table domain s.machine
      → s.cpu.cpsr < 2 ^ 32
      → (s' : System H V T) × (interrupts vic_bus timer_bus handlers wait e s ≡ returns tt s')
        × Kept table (2 ^ 12) stack (2 ^ 12) s.machine s'.machine
        × SameMode s.cpu s'.cpu
        × (read_virtual 0xffff0018 s'.machine ≡ done exception_vector_jump s'.machine)
        × (decode exception_vector_jump ≡ some (ldr_literal true 15 0xf8))
        × (read_virtual (0xffff0018 + 8 + 0xf8) s'.machine ≡ done handlers.handle_irq s'.machine)
  unfolding interrupts drain_writes invalidate_both_caches decode
  interrupts-vectors e s maps word =
      let m₁ = with_vectors layout handlers s.machine in
      let s₁ : System H V T = record s { machine = m₁ } in
      let (t, started) = timer_started s₁ in
      let s₂ : System H V T = record s₁ { timer = t } in
      let (v, registered) = timer_registered e s₂ in
      let flushed =
        flush_data_cache_range_lem 0xffff0000 0xffff1000 m₁ (omega arith) (omega arith) in
      let m₃ : Machine H = record m₁ {
        ops =
            invalidate_both
            ∷ drain_write_buffer
            ∷ lines clean_dcache_line 0xffff0000 (line_count 0xffff0000 0xffff1000) m₁.ops;
      } in
      let s₃ : System H V T = record { machine = m₃; cpu = s.cpu; vic = v; timer = t } in
      let (s₄, taken, on_stack_only, fits) = take_interrupts_lem stack wait serves s₃ word in
      let first = with_vectors-Kept layout handlers s.machine in
      let kept = Kept-trans (Kept-ops layout m₃.ops first) (on_stack layout on_stack_only) in
      let maps' = MapsVectors-Kept layout kept maps in
      let (jump_word, handler_word) = vector_words layout handlers s.machine m₃.ops on_stack_only in
      (
        finished e s₄,
        rw (set_vectors_lem layout handlers s maps, started, registered, flushed, taken) refl,
        kept,
        fits,
        rw (read_virtual_lem layout s₄.machine 0xffff0018 maps' refl) (rw jump_word refl),
        refl,
        rw (read_virtual_lem layout s₄.machine 0xffff0118 maps' refl) (rw handler_word refl),
      )
