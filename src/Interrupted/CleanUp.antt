-- ===== src/Interrupted/CleanUp.antt =====
-- The end of tests/interrupted/main.cpp: the vectors moved back, the blocks freed and the editors destroyed.
use nspire_utils.Base.{ℕ, ◌+◌, ◌-◌, ◌*◌, ◌/◌, ◌^◌, ◌≤◌, ◌∷◌, ◌≡◌, refl, ◌∙◌, arith}
use nspire_utils.Machine.{Machine, write, drain_write_buffer, invalidate_tlb, clean_dcache_line}
use nspire_utils.Machine.Store.{write_ne}
use nspire_utils.Alloc.{Platform}
use nspire_utils.Alloc.Block.{aligned_free_lem}
use nspire_utils.Mmu.Walk.{Disjoint}
use nspire_utils.Mmu.Editor.Section.{IsLive, after_put}
use nspire_utils.Mmu.Editor.Life as L1
use nspire_utils.Mmu.Coarse.Life as L2
use nspire_utils.Evt.{low, with_position, set_evt_position}
use nspire_utils.Interrupted.State.{System, returns}
use nspire_utils.Interrupted.{clean_up}
use nspire_utils.Interrupted.Running.{Kept}
use nspire_utils.Interrupted.SetUp.{
  Room, ttb, l2, mmu_editor, coarse_editor, copied, copied-IsLive, prepared, old_entry, old_word,
  old_kind, apart, domain, ttb_facts, l2_facts, prepared-copied, l2_header,
}

-- The block for the stack and the headers of the two blocks that `main` frees itself.
pub record Held {H : Type 0} (table raw_table stack raw_stack raw_ttb raw_l2 : ℕ) (m : Machine H)
    : Type 0 where
  pub table_low : 4 ≤ table
  pub stack_low : 4 ≤ stack
  pub stack_fits : stack + 2 ^ 12 ≤ 2 ^ 32
  pub stack_ttb : Disjoint stack (2 ^ 12) raw_ttb (2 ^ 15 + 3)
  pub stack_l2 : Disjoint stack (2 ^ 12) raw_l2 (2 ^ 11 + 3)
  pub table_header : m.mem (table - 4) ≡ raw_table
  pub stack_header : m.mem (stack - 4) ≡ raw_stack

module _ {H : Type 0} (p : Platform H) (m : Machine H) {table raw_ttb raw_l2 : ℕ} {heap₃ heap₄ : H}
    (room : Room p m table raw_ttb raw_l2 heap₃ heap₄) where
  -- The machine behind the end of `main`, from the one that `interrupts` leaves.
  abbrev pub cleaned : ℕ → ℕ → Machine H → Machine H
  cleaned raw_table raw_stack m' = record m' {
    mem = write m'.mem (ttb p m room + 4 * 0xfff) (old_entry p m room);
    ttbr0 = m.ttbr0;
    sctlr = with_position low m'.sctlr;
    ops =
        drain_write_buffer
        ∷ invalidate_tlb
        ∷ drain_write_buffer
        ∷ invalidate_tlb
        ∷ clean_dcache_line ((ttb p m room + 4 * 0xfff) / 32 * 32)
        ∷ m'.ops;
    heap = p.free raw_ttb (p.free raw_l2 (p.free raw_stack (p.free raw_table m'.heap)));
  }

module _ {H : Type 0} (p : Platform H) (m : Machine H) {table raw_ttb raw_l2 : ℕ} {heap₃ heap₄ : H}
    (room : Room p m table raw_ttb raw_l2 heap₃ heap₄) {raw_table stack raw_stack : ℕ} where
  -- The headers of the editors' blocks, behind what the program and its handlers wrote.
  Kept-ttb_header :
      (m' : Machine H)
      → Kept table (2 ^ 12) stack (2 ^ 12) (prepared p m room) m'
      → Held table raw_table stack raw_stack raw_ttb raw_l2 m'
      → m'.mem (ttb p m room - 4) ≡ (copied p m room).mem (ttb p m room - 4)
  Kept-ttb_header m' kept held =
      let (_, from, fits) = ttb_facts p m room in
      let d₁ = room.ttb_l2 in
      let d₂ = room.table_ttb in
      let d₃ = held.stack_ttb in
      kept.outside _ (omega arith) (omega arith)
      ∙ prepared-copied p m room _ (omega arith) (omega arith)

  Kept-l2_header :
      (m' : Machine H)
      → Kept table (2 ^ 12) stack (2 ^ 12) (prepared p m room) m'
      → Held table raw_table stack raw_stack raw_ttb raw_l2 m'
      → m'.mem (l2 p m room - 4) ≡ raw_l2
  Kept-l2_header m' kept held =
      let (_, from, fits) = l2_facts p m room in
      let d₂ = room.table_l2 in
      let d₃ = held.stack_l2 in kept.outside _ (omega arith) (omega arith) ∙ l2_header p m room

  module _ {V T : Type 0} where
    pub clean_up_lem :
        (s : System H V T)
        → Kept table (2 ^ 12) stack (2 ^ 12) (prepared p m room) s.machine
        → Held table raw_table stack raw_stack raw_ttb raw_l2 s.machine
        → clean_up p table stack (mmu_editor p m room, coarse_editor p m room) s
          ≡ returns 0 (record s { machine = cleaned p m room raw_table raw_stack s.machine })
    unfolding clean_up set_evt_position
    clean_up_lem s kept held =
        let m₀ = s.machine in
        let m₁ : Machine H = record m₀ { sctlr = with_position low m₀.sctlr } in
        let m₂ : Machine H = record m₁ { heap = p.free raw_table m₀.heap } in
        let m₃ : Machine H = record m₂ { heap = p.free raw_stack m₂.heap } in
        let live₃ : IsLive (mmu_editor p m room) m₃ = record {
          installed = (copied-IsLive p m room).installed;
          aligned = (copied-IsLive p m room).aligned;
          below = (copied-IsLive p m room).below;
          current = rw kept.same_ttbr0 (copied-IsLive p m room).current;
        } in
        let table_below = room.table_below in
        let table_low = held.table_low in
        let stack_low = held.stack_low in
        let stack_fits = held.stack_fits in
        let coarse =
          L2.destroy_lem p (mmu_editor p m room) (copied p m room) (copied-IsLive p m room)
            0xffff0000 (domain p m room) (omega arith) (old_word p m room) (old_kind p m room)
            room.l2_grant room.l2_high (apart p m room) m₃ live₃ (Kept-l2_header m₀ kept held) in
        let m₄ : Machine H = record (after_put (ttb p m room + 4 * 0xfff) (old_entry p m room) m₃) {
          heap = p.free raw_l2 m₃.heap;
        } in
        let header =
          write_ne m₀.mem (ttb p m room + 4 * 0xfff) (old_entry p m room) (ttb p m room - 4)
            (omega arith)
          ∙ Kept-ttb_header m₀ kept held in
        let mmu =
          (L1.destroy-construct p m room.word room.ttb_grant room.ttb_high room.old_ttb m₄
            header).0 in
        rw
          (
            aligned_free_lem p table m₁ table_low (omega arith),
            held.table_header,
            aligned_free_lem p stack m₂ stack_low (omega arith),
            held.stack_header,
            coarse,
            mmu,
          )
          refl
