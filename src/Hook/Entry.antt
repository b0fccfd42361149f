-- ===== src/Hook/Entry.antt =====
-- What the processor does in the entry hook's code, once src/hook/Hooks.cpp has put it together.
use nspire_utils.Base.{
  ℕ, ◌+◌, ◌-◌, ◌%◌, ◌≤◌, ◌<◌, some, List, [], ◌∷◌, ◌≡◌, ap, ◌∙◌, arith, false, true, ◌^◌, ◌≢◌,
  if◌then◌else◌,
}
use mathlib.Core.List.{map}
use nspire_utils.Machine.{Machine, done, write}
use nspire_utils.Machine.Store.{write_self}
use nspire_utils.Mmu.Walk.{Disjoint}
use nspire_utils.Arm.{Arm, registers, put_words, run}
use nspire_utils.Arm.Words.{HoldsAt, HoldsAt-put_words}
use nspire_utils.Arm.Run.{
  run-suc, run-zero, has, step-ldr, step-ldr_pc, step-jump, step-stmdb, step-restored,
  restored-regs, restored, restored-regs, step-blx,
}
use nspire_utils.Hook.{HookContext, hook_function_entry, hook_stub, entry_trampoline}
use nspire_utils.Hook.Template.{hook_jump_word, entry_mask}
use nspire_utils.Hook.Life.{entry_words, hook_function_entry_lem}
use nspire_utils.Hook.Install.{installed_state, patched-HoldsAt}

abbrev pub entry_registers : List ℕ
entry_registers = registers 16 0 entry_mask

module _ (c : HookContext) (regs mem : ℕ → ℕ) where
  -- The processor at the first instruction of the hooked function, at the hook function's entry.
  abbrev pub at_target : Arm
  at_target = record { regs = regs; pc = c.target_function; mem = mem }

  abbrev pub at_hook : Arm
  at_hook = record {
    regs =
        write (write (write (write regs 13 (regs 13 - 40)) 0 c.user_data) 12 c.hook_function) 14
          (hook_stub c + 16);
    pc = c.hook_function;
    mem = put_words (regs 13 - 40) (map regs entry_registers) mem;
  }

  module _ (jump : HoldsAt mem c.target_function (hook_jump_word ∷ hook_stub c ∷ []))
      (stub : HoldsAt mem (hook_stub c) (entry_words c)) (aligned : c.address % 4 ≡ 0)
      (hook_aligned : c.hook_function % 4 ≡ 0) (room : 40 ≤ regs 13)
      (apart : Disjoint (regs 13 - 40) 40 (hook_stub c) 36) where
    pub run-at_target : run 5 at_target ≡ some at_hook
    run-at_target =
        let pushed = put_words (regs 13 - 40) (map regs entry_registers) mem in
        let kept =
          HoldsAt-put_words (hook_stub c) (regs 13 - 40) (entry_words c) (map regs entry_registers)
            mem (omega arith) stub in
        let s₁ : Arm = record at_target { pc = hook_stub c } in
        let s₂ : Arm = record {
          regs = write regs 13 (regs 13 - 40);
          pc = hook_stub c + 4;
          mem = pushed;
        } in
        let s₃ : Arm = record s₂ { regs = write s₂.regs 0 c.user_data; pc = hook_stub c + 4 + 4 } in
        let s₄ : Arm = record s₃ {
          regs = write s₃.regs 12 c.hook_function;
          pc = hook_stub c + 4 + 4 + 4;
        } in
        let back : hook_stub c + 4 + 4 + 4 + 4 ≡ hook_stub c + 16 = omega arith in
        run-suc 4 at_target (step-jump at_target (omega arith) jump.0 jump.1.0) (
          run-suc 3 s₁ (step-stmdb s₁ entry_mask (omega arith) room stub.0) (
            run-suc 2 s₂
              (step-ldr s₂ 0 12 (omega arith) (omega arith) kept.1.0
                (ap pushed (omega arith) ∙ kept.1.1.1.1.1.1.0))
              (run-suc 1 s₃
                (step-ldr s₃ 12 12 (omega arith) (omega arith) kept.1.1.0
                  (ap pushed (omega arith) ∙ kept.1.1.1.1.1.1.1.0))
                (run-suc 0 s₄
                  (step-blx s₄ 12 (omega arith) (write_self s₃.regs 12 c.hook_function) hook_aligned
                    kept.1.1.1.0)
                  (rw back (run-zero at_hook))))))

-- What is left of the registers at the hooked function's entry when the hook function has come back
-- with the processor in state `t`: the ones that the stub has pushed, and the stack pointer.
module _ (c : HookContext) (regs : ℕ → ℕ) (t : Arm) where
  abbrev pub at_trampoline : Arm
  at_trampoline = record {
    regs = write (λ r. if has r entry_registers then regs r else t.regs r) 13 (t.regs 13 + 40);
    pc = entry_trampoline c;
    mem = t.mem;
  }

  module _ (aligned : c.address % 4 ≡ 0) (returned : t.pc ≡ hook_stub c + 16)
      (stub : HoldsAt t.mem (hook_stub c) (entry_words c))
      (frame : HoldsAt t.mem (t.regs 13) (map regs entry_registers)) where
    pub run-returned : run 2 t ≡ some at_trampoline
    run-returned =
        let s₁ : Arm = restored entry_registers regs t in
        run-suc 1 t
          (step-restored entry_mask regs t (omega arith) (ap t.mem (omega arith) ∙ stub.1.1.1.1.0)
            frame)
          (run-suc 0 s₁
            (step-ldr_pc s₁ 4 (omega arith) (omega arith)
              (ap t.mem (omega arith) ∙ stub.1.1.1.1.1.0)
              (ap t.mem (omega arith) ∙ stub.1.1.1.1.1.1.1.1.0))
            (run-zero at_trampoline))

-- The registers that the procedure call standard has the hook function preserve, besides the stack
-- pointer, and that the stub does not save.
abbrev pub left_to_callee : List ℕ
left_to_callee = 7 ∷ 8 ∷ 10 ∷ 11 ∷ []

callee_or_saved :
    (r : ℕ) → r < 15 → r ≢ 13 → has r entry_registers ≡ false → has r left_to_callee ≡ true
callee_or_saved r below other unsaved = ground arith

pub at_trampoline-regs :
    (c : HookContext) (regs : ℕ → ℕ) (t : Arm) (r : ℕ)
    → r < 15
    → t.regs 13 + 40 ≡ regs 13
    → ((q : ℕ) → has q left_to_callee ≡ true → t.regs q ≡ regs q)
    → (at_trampoline c regs t).regs r ≡ regs r
at_trampoline-regs c regs t r below level kept =
    restored-regs entry_registers regs t.regs (t.regs 13 + 40) r level
      (λ other unsaved. kept r (callee_or_saved r below other unsaved))

module _ {H : Type 0} (c : HookContext) (m : Machine H)
    (target_fits : c.target_function + 8 ≤ 2 ^ 32 - 64)
    (context_fits : c.address + 72 ≤ 2 ^ 32 - 64)
    (apart : Disjoint c.target_function 8 c.address 72) (aligned : c.address % 4 ≡ 0)
    (hook_aligned : c.hook_function % 4 ≡ 0) where
  -- `HookFunctionEntry_ARM` returns, and the hooked function then runs through its stub: in five
  -- steps the processor is at the hook function with the user data in r0, the ten registers pushed
  -- and the return address in lr, and from any state in which the hook function comes back there,
  -- with the pushed words, the stub, the stack pointer and the registers that the procedure call
  -- standard preserves intact, two steps lead to the trampoline with every register from r0 to lr
  -- as it was at the function's entry. The context, the patch and the hook function are
  -- word-aligned and below the last cache lines, the context is apart from the patch, and the ten
  -- words below the stack pointer are apart from the context.
  pub hook_function_entry-run :
      (regs : ℕ → ℕ) (t : Arm) (r : ℕ)
      → 40 ≤ regs 13
      → Disjoint (regs 13 - 40) 40 c.address 72
      → t.pc ≡ hook_stub c + 16
      → t.regs 13 + 40 ≡ regs 13
      → ((q : ℕ) → has q left_to_callee ≡ true → t.regs q ≡ regs q)
      → HoldsAt t.mem (t.regs 13) (map regs entry_registers)
      → HoldsAt t.mem (hook_stub c) (entry_words c)
      → r < 15
      → let m' = installed_state c (entry_words c) m in
        (hook_function_entry c m ≡ done tt m')
        × (run 5 (at_target c regs m'.mem) ≡ some (at_hook c regs m'.mem))
        × (run 2 t ≡ some (at_trampoline c regs t))
        × ((at_trampoline c regs t).regs r ≡ regs r)
  hook_function_entry-run regs t r room stack returned level kept frame stub below =
      let m' = installed_state c (entry_words c) m in
      let (jump, placed, _, _) = patched-HoldsAt c (entry_words c) m.mem apart in
      (
        hook_function_entry_lem c m target_fits context_fits apart,
        run-at_target c regs m'.mem jump placed aligned hook_aligned room (omega arith),
        run-returned c regs t aligned returned stub frame,
        at_trampoline-regs c regs t r below level kept,
      )
