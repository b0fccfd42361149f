-- ===== src/Hook/Exit.antt =====
-- What the processor does in the exit hook's stub, once src/hook/Hooks.cpp has put it together.
use nspire_utils.Base.{
  ℕ, ◌+◌, ◌-◌, ◌%◌, ◌^◌, ◌≤◌, ◌<◌, some, List, [], ◌∷◌, ◌≡◌, ◌≢◌, ap, ◌∙◌, arith, true, false,
}
use mathlib.Core.List.{map}
use nspire_utils.Machine.{Machine, done, write}
use nspire_utils.Machine.Store.{write_self, write_ne}
use nspire_utils.Mmu.Walk.{Disjoint}
use nspire_utils.Arm.{Arm, registers, put_words, run}
use nspire_utils.Arm.Words.{HoldsAt, HoldsAt-put_words}
use nspire_utils.Arm.Run.{
  run-suc, run-zero, has, restored, restored-regs, step-ldr, step-jump, step-stmdb, step-restored,
  step-blx, step-bx,
}
use nspire_utils.Hook.{HookContext, hook_function_exit, hook_stub, exit_trampoline}
use nspire_utils.Hook.Template.{hook_jump_word, exit_mask, result_mask}
use nspire_utils.Hook.Life.{exit_words, hook_function_exit_lem}
use nspire_utils.Hook.Install.{installed_state, patched-HoldsAt}
use nspire_utils.Hook.Entry.{at_target}

abbrev pub exit_registers : List ℕ
exit_registers = registers 16 0 exit_mask

abbrev pub result_registers : List ℕ
result_registers = registers 16 0 result_mask

module _ (c : HookContext) where
  -- The processor at the trampoline, which goes on with the original function.
  abbrev pub at_original : (ℕ → ℕ) → (ℕ → ℕ) → Arm
  at_original regs mem = record {
    regs =
        write (write (write regs 13 (regs 13 - 16)) 12 (exit_trampoline c)) 14 (hook_stub c + 12);
    pc = exit_trampoline c;
    mem = put_words (regs 13 - 16) (map regs exit_registers) mem;
  }

  -- At the hook function, which is called when the original function has come back in state `t`.
  abbrev pub at_exit_hook : Arm → Arm
  at_exit_hook t = record {
    regs =
        write (write (write (write t.regs 13 (t.regs 13 - 16)) 0 c.user_data) 12 c.hook_function) 14
          (hook_stub c + 28);
    pc = c.hook_function;
    mem = put_words (t.regs 13 - 16) (map t.regs result_registers) t.mem;
  }

  -- At the caller, to which the stub goes when the hook function has come back in state `u`.
  abbrev pub at_caller : (ℕ → ℕ) → Arm → Arm → Arm
  at_caller regs t u =
      let popped = restored result_registers t.regs u in
      record (restored exit_registers regs popped) { pc = regs 14 }

module _ (c : HookContext) (aligned : c.address % 4 ≡ 0) where
  run-at_target_exit :
      (regs mem : ℕ → ℕ)
      → HoldsAt mem c.target_function (hook_jump_word ∷ hook_stub c ∷ [])
      → HoldsAt mem (hook_stub c) (exit_words c)
      → 16 ≤ regs 13
      → Disjoint (regs 13 - 16) 16 (hook_stub c) 52
      → run 4 (at_target c regs mem) ≡ some (at_original c regs mem)
  run-at_target_exit regs mem jump stub room apart =
      let pushed = put_words (regs 13 - 16) (map regs exit_registers) mem in
      let kept =
        HoldsAt-put_words (hook_stub c) (regs 13 - 16) (exit_words c) (map regs exit_registers) mem
          (omega arith) stub in
      let back : hook_stub c + 4 + 4 + 4 ≡ hook_stub c + 12 = omega arith in
      let s₁ : Arm = record { regs = regs; pc = hook_stub c; mem = mem } in
      let s₂ : Arm = record {
        regs = write regs 13 (regs 13 - 16);
        pc = hook_stub c + 4;
        mem = pushed;
      } in
      let s₃ : Arm = record s₂ {
        regs = write s₂.regs 12 (exit_trampoline c);
        pc = hook_stub c + 4 + 4;
      } in
      run-suc 3 (at_target c regs mem)
        (step-jump (at_target c regs mem) (omega arith) jump.0 jump.1.0)
        (run-suc 2 s₁ (step-stmdb s₁ exit_mask (omega arith) room stub.0) (
          run-suc 1 s₂
            (step-ldr s₂ 12 28 (omega arith) (omega arith) kept.1.0
              (ap pushed (omega arith) ∙ kept.1.1.1.1.1.1.1.1.1.1.0))
            (run-suc 0 s₃
              (step-blx s₃ 12 (omega arith) (write_self s₂.regs 12 (exit_trampoline c))
                (omega arith) kept.1.1.0)
              (rw back (run-zero (at_original c regs mem))))))

  run-original_returned :
      (t : Arm)
      → t.pc ≡ hook_stub c + 12
      → HoldsAt t.mem (hook_stub c) (exit_words c)
      → c.hook_function % 4 ≡ 0
      → 16 ≤ t.regs 13
      → Disjoint (t.regs 13 - 16) 16 (hook_stub c) 52
      → run 4 t ≡ some (at_exit_hook c t)
  run-original_returned t returned stub hook_aligned room apart =
      let pushed = put_words (t.regs 13 - 16) (map t.regs result_registers) t.mem in
      let kept =
        HoldsAt-put_words (hook_stub c) (t.regs 13 - 16) (exit_words c)
          (map t.regs result_registers) t.mem (omega arith) stub in
      let back : t.pc + 4 + 4 + 4 + 4 ≡ hook_stub c + 28 = omega arith in
      let s₁ : Arm = record {
        regs = write t.regs 13 (t.regs 13 - 16);
        pc = t.pc + 4;
        mem = pushed;
      } in
      let s₂ : Arm = record s₁ { regs = write s₁.regs 0 c.user_data; pc = t.pc + 4 + 4 } in
      let s₃ : Arm = record s₂ { regs = write s₂.regs 12 c.hook_function; pc = t.pc + 4 + 4 + 4 } in
      run-suc 3 t
        (step-stmdb t result_mask (omega arith) room (ap t.mem (omega arith) ∙ stub.1.1.1.0))
        (run-suc 2 s₁
          (step-ldr s₁ 0 20 (omega arith) (omega arith) (ap pushed (omega arith) ∙ kept.1.1.1.1.0)
            (ap pushed (omega arith) ∙ kept.1.1.1.1.1.1.1.1.1.1.1.0))
          (run-suc 1 s₂
            (step-ldr s₂ 12 20 (omega arith) (omega arith)
              (ap pushed (omega arith) ∙ kept.1.1.1.1.1.0)
              (ap pushed (omega arith) ∙ kept.1.1.1.1.1.1.1.1.1.1.1.1.0))
            (run-suc 0 s₃
              (step-blx s₃ 12 (omega arith) (write_self s₂.regs 12 c.hook_function) hook_aligned
                (ap pushed (omega arith) ∙ kept.1.1.1.1.1.1.0))
              (rw back (run-zero (at_exit_hook c t))))))

  run-hook_returned :
      (regs : ℕ → ℕ) (t u : Arm)
      → u.pc ≡ hook_stub c + 28
      → HoldsAt u.mem (hook_stub c) (exit_words c)
      → HoldsAt u.mem (u.regs 13) (map t.regs result_registers)
      → HoldsAt u.mem (u.regs 13 + 16) (map regs exit_registers)
      → regs 14 % 4 ≡ 0
      → run 3 u ≡ some (at_caller c regs t u)
  run-hook_returned regs t u returned stub results frame caller_aligned =
      let s₁ : Arm = restored result_registers t.regs u in
      let s₂ : Arm = restored exit_registers regs s₁ in
      let popped : s₁.regs 13 ≡ u.regs 13 + 16 = write_self _ 13 (u.regs 13 + 16) in
      let lr : s₂.regs 14 ≡ regs 14 = write_ne _ 13 (s₁.regs 13 + 16) 14 (λ e. ground arith) in
      run-suc 2 u
        (step-restored result_mask t.regs u (omega arith)
          (ap u.mem (omega arith) ∙ stub.1.1.1.1.1.1.1.0) results)
        (run-suc 1 s₁
          (step-restored exit_mask regs s₁ (omega arith)
            (ap u.mem (omega arith) ∙ stub.1.1.1.1.1.1.1.1.0) (rw popped frame))
          (run-suc 0 s₂
            (step-bx s₂ 14 (omega arith) lr caller_aligned
              (ap u.mem (omega arith) ∙ stub.1.1.1.1.1.1.1.1.1.0))
            (run-zero (at_caller c regs t u))))

-- What the caller counts on: the registers that the procedure call standard preserves, less those
-- that the stub saves itself, in the state in which the hook function comes back.
abbrev left_to_callees : List ℕ
left_to_callees = 6 ∷ 7 ∷ 8 ∷ 10 ∷ 11 ∷ []

abbrev pub preserved : List ℕ
preserved = 4 ∷ 5 ∷ 6 ∷ 7 ∷ 8 ∷ 9 ∷ 10 ∷ 11 ∷ 13 ∷ 14 ∷ []

preserved-unsaved :
    (q : ℕ)
    → has q preserved ≡ true
    → q ≢ 13
    → has q exit_registers ≡ false
    → (has q result_registers ≡ false) × (has q left_to_callees ≡ true)
preserved-unsaved q within other unsaved = (ground arith, ground arith)

module _ (c : HookContext) (regs : ℕ → ℕ) (t u : Arm) where
  at_caller-result : (r : ℕ) → r < 4 → (at_caller c regs t u).regs r ≡ t.regs r
  unfolding write
  at_caller-result r below = ground arith

  at_caller-preserved :
      (q : ℕ)
      → has q preserved ≡ true
      → u.regs 13 + 32 ≡ regs 13
      → ((k : ℕ) → has k left_to_callees ≡ true → u.regs k ≡ regs k)
      → (at_caller c regs t u).regs q ≡ regs q
  at_caller-preserved q within level kept =
      let top : Arm = restored result_registers t.regs u in
      restored-regs exit_registers regs top.regs (top.regs 13 + 16) q
        (ap (λ sp. sp + 16) (write_self _ 13 (u.regs 13 + 16)) ∙ omega arith)
        (λ other unsaved.
          let (no_result, left) = preserved-unsaved q within other unsaved in
          write_ne _ 13 (u.regs 13 + 16) q other ∙ rw no_result (kept q left))

module _ {H : Type 0} (c : HookContext) (m : Machine H)
    (target_fits : c.target_function + 8 ≤ 2 ^ 32 - 64)
    (context_fits : c.address + 88 ≤ 2 ^ 32 - 64)
    (apart : Disjoint c.target_function 8 c.address 88) (aligned : c.address % 4 ≡ 0)
    (hook_aligned : c.hook_function % 4 ≡ 0) where
  -- `HookFunctionExit_ARM` returns, and the hooked function then runs through its stub: four steps
  -- lead to the trampoline with the stack pointer lowered by 16, r12 and lr set and every other
  -- register as at the entry; when the original function comes back in state `t`, four steps lead
  -- to the hook function with the user data in r0; when that comes back in state `u`, three steps
  -- lead to the caller with the original function's r0 to r3 and with the preserved registers, the
  -- stack pointer and lr as at the entry. The stub and the pushed words are intact in those states,
  -- and the registers preserved by the procedure call standard that the stub does not save hold
  -- their first values.
  pub hook_function_exit-run :
      (regs : ℕ → ℕ) (t u : Arm) (r q : ℕ)
      → 32 ≤ regs 13
      → Disjoint (regs 13 - 32) 32 c.address 88
      → regs 14 % 4 ≡ 0
      → t.pc ≡ hook_stub c + 12
      → t.regs 13 + 16 ≡ regs 13
      → HoldsAt t.mem (hook_stub c) (exit_words c)
      → u.pc ≡ hook_stub c + 28
      → u.regs 13 + 32 ≡ regs 13
      → ((k : ℕ) → has k left_to_callees ≡ true → u.regs k ≡ regs k)
      → HoldsAt u.mem (hook_stub c) (exit_words c)
      → HoldsAt u.mem (u.regs 13) (map t.regs result_registers)
      → HoldsAt u.mem (u.regs 13 + 16) (map regs exit_registers)
      → r < 4
      → has q preserved ≡ true
      → let m' = installed_state c (exit_words c) m in
        (hook_function_exit c m ≡ done tt m')
        × (run 4 (at_target c regs m'.mem) ≡ some (at_original c regs m'.mem))
        × (run 4 t ≡ some (at_exit_hook c t))
        × (run 3 u ≡ some (at_caller c regs t u))
        × ((at_caller c regs t u).regs r ≡ t.regs r)
        × ((at_caller c regs t u).regs q ≡ regs q)
  hook_function_exit-run regs t u r q room stack caller t_at t_level t_stub u_at u_level kept u_stub
        results frame result within =
      let m' = installed_state c (exit_words c) m in
      let (jump, placed, _, _) = patched-HoldsAt c (exit_words c) m.mem apart in
      (
        hook_function_exit_lem c m target_fits context_fits apart,
        run-at_target_exit c aligned regs m'.mem jump placed (omega arith) (omega arith),
        run-original_returned c aligned t t_at t_stub hook_aligned (omega arith) (omega arith),
        run-hook_returned c aligned regs t u u_at u_stub results frame caller,
        at_caller-result c regs t u r result,
        at_caller-preserved c regs t u q within u_level kept,
      )
