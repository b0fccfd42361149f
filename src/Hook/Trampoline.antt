-- ===== src/Hook/Trampoline.antt =====
-- The trampoline that src/hook/Hooks.cpp builds: the way back into the hooked function.
use nspire_utils.Base.{ℕ, ◌+◌, ◌-◌, ◌%◌, ◌^◌, ◌≤◌, List, [], ◌∷◌, some, ◌≡◌, ap, ◌∙◌, arith}
use nspire_utils.Machine.{Machine, done}
use nspire_utils.Mmu.Walk.{Disjoint}
use nspire_utils.Arm.{Arm, run}
use nspire_utils.Arm.Words.{HoldsAt}
use nspire_utils.Arm.Run.{run-suc, run-zero, step-jump}
use nspire_utils.Hook.{
  HookContext, hook_function_entry, hook_function_exit, entry_trampoline, exit_trampoline,
}
use nspire_utils.Hook.Life.{
  entry_words, exit_words, hook_function_entry_lem, hook_function_exit_lem,
}
use nspire_utils.Hook.Install.{installed_state, trampoline_words, patched, patched-HoldsAt}

-- The processor at the trampoline's third instruction, and behind the patch of the function.
abbrev behind_originals : ℕ → (ℕ → ℕ) → (ℕ → ℕ) → Arm
behind_originals trampoline regs mem = record { regs = regs; pc = trampoline + 8; mem = mem }

abbrev behind_patch : HookContext → (ℕ → ℕ) → (ℕ → ℕ) → Arm
behind_patch c regs mem = record { regs = regs; pc = c.target_function + 8; mem = mem }

run-trampoline :
    (c : HookContext) (ws : List ℕ) (old : ℕ → ℕ) (trampoline : ℕ) (regs mem : ℕ → ℕ)
    → c.target_function % 4 ≡ 0
    → HoldsAt mem trampoline (trampoline_words c ws old)
    → run 1 (behind_originals trampoline regs mem) ≡ some (behind_patch c regs mem)
run-trampoline c ws old trampoline regs mem aligned held =
    let s = behind_originals trampoline regs mem in
    run-suc 0 s
      (step-jump s (omega arith) (ap mem (omega arith) ∙ held.1.1.0)
        (ap mem (omega arith) ∙ held.1.1.1.0))
      (run-zero (behind_patch c regs mem))

module _ {H : Type 0} (c : HookContext) (m : Machine H)
    (target_fits : c.target_function + 8 ≤ 2 ^ 32 - 64)
    (context_fits : c.address + 88 ≤ 2 ^ 32 - 64)
    (apart : Disjoint c.target_function 8 c.address 88) (aligned : c.target_function % 4 ≡ 0) where
  -- After `HookFunctionEntry_ARM` and after `HookFunctionExit_ARM`, each of which returns, the
  -- trampoline starts with the two instructions that stood in the function, and one step from
  -- behind them leads to the function's third instruction with no register changed. The function is
  -- word-aligned and apart from the context, and both lie below the last cache lines.
  hook_function-trampoline :
      (regs : ℕ → ℕ)
      → let originals = m.mem c.target_function ∷ m.mem (c.target_function + 4) ∷ [] in
        let m₁ = installed_state c (entry_words c) m in
        let m₂ = installed_state c (exit_words c) m in
        (hook_function_entry c m ≡ done tt m₁)
        × HoldsAt m₁.mem (entry_trampoline c) originals
        × (run 1 (behind_originals (entry_trampoline c) regs m₁.mem)
            ≡ some (behind_patch c regs m₁.mem))
        × (hook_function_exit c m ≡ done tt m₂)
        × HoldsAt m₂.mem (exit_trampoline c) originals
        × (run 1 (behind_originals (exit_trampoline c) regs m₂.mem)
            ≡ some (behind_patch c regs m₂.mem))
  hook_function-trampoline regs =
      let (_, _, entry, _) = patched-HoldsAt c (entry_words c) m.mem (omega arith) in
      let (_, _, exit, _) = patched-HoldsAt c (exit_words c) m.mem apart in
      (
        hook_function_entry_lem c m target_fits (omega arith) (omega arith),
        (entry.0, (entry.1.0, tt)),
        run-trampoline c (entry_words c) m.mem (entry_trampoline c) regs
            (patched c (entry_words c) m.mem) aligned entry,
        hook_function_exit_lem c m target_fits context_fits apart,
        (exit.0, (exit.1.0, tt)),
        run-trampoline c (exit_words c) m.mem (exit_trampoline c) regs
            (patched c (exit_words c) m.mem) aligned exit,
      )
