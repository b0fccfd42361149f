-- ===== src/Hook/Chain.antt =====
-- Two entry hooks on one function (src/hook/Hooks.cpp): the trampoline of the second is the way into the first.
use nspire_utils.Base.{ℕ, ◌+◌, ◌-◌, ◌%◌, ◌^◌, ◌≤◌, ◌<◌, [], ◌∷◌, some, ◌≡◌, ap, ◌∙◌, arith, true}
use mathlib.Core.List.{map}
use nspire_utils.Machine.{Machine, done, ◌>>◌}
use nspire_utils.Mmu.Walk.{Disjoint}
use nspire_utils.Arm.{Arm, run}
use nspire_utils.Arm.Words.{HoldsAt, HoldsAt-agree}
use nspire_utils.Arm.Run.{has}
use nspire_utils.Hook.{HookContext, hook_function_entry, hook_stub, entry_trampoline}
use nspire_utils.Hook.Template.{hook_jump_word}
use nspire_utils.Hook.Life.{entry_words, hook_function_entry_lem}
use nspire_utils.Hook.Install.{installed_state, trampoline_words, patched-HoldsAt, patched-outside}
use nspire_utils.Hook.Entry.{
  at_target, at_hook, at_trampoline, entry_registers, left_to_callee, run-at_target, run-returned,
  at_trampoline-regs,
}

-- A function and a context for an entry hook on it: word-aligned, below the last cache lines, and apart.
pub record Hookable (c : HookContext) : Type 0 where
  pub target_fits : c.target_function + 8 ≤ 2 ^ 32 - 64
  pub context_fits : c.address + 72 ≤ 2 ^ 32 - 64
  pub apart : Disjoint c.target_function 8 c.address 72
  pub aligned : c.address % 4 ≡ 0
  pub hook_aligned : c.hook_function % 4 ≡ 0

-- The processor where the hook function of `c` comes back, with the stack and the registers as the stub
-- left them or as the procedure call standard has it.
pub record ComesBack (c : HookContext) (regs : ℕ → ℕ) (t : Arm) : Type 0 where
  pub returned : t.pc ≡ hook_stub c + 16
  pub level : t.regs 13 + 40 ≡ regs 13
  pub kept : (q : ℕ) → has q left_to_callee ≡ true → t.regs q ≡ regs q
  pub frame : HoldsAt t.mem (t.regs 13) (map regs entry_registers)

module _ {H : Type 0} (first second : HookContext) (m : Machine H) (on_first : Hookable first)
    (on_second : Hookable second) (same : second.target_function ≡ first.target_function)
    (contexts : Disjoint first.address 72 second.address 72) where
  abbrev pub hooked_once : Machine H
  hooked_once = installed_state first (entry_words first) m

  abbrev pub hooked_twice : Machine H
  hooked_twice = installed_state second (entry_words second) hooked_once

  installed_twice :
      (hook_function_entry first >> hook_function_entry second) m ≡ done tt hooked_twice
  installed_twice =
      rw (hook_function_entry_lem first m on_first.target_fits on_first.context_fits on_first.apart)
        (hook_function_entry_lem second hooked_once on_second.target_fits on_second.context_fits
          on_second.apart)

  -- The second hook leaves the stub and the trampoline of the first one as they were.
  first-intact :
      HoldsAt hooked_twice.mem (hook_stub first) (entry_words first)
      × HoldsAt hooked_twice.mem
          (entry_trampoline first)
          (trampoline_words first (entry_words first) m.mem)
  first-intact =
      let (_, stub, trampoline, _) =
        patched-HoldsAt first (entry_words first) m.mem on_first.apart in
      let apart = on_first.apart in
      let outside = patched-outside second (entry_words second) hooked_once.mem on_second.apart in
      (
        HoldsAt-agree (hook_stub first) (entry_words first) hooked_once.mem hooked_twice.mem
            (λ x low high. outside x (omega arith) (omega arith)) stub,
        HoldsAt-agree (entry_trampoline first) (trampoline_words first (entry_words first) m.mem)
            hooked_once.mem hooked_twice.mem (λ x low high. outside x (omega arith) (omega arith))
            trampoline,
      )

  -- The instructions that the second trampoline runs are the jump of the first hook.
  second-jumps :
      HoldsAt hooked_twice.mem (entry_trampoline second) (hook_jump_word ∷ hook_stub first ∷ [])
  second-jumps =
      let (jump, _, _, _) = patched-HoldsAt first (entry_words first) m.mem on_first.apart in
      let (_, _, trampoline, _) =
        patched-HoldsAt second (entry_words second) hooked_once.mem on_second.apart in
      (
        trampoline.0 ∙ ap hooked_once.mem same ∙ jump.0,
        (trampoline.1.0 ∙ ap hooked_once.mem (ap (λ a. a + 4) same) ∙ jump.1.0, tt),
      )

  -- The processor at the second trampoline, when the second hook function has come back in state `t`.
  abbrev between_hooks : (ℕ → ℕ) → Arm → Arm
  between_hooks regs t = at_trampoline second regs t

  -- `HookFunctionEntry_ARM` twice on one function, with two contexts apart from each other, returns.
  -- The function then runs the second hook function, with its user data in r0; once that has come
  -- back and both contexts are as they were, two steps lead to the second trampoline with every
  -- register from r0 to lr as at the function's entry, and five more to the first hook function
  -- with its own user data, behind which the first trampoline has the function's own instructions.
  pub hook_function_entry-chain :
      (regs : ℕ → ℕ) (t : Arm) (r : ℕ)
      → 40 ≤ regs 13
      → Disjoint (regs 13 - 40) 40 first.address 72
      → Disjoint (regs 13 - 40) 40 second.address 72
      → ComesBack second regs t
      → ((x : ℕ) → first.address ≤ x → x < first.address + 72 → t.mem x ≡ hooked_twice.mem x)
      → ((x : ℕ) → second.address ≤ x → x < second.address + 72 → t.mem x ≡ hooked_twice.mem x)
      → r < 15
      → let t' = between_hooks regs t in
        ((hook_function_entry first >> hook_function_entry second) m ≡ done tt hooked_twice)
        × (run 5 (at_target second regs hooked_twice.mem)
            ≡ some (at_hook second regs hooked_twice.mem))
        × (run 2 t ≡ some t')
        × (t'.regs r ≡ regs r)
        × (run 5 t' ≡ some (at_hook first t'.regs t.mem))
        × HoldsAt t.mem (entry_trampoline first) (trampoline_words first (entry_words first) m.mem)
  hook_function_entry-chain regs t r room stack₁ stack₂ back intact₁ intact₂ below =
      let t' = between_hooks regs t in
      let (jump, stub₂, _, _) =
        patched-HoldsAt second (entry_words second) hooked_once.mem on_second.apart in
      let (stub₁, trampoline₁) = first-intact in
      let level = back.level in
      let level' : t'.regs 13 ≡ regs 13 =
        at_trampoline-regs second regs t 13 (omega arith) level back.kept in
      let via : HookContext = record first { target_function = entry_trampoline second } in
      (
        installed_twice,
        run-at_target second regs hooked_twice.mem jump stub₂ on_second.aligned
            on_second.hook_aligned room (omega arith),
        run-returned second regs t on_second.aligned back.returned
            (HoldsAt-agree (hook_stub second) (entry_words second) hooked_twice.mem t.mem
              (λ x low high. intact₂ x (omega arith) (omega arith)) stub₂)
            back.frame,
        at_trampoline-regs second regs t r below level back.kept,
        run-at_target via t'.regs t.mem
            (HoldsAt-agree (entry_trampoline second) (hook_jump_word ∷ hook_stub first ∷ [])
              hooked_twice.mem t.mem (λ x low high. intact₂ x (omega arith) (omega arith))
              second-jumps)
            (HoldsAt-agree (hook_stub first) (entry_words first) hooked_twice.mem t.mem
              (λ x low high. intact₁ x (omega arith) (omega arith)) stub₁)
            on_first.aligned on_first.hook_aligned (omega arith) (omega arith),
        HoldsAt-agree (entry_trampoline first) (trampoline_words first (entry_words first) m.mem)
            hooked_twice.mem t.mem (λ x low high. intact₁ x (omega arith) (omega arith))
            trampoline₁,
      )
