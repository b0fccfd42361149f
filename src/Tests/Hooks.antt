-- ===== src/Tests/Hooks.antt =====
-- A function that is hooked at its entry and at its exit.
use nspire_utils.Base.{ℕ, ◌+◌, ◌-◌, ◌*◌, some, inl, inr, ◌≤◌, ◌≡◌, refl, arith, ◌==◌, if◌then◌else◌}
use mathlib.Core.List.{map}
use nspire_utils.Machine.{Machine, done, ◌>>◌}
use nspire_utils.Arm.{Arm, put_words, run}
use nspire_utils.Arm.Words.{HoldsAt, put_words-outside, put_words-HoldsAt, HoldsAt-put_words}
use nspire_utils.Hook.{
  HookContext, entry_trampoline, saved_instructions, hook_stub, hook_function_entry,
  hook_function_exit, unhook_function,
}
use nspire_utils.Hook.Install.{installed_state, trampoline_words}
use nspire_utils.Hook.Chain.{Hookable, ComesBack, hook_function_entry-chain}
use nspire_utils.Hook.Life.{
  entry_hook, entry_words, exit_words, unhooked_state, unhook_function-hook_function,
}
use nspire_utils.Hook.Entry.{
  entry_registers, at_target, at_hook, at_trampoline, hook_function_entry-run,
}
use nspire_utils.Hook.Exit.{
  exit_registers, result_registers, at_original, at_exit_hook, at_caller, hook_function_exit-run,
}
use nspire_utils.Tests.{booted}

abbrev context : HookContext
context = record {
  address = 0x200000;
  target_function = 0x300000;
  hook_function = 0x400000;
  user_data = 7;
}

-- Every register holds four times its number, but for the stack pointer.
abbrev registers_at : ℕ → ℕ → ℕ
registers_at sp r = if r == 13 then sp else 4 * r

abbrev entered : ℕ → ℕ
entered = registers_at 0x10000

-- The hook function has come back to the entry stub and has written nothing but its own frame.
abbrev entry_returned : Arm
entry_returned = record {
  regs = registers_at (0x10000 - 40);
  pc = hook_stub context + 16;
  mem =
      put_words (0x10000 - 40) (map entered entry_registers)
        (put_words (hook_stub context) (entry_words context) booted.mem);
}

hook_function_entry-run_example :
    let m' = installed_state context (entry_words context) booted in
    (hook_function_entry context booted ≡ done tt m')
    × (run 5 (at_target context entered m'.mem) ≡ some (at_hook context entered m'.mem))
    × (run 2 entry_returned ≡ some (at_trampoline context entered entry_returned))
    × ((at_trampoline context entered entry_returned).regs 12 ≡ 48)
hook_function_entry-run_example =
    hook_function_entry-run context booted (omega arith) (omega arith) (omega arith) (omega arith)
      (omega arith) entered entry_returned 12 (omega arith) (omega arith) refl (omega arith)
      (λ q within. ground arith)
      (put_words-HoldsAt (0x10000 - 40) (map entered entry_registers)
        (put_words (hook_stub context) (entry_words context) booted.mem))
      (HoldsAt-put_words (hook_stub context) (0x10000 - 40) (entry_words context)
        (map entered entry_registers)
        (put_words (hook_stub context) (entry_words context) booted.mem) (inr (omega arith))
        (put_words-HoldsAt (hook_stub context) (entry_words context) booted.mem))
      (omega arith)

-- The original function, and then the hook function, have come back to the exit stub.
abbrev exit_memory : ℕ → ℕ
exit_memory =
    put_words (0x10000 - 16) (map entered exit_registers)
      (put_words (hook_stub context) (exit_words context) booted.mem)

abbrev original_returned : Arm
original_returned = record {
  regs = registers_at (0x10000 - 16);
  pc = hook_stub context + 12;
  mem = exit_memory;
}

abbrev exit_returned : Arm
exit_returned = record {
  regs = registers_at (0x10000 - 32);
  pc = hook_stub context + 28;
  mem = put_words (0x10000 - 32) (map original_returned.regs result_registers) exit_memory;
}

exit_memory-HoldsAt : HoldsAt exit_memory (hook_stub context) (exit_words context)
exit_memory-HoldsAt =
    HoldsAt-put_words (hook_stub context) (0x10000 - 16) (exit_words context)
      (map entered exit_registers) (put_words (hook_stub context) (exit_words context) booted.mem)
      (inr (omega arith)) (put_words-HoldsAt (hook_stub context) (exit_words context) booted.mem)

hook_function_exit-run_example :
    let m' = installed_state context (exit_words context) booted in
    (hook_function_exit context booted ≡ done tt m')
    × (run 4 (at_target context entered m'.mem) ≡ some (at_original context entered m'.mem))
    × (run 4 original_returned ≡ some (at_exit_hook context original_returned))
    × (run 3 exit_returned ≡ some (at_caller context entered original_returned exit_returned))
    × ((at_caller context entered original_returned exit_returned).regs 1 ≡ 4)
    × ((at_caller context entered original_returned exit_returned).regs 7 ≡ 28)
hook_function_exit-run_example =
    hook_function_exit-run context booted (omega arith) (omega arith) (omega arith) (omega arith)
      (omega arith) entered original_returned exit_returned 1 7 (omega arith) (omega arith) refl
      refl (omega arith) exit_memory-HoldsAt refl (omega arith) (λ k within. ground arith)
      (HoldsAt-put_words (hook_stub context) (0x10000 - 32) (exit_words context)
        (map original_returned.regs result_registers) exit_memory (inr (omega arith))
        exit_memory-HoldsAt)
      (put_words-HoldsAt (0x10000 - 32) (map original_returned.regs result_registers) exit_memory)
      (HoldsAt-put_words (0x10000 - 16) (0x10000 - 32) (map entered exit_registers)
        (map original_returned.regs result_registers) exit_memory (inr (omega arith))
        (put_words-HoldsAt (0x10000 - 16) (map entered exit_registers)
          (put_words (hook_stub context) (exit_words context) booted.mem)))
      (omega arith) refl

-- The word right behind the context of an entry hook.
unhook_function-hook_function_example :
    let m' = unhooked_state context (entry_words context) booted in
    ((hook_function_entry context >> unhook_function 0x300000 (saved_instructions context)) booted
      ≡ done tt m')
    × (m'.mem (0x200000 + 72) ≡ booted.mem (0x200000 + 72))
unhook_function-hook_function_example =
    unhook_function-hook_function context booted (omega arith) entry_hook (0x200000 + 72)
      (omega arith) (inr (omega arith)) (inr (omega arith))

-- A second hook on the function, with a context and a hook function of its own.
abbrev second_context : HookContext
second_context = record {
  address = 0x210000;
  target_function = 0x300000;
  hook_function = 0x500000;
  user_data = 9;
}

context-Hookable : Hookable context
context-Hookable = record {
  target_fits = omega arith;
  context_fits = omega arith;
  apart = inr (omega arith);
  aligned = omega arith;
  hook_aligned = omega arith;
}

second_context-Hookable : Hookable second_context
second_context-Hookable = record {
  target_fits = omega arith;
  context_fits = omega arith;
  apart = inr (omega arith);
  aligned = omega arith;
  hook_aligned = omega arith;
}

abbrev hooked_once : Machine ℕ
hooked_once = installed_state context (entry_words context) booted

abbrev hooked_twice : Machine ℕ
hooked_twice = installed_state second_context (entry_words second_context) hooked_once

-- The second hook function has come back and has written nothing.
abbrev second_returned : Arm
second_returned = record {
  regs = registers_at (0x10000 - 40);
  pc = hook_stub second_context + 16;
  mem = put_words (0x10000 - 40) (map entered entry_registers) hooked_twice.mem;
}

second-ComesBack : ComesBack second_context entered second_returned
second-ComesBack = record {
  returned = refl;
  level = omega arith;
  kept = λ q within. ground arith;
  frame = put_words-HoldsAt (0x10000 - 40) (map entered entry_registers) hooked_twice.mem;
}

hook_function_entry-chain_example :
    let t' = at_trampoline second_context entered second_returned in
    ((hook_function_entry context >> hook_function_entry second_context) booted
      ≡ done tt hooked_twice)
    × (run 5 (at_target second_context entered hooked_twice.mem)
        ≡ some (at_hook second_context entered hooked_twice.mem))
    × (run 2 second_returned ≡ some t')
    × (t'.regs 12 ≡ 48)
    × (run 5 t' ≡ some (at_hook context t'.regs second_returned.mem))
    × HoldsAt second_returned.mem
        (entry_trampoline context)
        (trampoline_words context (entry_words context) booted.mem)
hook_function_entry-chain_example =
    hook_function_entry-chain context second_context booted context-Hookable second_context-Hookable
      refl (inl (omega arith)) entered second_returned 12 (omega arith) (inl (omega arith))
      (inl (omega arith)) second-ComesBack (λ x low high. untouched x (omega arith))
      (λ x low high. untouched x (omega arith)) (omega arith)
  where
    untouched : (x : ℕ) → 0x200000 ≤ x → second_returned.mem x ≡ hooked_twice.mem x
    untouched x low =
        put_words-outside (0x10000 - 40) (map entered entry_registers) hooked_twice.mem x
          (inr (omega arith))
