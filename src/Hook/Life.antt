-- ===== src/Hook/Life.antt =====
-- Installing each kind of hook, and taking it out again.
use nspire_utils.Base.{ℕ, ◌+◌, ◌-◌, ◌*◌, ◌^◌, ◌≤◌, ◌<◌, List, [], ◌∷◌, ◌≡◌, ◌⊎◌, arith, length}
use nspire_utils.Machine.{M, Machine, done, write, ◌>>◌}
use nspire_utils.Machine.Store.{write_ne}
use nspire_utils.Mmu.Walk.{Disjoint}
use nspire_utils.Arm.{put_words}
use nspire_utils.Arm.Words.{HoldsAt, put_words-outside}
use nspire_utils.Hook.{
  HookContext, saved_instructions, hook_stub, entry_trampoline, exit_trampoline,
  build_entry_hook_stub, build_exit_hook_stub, hook_function_entry, hook_function_exit,
  unhook_function,
}
use nspire_utils.Hook.Template.{entry_stub_words, exit_stub_words}
use nspire_utils.Hook.Install.{
  synced, sync_icache_lem, install_lem, installed_state, patched, patched-HoldsAt, originals,
  trampoline_words,
}

abbrev pub entry_words : HookContext → List ℕ
entry_words c = entry_stub_words c.user_data c.hook_function (entry_trampoline c)

abbrev pub exit_words : HookContext → List ℕ
exit_words c = exit_stub_words c.user_data c.hook_function (exit_trampoline c)

module _ {H : Type 0} (c : HookContext) (m : Machine H)
    (target_fits : c.target_function + 8 ≤ 2 ^ 32 - 64) where
  pub hook_function_entry_lem :
      c.address + 72 ≤ 2 ^ 32 - 64
      → Disjoint c.target_function 8 c.address 72
      → hook_function_entry c m ≡ done tt (installed_state c (entry_words c) m)
  unfolding hook_function_entry build_entry_hook_stub
  hook_function_entry_lem context_fits apart =
      install_lem c (entry_words c) m apart target_fits (omega arith)

  pub hook_function_exit_lem :
      c.address + 88 ≤ 2 ^ 32 - 64
      → Disjoint c.target_function 8 c.address 88
      → hook_function_exit c m ≡ done tt (installed_state c (exit_words c) m)
  unfolding hook_function_exit build_exit_hook_stub
  hook_function_exit_lem context_fits apart =
      install_lem c (exit_words c) m apart target_fits (omega arith)

-- `UnhookFunction_ARM` writes two kept words back.
unhook_function_lem :
    {H : Type 0} (target saved a b : ℕ) (m : Machine H)
    → target + 8 ≤ 2 ^ 32 - 64
    → Disjoint saved 8 target 8
    → HoldsAt m.mem saved (a ∷ b ∷ [])
    → unhook_function target saved m
      ≡ done tt
          (record m { mem = put_words target (a ∷ b ∷ []) m.mem; ops = synced target 8 m.ops })
unfolding unhook_function put_words
unhook_function_lem target saved a b m fits apart held = rw (
  held.0,
  write_ne m.mem target a (saved + 4) (omega arith),
  held.1.0,
  sync_icache_lem target 8 (record m { mem = write (write m.mem target a) (target + 4) b })
      (omega arith),
)

-- The patch and the restoration of the patch cancel at every word outside the context.
restored-outside :
    (c : HookContext) (ws : List ℕ) (mem : ℕ → ℕ) (x : ℕ)
    → Disjoint c.target_function 8 c.address (36 + 4 * length ws)
    → (x < c.address + 12) ⊎ (c.address + 36 + 4 * length ws ≤ x)
    → put_words c.target_function (originals c ws mem) (patched c ws mem) x ≡ mem x
unfolding put_words write
restored-outside c ws mem x apart out =
    let saved = put_words (saved_instructions c) (originals c ws mem) mem in
    let tramp = put_words (hook_stub c + 4 * length ws) (trampoline_words c ws mem) saved in
    ground (
      arith,
      put_words-outside (hook_stub c) ws tramp x,
      put_words-outside (hook_stub c + 4 * length ws) (trampoline_words c ws mem) saved x,
      put_words-outside (saved_instructions c) (originals c ws mem) mem x,
    )

-- The state behind a hook that was installed with the stub `ws` and taken out again.
abbrev pub unhooked_state : {H : Type 0} → HookContext → List ℕ → Machine H → Machine H
unhooked_state c ws m = record m {
  mem = put_words c.target_function (originals c ws m.mem) (patched c ws m.mem);
  ops = synced c.target_function 8 (installed_state c ws m).ops;
}

-- The two kinds of hook, with the sizes of their contexts, what installs them and their stubs.
pub data HookKind : Type 0 where
  entry_hook exit_hook : HookKind

abbrev pub context_size : HookKind → ℕ
context_size entry_hook = 72
context_size exit_hook = 88

abbrev pub stub_words : HookKind → HookContext → List ℕ
stub_words entry_hook c = entry_words c
stub_words exit_hook c = exit_words c

abbrev pub hook_function : {H : Type 0} → HookKind → HookContext → M H (Unit {0})
hook_function entry_hook c = hook_function_entry c
hook_function exit_hook c = hook_function_exit c

module _ {H : Type 0} (c : HookContext) (m : Machine H)
    (target_fits : c.target_function + 8 ≤ 2 ^ 32 - 64) where
  unhook-installed :
      (ws : List ℕ)
      → length ws ≤ 13
      → Disjoint c.target_function 8 c.address (36 + 4 * length ws)
      → unhook_function c.target_function (saved_instructions c) (installed_state c ws m)
        ≡ done tt (unhooked_state c ws m)
  unhook-installed ws short apart =
      let (_, _, _, held) = patched-HoldsAt c ws m.mem apart in
      unhook_function_lem c.target_function (saved_instructions c) (m.mem c.target_function)
        (m.mem (c.target_function + 4)) (installed_state c ws m) target_fits (omega arith) held

  -- UnhookFunction_ARM with the saved instructions, after HookFunctionEntry_ARM with a context of
  -- 72 bytes or HookFunctionExit_ARM with one of 88, returns with every word as it was before the
  -- hook, the function's own included, but those of the arrays of the context, which reach from
  -- its byte 12 to its end. The function and the context are apart from each other, and both lie
  -- below the last cache lines.
  pub unhook_function-hook_function :
      (kind : HookKind) (x : ℕ)
      → c.address + context_size kind ≤ 2 ^ 32 - 64
      → Disjoint c.target_function 8 c.address (context_size kind)
      → (x < c.address + 12) ⊎ (c.address + context_size kind ≤ x)
      → let m' = unhooked_state c (stub_words kind c) m in
        ((hook_function kind c >> unhook_function c.target_function (saved_instructions c)) m
          ≡ done tt m')
        × (m'.mem x ≡ m.mem x)
  unhook_function-hook_function entry_hook x fits apart out = (
    rw (hook_function_entry_lem c m target_fits fits apart)
        (unhook-installed (entry_words c) (omega arith) apart),
    restored-outside c (entry_words c) m.mem x apart (omega arith),
  )
  unhook_function-hook_function exit_hook x fits apart out = (
    rw (hook_function_exit_lem c m target_fits fits apart)
        (unhook-installed (exit_words c) (omega arith) apart),
    restored-outside c (exit_words c) m.mem x apart (omega arith),
  )
