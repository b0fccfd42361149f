-- ===== src/Hook.antt =====
-- src/hook/Hooks.cpp and include/nspire-utils/hook/Hooks.hpp: patching a function so that a hook runs
-- when it is entered or left, and taking the patch out again.
pub mod Template
pub mod Install
pub mod Life
pub mod Entry
pub mod Exit
pub mod Trampoline
pub mod Chain
use nspire_utils.Base.{ℕ, zero, suc, ◌+◌, ◌-◌, ◌*◌, bit_and, List, [], ◌∷◌}
use nspire_utils.Word.{add32, not32}
use nspire_utils.Machine.{M, pure, load, store, ◌>>=◌, ◌>>◌}
use nspire_utils.Caches.{
  cache_line_size, drain_writes, flush_data_cache_range, invalidate_icache_range,
}
use nspire_utils.Hook.Template.{
  hook_jump_word, entry_stub_words, exit_stub_words, trampoline_jump_word,
}

-- `EntryHookContext_ARM` or `ExitHookContext_ARM` at `address`: the fields that the functions only
-- read. The arrays are words of the store at the addresses below.
pub record HookContext : Type 0 where
  pub address : ℕ
  pub target_function : ℕ
  pub hook_function : ℕ
  pub user_data : ℕ

abbrev pub saved_instructions : HookContext → ℕ
saved_instructions c = c.address + 12

abbrev pub hook_stub : HookContext → ℕ
hook_stub c = c.address + 20

-- Behind a stub of nine words, or of thirteen.
abbrev pub entry_trampoline : HookContext → ℕ
entry_trampoline c = hook_stub c + 4 * 9

abbrev pub exit_trampoline : HookContext → ℕ
exit_trampoline c = hook_stub c + 4 * 13

module _ {H : Type 0} where
  pub sync_icache : ℕ → ℕ → M H (Unit {0})
  sync_icache address size =
      let start = bit_and address (not32 (cache_line_size - 1)) in
      let end =
        bit_and (add32 (add32 address size) (cache_line_size - 1)) (not32 (cache_line_size - 1)) in
      flush_data_cache_range start end >> drain_writes >> invalidate_icache_range start end

  -- `for (i = 0; i < count; i++) buffer[i] = func_ptr[i];`, `n` rounds from `i` on.
  copy_words : ℕ → ℕ → ℕ → ℕ → M H (Unit {0})
  copy_words target buffer zero i = pure tt
  copy_words target buffer (suc n) i = do
    instruction ← load (target + 4 * i)
    store (buffer + 4 * i) instruction
    copy_words target buffer n (i + 1)

  pub read_original_instructions : ℕ → ℕ → ℕ → M H (Unit {0})
  unfolding copy_words
  read_original_instructions target buffer count = copy_words target buffer count 0

  -- `out[0] = w; out[1] = ...;`
  pub store_words : ℕ → List ℕ → M H (Unit {0})
  store_words out [] = pure tt
  store_words out (w ∷ ws) = do store out w; store_words (out + 4) ws

  pub build_hook_jump : ℕ → ℕ → M H (Unit {0})
  build_hook_jump stub out = store_words out (hook_jump_word ∷ stub ∷ [])

  pub build_entry_hook_stub : ℕ → ℕ → ℕ → ℕ → M H (Unit {0})
  build_entry_hook_stub user_data hook trampoline out =
      store_words out (entry_stub_words user_data hook trampoline)

  pub build_exit_hook_stub : ℕ → ℕ → ℕ → ℕ → M H (Unit {0})
  build_exit_hook_stub user_data hook trampoline out =
      store_words out (exit_stub_words user_data hook trampoline)

  pub build_trampoline : ℕ → ℕ → ℕ → M H (Unit {0})
  build_trampoline saved target out = do
    first ← load saved
    store out first
    second ← load (saved + 4)
    store (out + 4) second
    store (out + 8) trampoline_jump_word
    store (out + 12) (add32 target 8)

  pub hook_function_entry : HookContext → M H (Unit {0})
  hook_function_entry c = do
    read_original_instructions c.target_function (saved_instructions c) 2
    build_trampoline (saved_instructions c) c.target_function (entry_trampoline c)
    build_entry_hook_stub c.user_data c.hook_function (entry_trampoline c) (hook_stub c)
    build_hook_jump (hook_stub c) c.target_function
    sync_icache c.target_function 8
    sync_icache (hook_stub c) (4 * 9)
    sync_icache (entry_trampoline c) (4 * 4)

  pub hook_function_exit : HookContext → M H (Unit {0})
  hook_function_exit c = do
    read_original_instructions c.target_function (saved_instructions c) 2
    build_trampoline (saved_instructions c) c.target_function (exit_trampoline c)
    build_exit_hook_stub c.user_data c.hook_function (exit_trampoline c) (hook_stub c)
    build_hook_jump (hook_stub c) c.target_function
    sync_icache c.target_function 8
    sync_icache (hook_stub c) (4 * 13)
    sync_icache (exit_trampoline c) (4 * 4)

  pub unhook_function : ℕ → ℕ → M H (Unit {0})
  unhook_function target saved = do
    first ← load saved
    store target first
    second ← load (saved + 4)
    store (target + 4) second
    sync_icache target 8
