-- ===== src/Hook/Template.antt =====
-- The templates of src/hook/HookTemplates.S, as the assembler encodes them, with their placeholders
-- filled in by src/hook/Hooks.cpp.
use mathlib.Core.List.{map}
use nspire_utils.Base.{ℕ, true, false, ◌+◌, ◌^◌, List, [], ◌∷◌, ◌++◌}
use nspire_utils.Arm.{Instr, ldr_literal, stmdb_sp, ldmia_sp, blx, bx, encode}

-- `ldr pc, [pc, #-4]`
abbrev hook_jump : Instr
hook_jump = ldr_literal false 15 4

abbrev pub hook_jump_word : ℕ
hook_jump_word = encode hook_jump

-- r0 to r6, r9, r12 and lr.
abbrev pub entry_mask : ℕ
entry_mask = 0x7f + 2 ^ 9 + 2 ^ 12 + 2 ^ 14

abbrev entry_hook_stub : List Instr
entry_hook_stub =
    stmdb_sp entry_mask
    ∷ ldr_literal true 0 12
    ∷ ldr_literal true 12 12
    ∷ blx 12
    ∷ ldmia_sp entry_mask
    ∷ ldr_literal true 15 4
    ∷ []

-- r4, r5, r9 and lr, and r0 to r3.
abbrev pub exit_mask : ℕ
exit_mask = 2 ^ 4 + 2 ^ 5 + 2 ^ 9 + 2 ^ 14

abbrev pub result_mask : ℕ
result_mask = 0xf

abbrev exit_hook_stub : List Instr
exit_hook_stub =
    stmdb_sp exit_mask
    ∷ ldr_literal true 12 28
    ∷ blx 12
    ∷ stmdb_sp result_mask
    ∷ ldr_literal true 0 20
    ∷ ldr_literal true 12 20
    ∷ blx 12
    ∷ ldmia_sp result_mask
    ∷ ldmia_sp exit_mask
    ∷ bx 14
    ∷ []

abbrev pub entry_stub_words : ℕ → ℕ → ℕ → List ℕ
entry_stub_words user_data hook trampoline =
    map encode entry_hook_stub ++ user_data ∷ hook ∷ trampoline ∷ []

abbrev pub exit_stub_words : ℕ → ℕ → ℕ → List ℕ
exit_stub_words user_data hook trampoline =
    map encode exit_hook_stub ++ trampoline ∷ user_data ∷ hook ∷ []

-- `ldr pc, [pc, #-4]`
abbrev trampoline_jump : Instr
trampoline_jump = ldr_literal false 15 4

abbrev pub trampoline_jump_word : ℕ
trampoline_jump_word = encode trampoline_jump
