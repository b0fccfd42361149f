-- ===== src/Hook/Install.antt =====
-- What stands in memory once a hook is installed, and that taking it out leaves the function as it was.
use nspire_utils.Base.{
  ℕ, ◌+◌, ◌-◌, ◌*◌, ◌/◌, ◌^◌, ◌≤◌, ◌<◌, bit_and, List, [], ◌∷◌, ◌≡◌, ◌⊎◌, refl, ◌∙◌, arith, length,
}
use nspire_utils.Word.{add32, not32}
use nspire_utils.Word.Mask.{bit_and_field}
use nspire_utils.Machine.{
  CacheOp, Machine, M, done, write, drain_write_buffer, clean_dcache_line, invalidate_icache_line,
  ◌>>◌,
}
use nspire_utils.Machine.Store.{write_ne}
use nspire_utils.Caches.{drain_writes}
use nspire_utils.Caches.Range.{
  lines, line_count, flush_data_cache_range_lem, invalidate_icache_range_lem,
}
use nspire_utils.Mmu.Walk.{Disjoint}
use nspire_utils.Arm.{put_words}
use nspire_utils.Arm.Words.{HoldsAt, put_words-outside, put_words-HoldsAt, HoldsAt-put_words}
use nspire_utils.Hook.{
  HookContext, saved_instructions, hook_stub, sync_icache, store_words, read_original_instructions,
  build_trampoline, build_hook_jump,
}
use nspire_utils.Hook.Template.{hook_jump_word, trampoline_jump_word}

-- The operations of `SyncICache`, the latest first.
abbrev pub synced : ℕ → ℕ → List CacheOp → List CacheOp
synced address size ops =
    let first = address / 32 * 32 in
    let n = (address + size + 31) / 32 - address / 32 in
    lines invalidate_icache_line first n (drain_write_buffer ∷ lines clean_dcache_line first n ops)

module _ {H : Type 0} where
  pub sync_icache_lem :
      (address size : ℕ) (m : Machine H)
      → address + size ≤ 2 ^ 32 - 64
      → sync_icache address size m ≡ done tt (record m { ops = synced address size m.ops })
  unfolding sync_icache drain_writes
  sync_icache_lem address size m h =
      let first = address / 32 * 32 in
      let end = (address + size + 31) / 32 * 32 in
      let sum : add32 (add32 address size) 31 ≡ address + size + 31 = omega arith in
      let e₁ : bit_and address (not32 31) ≡ first = omega (arith, bit_and_field 27 5 address) in
      let e₂ : bit_and (address + size + 31) (not32 31) ≡ end =
        omega (arith, bit_and_field 27 5 (address + size + 31)) in
      let same : first / 32 * 32 ≡ first = omega arith in
      let count : line_count first end ≡ (address + size + 31) / 32 - address / 32 = omega arith in
      rw (
        sum,
        e₁,
        e₂,
        flush_data_cache_range_lem first end m (omega arith) (omega arith),
        invalidate_icache_range_lem first end
            (record m {
              ops =
                  drain_write_buffer
                  ∷ lines clean_dcache_line (first / 32 * 32) (line_count first end) m.ops;
            })
            (omega arith) (omega arith),
        same,
        count,
      )

  store_words_lem :
      (out : ℕ) (ws : List ℕ) (m : Machine H)
      → store_words out ws m ≡ done tt (record m { mem = put_words out ws m.mem })
  unfolding store_words put_words
  store_words_lem out [] m = refl
  store_words_lem out (w ∷ ws) m =
      store_words_lem (out + 4) ws (record m { mem = write m.mem out w })

  read_original_instructions_lem :
      (target buffer : ℕ) (m : Machine H)
      → Disjoint target 8 buffer 8
      → read_original_instructions target buffer 2 m
        ≡ done tt
            (record m { mem = put_words buffer (m.mem target ∷ m.mem (target + 4) ∷ []) m.mem })
  unfolding read_original_instructions put_words
  read_original_instructions_lem target buffer m apart =
      let t₀ : target + 4 * 0 ≡ target = omega arith in
      let t₁ : target + 4 * (0 + 1) ≡ target + 4 = omega arith in
      let b₀ : buffer + 4 * 0 ≡ buffer = omega arith in
      let b₁ : buffer + 4 * (0 + 1) ≡ buffer + 4 = omega arith in
      rw (t₀, t₁, b₀, b₁, write_ne m.mem buffer (m.mem target) (target + 4) (omega arith))

  build_trampoline_lem :
      (saved target out a b : ℕ) (m : Machine H)
      → Disjoint saved 8 out 16
      → target + 8 < 2 ^ 32
      → HoldsAt m.mem saved (a ∷ b ∷ [])
      → build_trampoline saved target out m
        ≡ done tt (record m {
          mem = put_words out (a ∷ b ∷ trampoline_jump_word ∷ (target + 8) ∷ []) m.mem;
        })
  unfolding build_trampoline put_words
  build_trampoline_lem saved target out a b m apart fits held =
      let o₂ : out + 8 ≡ out + 4 + 4 = omega arith in
      let o₃ : out + 12 ≡ out + 4 + 4 + 4 = omega arith in
      let back : add32 target 8 ≡ target + 8 = omega arith in
      rw (held.0, write_ne m.mem out a (saved + 4) (omega arith), held.1.0, o₂, o₃, back)

-- The body that both kinds of hook share, with the stub's words and the trampoline's address.
abbrev pub install : {H : Type 0} → HookContext → List ℕ → ℕ → M H (Unit {0})
install c ws trampoline = do
  read_original_instructions c.target_function (saved_instructions c) 2
  build_trampoline (saved_instructions c) c.target_function trampoline
  store_words (hook_stub c) ws
  build_hook_jump (hook_stub c) c.target_function
  sync_icache c.target_function 8
  sync_icache (hook_stub c) (4 * length ws)
  sync_icache trampoline (4 * 4)

module _ (c : HookContext) (ws : List ℕ) (mem : ℕ → ℕ) where
  -- The first two instructions of the function, and the trampoline that runs them.
  abbrev pub originals : List ℕ
  originals = mem c.target_function ∷ mem (c.target_function + 4) ∷ []

  abbrev pub trampoline_words : List ℕ
  trampoline_words =
      mem c.target_function
      ∷ mem (c.target_function + 4)
      ∷ trampoline_jump_word
      ∷ (c.target_function + 8)
      ∷ []

  -- The store with the context's arrays filled in and the function patched.
  abbrev pub patched : ℕ → ℕ
  patched = put_words c.target_function (hook_jump_word ∷ hook_stub c ∷ []) (
      put_words (hook_stub c) ws (
        put_words (hook_stub c + 4 * length ws) trampoline_words
          (put_words (saved_instructions c) originals mem)))

  module _ (apart : Disjoint c.target_function 8 c.address (36 + 4 * length ws)) where
    -- The patch jumps to the stub, the stub and the trampoline stand in the context, and the
    -- function's first two instructions are kept there.
    pub patched-HoldsAt :
        HoldsAt patched c.target_function (hook_jump_word ∷ hook_stub c ∷ [])
        × HoldsAt patched (hook_stub c) ws
        × HoldsAt patched (hook_stub c + 4 * length ws) trampoline_words
        × HoldsAt patched (saved_instructions c) originals
    patched-HoldsAt =
        let saved = put_words (saved_instructions c) originals mem in
        let tramp = put_words (hook_stub c + 4 * length ws) trampoline_words saved in
        let stub = put_words (hook_stub c) ws tramp in
        let jump = hook_jump_word ∷ hook_stub c ∷ [] in
        (
          put_words-HoldsAt c.target_function jump stub,
          HoldsAt-put_words (hook_stub c) c.target_function ws jump stub (omega arith)
              (put_words-HoldsAt (hook_stub c) ws tramp),
          HoldsAt-put_words (hook_stub c + 4 * length ws) c.target_function trampoline_words jump
              stub (omega arith)
              (HoldsAt-put_words (hook_stub c + 4 * length ws) (hook_stub c) trampoline_words ws
                tramp (omega arith)
                (put_words-HoldsAt (hook_stub c + 4 * length ws) trampoline_words saved)),
          HoldsAt-put_words (saved_instructions c) c.target_function originals jump stub
              (omega arith)
              (HoldsAt-put_words (saved_instructions c) (hook_stub c) originals ws tramp
                (omega arith)
                (HoldsAt-put_words (saved_instructions c) (hook_stub c + 4 * length ws) originals
                  trampoline_words saved (omega arith)
                  (put_words-HoldsAt (saved_instructions c) originals mem))),
        )

    -- Nothing else changes.
    pub patched-outside :
        (x : ℕ)
        → (x < c.target_function) ⊎ (c.target_function + 8 ≤ x)
        → (x < c.address + 12) ⊎ (c.address + 36 + 4 * length ws ≤ x)
        → patched x ≡ mem x
    patched-outside x h k =
        let saved = put_words (saved_instructions c) originals mem in
        let tramp = put_words (hook_stub c + 4 * length ws) trampoline_words saved in
        let stub = put_words (hook_stub c) ws tramp in
        put_words-outside c.target_function (hook_jump_word ∷ hook_stub c ∷ []) stub x (omega arith)
        ∙ put_words-outside (hook_stub c) ws tramp x (omega arith)
        ∙ put_words-outside (hook_stub c + 4 * length ws) trampoline_words saved x (omega arith)
        ∙ put_words-outside (saved_instructions c) originals mem x (omega arith)

module _ {H : Type 0} (c : HookContext) (ws : List ℕ) (m : Machine H) where
  abbrev pub installed_state : Machine H
  installed_state = record m {
    mem = patched c ws m.mem;
    ops =
        synced (hook_stub c + 4 * length ws) 16
          (synced (hook_stub c) (4 * length ws) (synced c.target_function 8 m.ops));
  }

module _ {H : Type 0} (c : HookContext) (ws : List ℕ) (m : Machine H)
    (apart : Disjoint c.target_function 8 c.address (36 + 4 * length ws))
    (target_fits : c.target_function + 8 ≤ 2 ^ 32 - 64)
    (context_fits : c.address + 36 + 4 * length ws ≤ 2 ^ 32 - 64) where
  pub install_lem : install c ws (hook_stub c + 4 * length ws) m ≡ done tt (installed_state c ws m)
  unfolding build_hook_jump
  install_lem =
      let tr = hook_stub c + 4 * length ws in
      let m₁ = record m { mem = put_words (saved_instructions c) (originals c ws m.mem) m.mem } in
      let m₂ = record m { mem = put_words tr (trampoline_words c ws m.mem) m₁.mem } in
      let m₃ = record m { mem = put_words (hook_stub c) ws m₂.mem } in
      let m₄ = record m { mem = patched c ws m.mem } in
      let ops₁ = synced c.target_function 8 m.ops in
      let ops₂ = synced (hook_stub c) (4 * length ws) ops₁ in
      rw (
        read_original_instructions_lem c.target_function (saved_instructions c) m (omega arith),
        build_trampoline_lem (saved_instructions c) c.target_function tr (m.mem c.target_function)
            (m.mem (c.target_function + 4)) m₁ (omega arith) (omega arith)
            (put_words-HoldsAt (saved_instructions c) (originals c ws m.mem) m.mem),
        store_words_lem (hook_stub c) ws m₂,
        store_words_lem c.target_function (hook_jump_word ∷ hook_stub c ∷ []) m₃,
        sync_icache_lem c.target_function 8 m₄ (omega arith),
        sync_icache_lem (hook_stub c) (4 * length ws) (record m₄ { ops = ops₁ }) (omega arith),
        sync_icache_lem tr 16 (record m₄ { ops = ops₂ }) (omega arith),
      )
