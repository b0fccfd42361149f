-- ===== src/Arm/Words.antt =====
-- Rows of words in memory, and the encodings read back.
use nspire_utils.Base.{
  ℕ, ◌+◌, ◌*◌, ◌^◌, ◌<◌, ◌≤◌, true, false, some, List, [], ◌∷◌, length, ◌≡◌, ◌⊎◌, refl, ◌∙◌, arith,
}
use nspire_utils.Machine.{write}
use nspire_utils.Machine.Store.{write_self, write_ne}
use nspire_utils.Arm.{Instr, ldr_literal, stmdb_sp, ldmia_sp, blx, bx, encode, decode, put_words}

-- The words `ws` stand in memory from address `a` on.
abbrev pub HoldsAt : (ℕ → ℕ) → ℕ → List ℕ → Type 0
HoldsAt mem a [] = Unit {0}
HoldsAt mem a (w ∷ ws) = (mem a ≡ w) × HoldsAt mem (a + 4) ws

pub put_words-outside :
    (a : ℕ) (ws : List ℕ) (mem : ℕ → ℕ) (x : ℕ)
    → (x < a) ⊎ (a + 4 * length ws ≤ x)
    → put_words a ws mem x ≡ mem x
unfolding put_words
put_words-outside a [] mem x h = refl
put_words-outside a (w ∷ ws) mem x h =
    put_words-outside (a + 4) ws (write mem a w) x (omega arith) ∙ write_ne mem a w x (omega arith)

pub put_words-HoldsAt : (a : ℕ) (ws : List ℕ) (mem : ℕ → ℕ) → HoldsAt (put_words a ws mem) a ws
unfolding put_words
put_words-HoldsAt a [] mem = tt
put_words-HoldsAt a (w ∷ ws) mem = (
  put_words-outside (a + 4) ws (write mem a w) a (omega arith) ∙ write_self mem a w,
  put_words-HoldsAt (a + 4) ws (write mem a w),
)

-- A row that a second row of words does not touch stays.
pub HoldsAt-put_words :
    (a b : ℕ) (ws us : List ℕ) (mem : ℕ → ℕ)
    → (a + 4 * length ws ≤ b) ⊎ (b + 4 * length us ≤ a)
    → HoldsAt mem a ws
    → HoldsAt (put_words b us mem) a ws
HoldsAt-put_words a b [] us mem h old = tt
HoldsAt-put_words a b (w ∷ ws) us mem h old = (
  put_words-outside b us mem a (omega arith) ∙ old.0,
  HoldsAt-put_words (a + 4) b ws us mem (omega arith) old.1,
)

-- A row of words stands in every memory that agrees with the first one there.
pub HoldsAt-agree :
    (a : ℕ) (ws : List ℕ) (mem mem' : ℕ → ℕ)
    → ((x : ℕ) → a ≤ x → x < a + 4 * length ws → mem' x ≡ mem x)
    → HoldsAt mem a ws
    → HoldsAt mem' a ws
HoldsAt-agree a [] mem mem' agree old = tt
HoldsAt-agree a (w ∷ ws) mem mem' agree old = (
  agree a (omega arith) (omega arith) ∙ old.0,
  HoldsAt-agree (a + 4) ws mem mem' (λ x low high. agree x (omega arith) (omega arith)) old.1,
)

-- An instruction whose fields fit is read back from its encoding.
abbrev pub Fits : Instr → Type 0
Fits (ldr_literal up rd imm) = (rd < 16) × (imm < 2 ^ 12)
Fits (stmdb_sp mask) = mask < 2 ^ 16
Fits (ldmia_sp mask) = mask < 2 ^ 16
Fits (blx rm) = rm < 16
Fits (bx rm) = rm < 16

pub decode-encode : (i : Instr) → Fits i → decode (encode i) ≡ some i
unfolding decode
decode-encode (ldr_literal true rd imm) h = ground arith
decode-encode (ldr_literal false rd imm) h = ground arith
decode-encode (stmdb_sp mask) h = ground arith
decode-encode (ldmia_sp mask) h = ground arith
decode-encode (blx rm) h = ground arith
decode-encode (bx rm) h = ground arith
