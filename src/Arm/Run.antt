-- ===== src/Arm/Run.antt =====
-- One step at a time, for each instruction.
use nspire_utils.Base.{
  ℕ, suc, ◌+◌, ◌-◌, ◌*◌, ◌^◌, ◌%◌, ◌<◌, ◌≤◌, Bool, true, false, if◌then◌else◌, Option, some, List,
  [], ◌∷◌, length, ◌||◌, ◌==◌, ◌≡◌, refl, ap, ◌∙◌, fun_ext, arith, Bool-cases, ==→eq, eq→==, inl,
  inr, sym, ◌≢◌,
}
use mathlib.Core.List.{map}
use nspire_utils.Machine.{write}
use nspire_utils.Arm.{
  Instr, ldr_literal, stmdb_sp, ldmia_sp, blx, bx, Arm, encode, decode, registers, load_regs, push,
  pop, execute, run_decoded, step, run,
}
use nspire_utils.Arm.Words.{HoldsAt, Fits, decode-encode}

-- The instruction whose encoding stands at the program counter is the one that is executed.
step_lem :
    (i : Instr) (s : Arm) {t : Arm}
    → Fits i
    → s.mem s.pc ≡ encode i
    → execute i s ≡ some t
    → step s ≡ some t
unfolding step
step_lem i s fits at_pc e = ap (λ w. run_decoded (decode w) s) at_pc ∙ rw (decode-encode i fits) e

pub run-suc :
    (n : ℕ) (s : Arm) {t : Arm} {r : Option Arm} → step s ≡ some t → run n t ≡ r → run (suc n) s ≡ r
unfolding run
run-suc n s e rest = rw e rest

pub run-zero : (s : Arm) → run 0 s ≡ some s
unfolding run
run-zero s = refl

module _ (s : Arm) where
  pub step-ldr :
      (rd imm : ℕ) {w : ℕ}
      → rd < 15
      → imm < 2 ^ 12
      → s.mem s.pc ≡ encode (ldr_literal true rd imm)
      → s.mem (s.pc + 8 + imm) ≡ w
      → step s ≡ some (record s { regs = write s.regs rd w; pc = s.pc + 4 })
  unfolding execute
  step-ldr rd imm below small at_pc literal =
      let i = ldr_literal true rd imm in step_lem i s (omega arith) at_pc (ground (arith, literal))

  pub step-ldr_pc :
      (imm : ℕ) {w : ℕ}
      → imm < 2 ^ 12
      → w % 4 ≡ 0
      → s.mem s.pc ≡ encode (ldr_literal true 15 imm)
      → s.mem (s.pc + 8 + imm) ≡ w
      → step s ≡ some (record s { pc = w })
  unfolding execute
  step-ldr_pc imm small align at_pc literal =
      step_lem (ldr_literal true 15 imm) s (omega arith) at_pc (ground (arith, literal))

  -- `ldr pc, [pc, #-4]` reads the word behind it.
  pub step-jump :
      {w : ℕ}
      → w % 4 ≡ 0
      → s.mem s.pc ≡ encode (ldr_literal false 15 4)
      → s.mem (s.pc + 4) ≡ w
      → step s ≡ some (record s { pc = w })
  unfolding execute
  step-jump align at_pc literal =
      let e : s.mem (s.pc + 8 - 4) ≡ s.mem (s.pc + 4) = ap s.mem (omega arith) in
      step_lem (ldr_literal false 15 4) s (omega arith) at_pc (ground (arith, e, literal))

  pub step-stmdb :
      (mask : ℕ)
      → mask < 2 ^ 16
      → 4 * length (registers 16 0 mask) ≤ s.regs 13
      → s.mem s.pc ≡ encode (stmdb_sp mask)
      → step s ≡ some (push (registers 16 0 mask) s)
  unfolding execute
  step-stmdb mask small room at_pc = step_lem (stmdb_sp mask) s small at_pc (ground arith)

  step-ldmia :
      (mask : ℕ)
      → mask < 2 ^ 15
      → s.mem s.pc ≡ encode (ldmia_sp mask)
      → step s ≡ some (pop (registers 16 0 mask) s)
  unfolding execute
  step-ldmia mask small at_pc = step_lem (ldmia_sp mask) s (omega arith) at_pc (ground arith)

  pub step-blx :
      (rm : ℕ) {w : ℕ}
      → rm < 16
      → s.regs rm ≡ w
      → w % 4 ≡ 0
      → s.mem s.pc ≡ encode (blx rm)
      → step s ≡ some (record s { regs = write s.regs 14 (s.pc + 4); pc = w })
  unfolding execute
  step-blx rm small target align at_pc = step_lem (blx rm) s small at_pc (ground (arith, target))

  pub step-bx :
      (rm : ℕ) {w : ℕ}
      → rm < 16
      → s.regs rm ≡ w
      → w % 4 ≡ 0
      → s.mem s.pc ≡ encode (bx rm)
      → step s ≡ some (record s { pc = w })
  unfolding execute
  step-bx rm small target align at_pc = step_lem (bx rm) s small at_pc (ground (arith, target))

-- Whether a register is in a list.
abbrev pub has : ℕ → List ℕ → Bool
has r [] = false
has r (q ∷ rs) = r == q || has r rs

-- Registers loaded from the row that they were stored to.
pub load_regs-HoldsAt :
    (rs : List ℕ) (a : ℕ) (mem regs saved : ℕ → ℕ) (r : ℕ)
    → HoldsAt mem a (map saved rs)
    → load_regs rs a mem regs r ≡ (if has r rs then saved r else regs r)
unfolding load_regs write
load_regs-HoldsAt [] a mem regs saved r held = refl
load_regs-HoldsAt (q ∷ rs) a mem regs saved r held =
    load_regs-HoldsAt rs (a + 4) mem (write regs q (mem a)) saved r held.1
    ∙ elim (Bool-cases (r == q)) [
      | inl here ↦ let e = ==→eq r q here in rw (e, eq→== q q refl, held.0) (same (has q rs))
      | inr other ↦ rw other refl
    ]
  where
    same : {x : ℕ} (b : Bool) → (if b then x else x) ≡ x
    same true = refl
    same false = refl

-- The state behind `ldmia sp!, {rs}` where the row at the stack pointer holds the values `saved`.
abbrev pub restored : List ℕ → (ℕ → ℕ) → Arm → Arm
restored rs saved s = record s {
  regs = write (λ r. if has r rs then saved r else s.regs r) 13 (s.regs 13 + 4 * length rs);
  pc = s.pc + 4;
}

pub step-restored :
    (mask : ℕ) (saved : ℕ → ℕ) (s : Arm)
    → mask < 2 ^ 15
    → s.mem s.pc ≡ encode (ldmia_sp mask)
    → HoldsAt s.mem (s.regs 13) (map saved (registers 16 0 mask))
    → step s ≡ some (restored (registers 16 0 mask) saved s)
step-restored mask saved s small at_pc frame =
    let rs = registers 16 0 mask in
    step-ldmia s mask small at_pc
    ∙ ap
        (λ regs.
          some (record s { regs = write regs 13 (s.regs 13 + 4 * length rs); pc = s.pc + 4 }))
        (fun_ext (λ r. load_regs-HoldsAt rs (s.regs 13) s.mem s.regs saved r frame))

-- Such a state has the saved registers again, if those outside the row kept their values.
pub restored-regs :
    (rs : List ℕ) (saved other : ℕ → ℕ) (top r : ℕ)
    → top ≡ saved 13
    → (r ≢ 13 → has r rs ≡ false → other r ≡ saved r)
    → write (λ q. if has q rs then saved q else other q) 13 top r ≡ saved r
unfolding write
restored-regs rs saved other top r level kept = elim (Bool-cases (r == 13)) [
  | inl here ↦ rw here (level ∙ ap saved (sym (==→eq r 13 here)))
  | inr elsewhere ↦ rw elsewhere (elim (Bool-cases (has r rs)) [
    | inl within ↦ rw within refl
    | inr without ↦ rw without (kept (λ e. ground arith) without)
  ])
]
