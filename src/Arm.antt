-- ===== src/Arm.antt =====
-- The instructions of src/hook/HookTemplates.S, their encodings and what they do: the description of
-- the processor, from the architecture's manual, against which the hooks are stated.
pub mod Words
pub mod Run
use nspire_utils.Base.{
  ℕ, zero, suc, ◌+◌, ◌-◌, ◌*◌, ◌/◌, ◌%◌, ◌^◌, Bool, true, false, Option, none, some, List, [], ◌∷◌,
  ◌==◌, ltb, length, if◌then◌else◌,
}
use mathlib.Core.List.{map}
use nspire_utils.Machine.{write}

-- `ldr rd, [pc, #imm]` with the offset added or subtracted, `stmdb sp!, {mask}`,
-- `ldmia sp!, {mask}`, `blx rm` and `bx rm`.
pub data Instr : Type 0 where
  ldr_literal : Bool → ℕ → ℕ → Instr
  stmdb_sp : ℕ → Instr
  ldmia_sp : ℕ → Instr
  blx : ℕ → Instr
  bx : ℕ → Instr

abbrev pub encode : Instr → ℕ
encode (ldr_literal true rd imm) = 0xe59f * 2 ^ 16 + rd * 2 ^ 12 + imm
encode (ldr_literal false rd imm) = 0xe51f * 2 ^ 16 + rd * 2 ^ 12 + imm
encode (stmdb_sp mask) = 0xe92d * 2 ^ 16 + mask
encode (ldmia_sp mask) = 0xe8bd * 2 ^ 16 + mask
encode (blx rm) = 0xe12fff3 * 2 ^ 4 + rm
encode (bx rm) = 0xe12fff1 * 2 ^ 4 + rm

unfoldable pub decode : ℕ → Option Instr
decode w =
    if w / 2 ^ 16 == 0xe59f
    then some (ldr_literal true (w / 2 ^ 12 % 16) (w % 2 ^ 12))
    else if w / 2 ^ 16 == 0xe51f
    then some (ldr_literal false (w / 2 ^ 12 % 16) (w % 2 ^ 12))
    else if w / 2 ^ 16 == 0xe92d
    then some (stmdb_sp (w % 2 ^ 16))
    else if w / 2 ^ 16 == 0xe8bd
    then some (ldmia_sp (w % 2 ^ 16))
    else if w / 2 ^ 4 == 0xe12fff3
    then some (blx (w % 2 ^ 4))
    else if w / 2 ^ 4 == 0xe12fff1
    then some (bx (w % 2 ^ 4))
    else none

-- The registers of a mask from register `r` on, in ascending order.
abbrev pub registers : ℕ → ℕ → ℕ → List ℕ
registers zero r mask = []
registers (suc n) r mask =
    let rest = registers n (r + 1) (mask / 2) in if mask % 2 == 1 then r ∷ rest else rest

-- Register 13 is the stack pointer and 14 the link register; the program counter stands apart.
pub record Arm : Type 0 where
  pub regs : ℕ → ℕ
  pub pc : ℕ
  pub mem : ℕ → ℕ

-- Words stored at ascending addresses, and registers loaded from them.
unfoldable pub put_words : ℕ → List ℕ → (ℕ → ℕ) → ℕ → ℕ
put_words a [] mem = mem
put_words a (w ∷ ws) mem = put_words (a + 4) ws (write mem a w)

pub load_regs : List ℕ → ℕ → (ℕ → ℕ) → (ℕ → ℕ) → ℕ → ℕ
load_regs [] a mem regs = regs
load_regs (r ∷ rs) a mem regs = load_regs rs (a + 4) mem (write regs r (mem a))

-- A jump in ARM state: an address that is no multiple of four would change to Thumb or fault.
abbrev pub jump : ℕ → Arm → Option Arm
jump a s = if a % 4 == 0 then some (record s { pc = a }) else none

abbrev pub push : List ℕ → Arm → Arm
push rs s =
    let sp = s.regs 13 - 4 * length rs in
    record s { regs = write s.regs 13 sp; pc = s.pc + 4; mem = put_words sp (map s.regs rs) s.mem }

abbrev pub pop : List ℕ → Arm → Arm
pop rs s = record s {
  regs = write (load_regs rs (s.regs 13) s.mem s.regs) 13 (s.regs 13 + 4 * length rs);
  pc = s.pc + 4;
}

-- The program counter reads as the instruction's address plus eight. A list with the program counter
-- in it is outside the part that is described, and so is a push below address 0.
pub execute : Instr → Arm → Option Arm
execute (ldr_literal up rd imm) s =
    let v = s.mem (if up then s.pc + 8 + imm else s.pc + 8 - imm) in
    if rd == 15 then jump v s else some (record s { regs = write s.regs rd v; pc = s.pc + 4 })
execute (stmdb_sp mask) s =
    if ltb (s.regs 13) (4 * length (registers 16 0 mask))
    then none
    else some (push (registers 16 0 mask) s)
execute (ldmia_sp mask) s = if ltb mask (2 ^ 15) then some (pop (registers 16 0 mask) s) else none
execute (blx rm) s = jump (s.regs rm) (record s { regs = write s.regs 14 (s.pc + 4) })
execute (bx rm) s = jump (s.regs rm) s

abbrev pub run_decoded : Option Instr → Arm → Option Arm
run_decoded none s = none
run_decoded (some i) s = execute i s

pub step : Arm → Option Arm
step s = run_decoded (decode (s.mem s.pc)) s

abbrev pub and_then : Option Arm → (Arm → Option Arm) → Option Arm
and_then none k = none
and_then (some s) k = k s

-- `n` steps.
pub run : ℕ → Arm → Option Arm
run zero s = some s
run (suc n) s = and_then (step s) (run n)
