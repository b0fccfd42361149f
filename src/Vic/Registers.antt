-- ===== src/Vic/Registers.antt =====
-- What the code relies on at the controller: the registers that the PL190's manual describes, and
-- how an access at each offset reads or changes them.
use nspire_utils.Base.{
  ℕ, ◌+◌, ◌-◌, ◌/◌, ◌%◌, bit_and, bit_or, Bool, true, ◌&&◌, ◌||◌, ltb, leb, ◌==◌, if◌then◌else◌,
  ◌≡◌, ◌≢◌,
}
use nspire_utils.Word.{not32}
use nspire_utils.Device.{Bus}

pub record VicRegs : Type 0 where
  pub select : ℕ
  pub enable : ℕ
  pub software : ℕ
  pub protect : ℕ
  pub default : ℕ
  pub addrs : ℕ → ℕ
  pub controls : ℕ → ℕ

abbrev pub put : (ℕ → ℕ) → ℕ → ℕ → ℕ → ℕ
put f i v j = if j == i then v else f j

-- A write of `v` at an offset. Enables and software interrupts are set through one register and
-- cleared through another; the protection has one bit and a vector control six.
unfoldable pub reg_write : ℕ → ℕ → VicRegs → VicRegs
reg_write o v r =
    if o == 0x0c
    then record r { select = v }
    else if o == 0x10
    then record r { enable = bit_or r.enable v }
    else if o == 0x14
    then record r { enable = bit_and r.enable (not32 v) }
    else if o == 0x18
    then record r { software = bit_or r.software v }
    else if o == 0x1c
    then record r { software = bit_and r.software (not32 v) }
    else if o == 0x20
    then record r { protect = v % 2 }
    else if o == 0x34
    then record r { default = v }
    else if leb 0x100 o && ltb o 0x140
    then record r { addrs = put r.addrs ((o - 0x100) / 4) v }
    else if leb 0x200 o && ltb o 0x240
    then record r { controls = put r.controls ((o - 0x200) / 4) (v % 64) }
    else r

-- The value at the offset of a register that holds what was written.
unfoldable pub reg_read : ℕ → VicRegs → ℕ
reg_read o r =
    if o == 0x0c
    then r.select
    else if o == 0x10
    then r.enable
    else if o == 0x18
    then r.software
    else if o == 0x20
    then r.protect
    else if o == 0x34
    then r.default
    else if leb 0x100 o && ltb o 0x140
    then r.addrs ((o - 0x100) / 4)
    else if leb 0x200 o && ltb o 0x240
    then r.controls ((o - 0x200) / 4)
    else 0

-- The registers that `reg_read` answers for; the status registers and the clear registers are not.
abbrev pub holds_value : ℕ → Bool
holds_value o =
    o == 0x0c
    || o == 0x10
    || o == 0x18
    || o == 0x20
    || o == 0x34
    || leb 0x100 o && ltb o 0x140
    || leb 0x200 o && ltb o 0x240

-- A device behind the bus at `base` is a PL190. Reading a register changes none; the register
-- at 0x30, whose reading starts the service of an interrupt, is left out.
pub record IsPl190 {S : Type 0} (bus : Bus S) (base : ℕ) : Type 0 where
  pub regs : S → VicRegs
  pub regs_write : (o v : ℕ) (s : S) → regs (bus.write (base + o) v s) ≡ reg_write o v (regs s)
  pub read_value :
      (o : ℕ) (s : S) → holds_value o ≡ true → (bus.read (base + o) s).0 ≡ reg_read o (regs s)
  pub read_quiet : (o : ℕ) (s : S) → o ≢ 0x30 → regs (bus.read (base + o) s).1 ≡ regs s
