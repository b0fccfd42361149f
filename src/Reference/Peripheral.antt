-- ===== src/Reference/Peripheral.antt =====
-- reference/FOTG210_Structures.hpp, lines 159 to 244:
-- the registers of the device controller and their bits.
use nspire_utils.Base.{ℕ, ◌+◌, ◌-◌, ◌*◌, ◌^◌}
use nspire_utils.Word.{shl32}

abbrev dmcr : ℕ
dmcr = 0x100

abbrev dar : ℕ
dar = 0x104

abbrev dtr : ℕ
dtr = 0x108

abbrev phytmsr : ℕ
phytmsr = 0x114

abbrev dcfesr : ℕ
dcfesr = 0x120

abbrev dicr : ℕ
dicr = 0x124

abbrev dmigr : ℕ
dmigr = 0x130

abbrev dmisgr0 : ℕ
dmisgr0 = 0x134

abbrev dmisgr1 : ℕ
dmisgr1 = 0x138

abbrev dmisgr2 : ℕ
dmisgr2 = 0x13c

abbrev digr : ℕ
digr = 0x140

abbrev disgr0 : ℕ
disgr0 = 0x144

abbrev disgr1 : ℕ
disgr1 = 0x148

abbrev disgr2 : ℕ
disgr2 = 0x14c

abbrev rx0byte : ℕ
rx0byte = 0x150

abbrev tx0byte : ℕ
tx0byte = 0x154

abbrev epmap : ℕ
epmap = 0x1a0

abbrev fifomap : ℕ
fifomap = 0x1a8

abbrev fifocf : ℕ
fifocf = 0x1ac

abbrev dmatfnr : ℕ
dmatfnr = 0x1c0

abbrev dmacpsr1 : ℕ
dmacpsr1 = 0x1c8

abbrev dmacpsr2 : ℕ
dmacpsr2 = 0x1cc

abbrev cxport : ℕ
cxport = 0x1d0

data DmcrBits : Type 0 where
  cap_rmwakup half_speed glint_en gosusp sfrst chip_en hs_en : DmcrBits

abbrev dmcr_value : DmcrBits → ℕ
dmcr_value cap_rmwakup = 2 ^ 0
dmcr_value half_speed = 2 ^ 1
dmcr_value glint_en = 2 ^ 2
dmcr_value gosusp = 2 ^ 3
dmcr_value sfrst = 2 ^ 4
dmcr_value chip_en = 2 ^ 5
dmcr_value hs_en = 2 ^ 6

data DarBits : Type 0 where
  aft_conf : DarBits

abbrev dar_value : DarBits → ℕ
dar_value aft_conf = 2 ^ 7

data DtrBits : Type 0 where
  tst_clrff : DtrBits

abbrev dtr_value : DtrBits → ℕ
dtr_value tst_clrff = 2 ^ 0

data PhytmsrBits : Type 0 where
  unplug tst_jsta tst_ksta tst_se0_nak tst_pkt : PhytmsrBits

abbrev phytmsr_value : PhytmsrBits → ℕ
phytmsr_value unplug = 2 ^ 0
phytmsr_value tst_jsta = 2 ^ 1
phytmsr_value tst_ksta = 2 ^ 2
phytmsr_value tst_se0_nak = 2 ^ 3
phytmsr_value tst_pkt = 2 ^ 4

data DcfesrBits : Type 0 where
  cx_done tst_pkdone cx_stl cx_clr cx_emp : DcfesrBits

abbrev dcfesr_value : DcfesrBits → ℕ
dcfesr_value cx_done = 2 ^ 0
dcfesr_value tst_pkdone = 2 ^ 1
dcfesr_value cx_stl = 2 ^ 2
dcfesr_value cx_clr = 2 ^ 3
dcfesr_value cx_emp = 2 ^ 5

-- The registers of an endpoint and of a FIFO. The additions are on `int`, so that endpoint 0 has the
-- register in front of the table.
abbrev inepmpsr : ℕ → ℕ
inepmpsr ep = 0x160 + 4 * ep - 4

abbrev outepmpsr : ℕ → ℕ
outepmpsr ep = 0x180 + 4 * ep - 4

abbrev fibcr : ℕ → ℕ
fibcr fifo = 0x1b0 + fifo * 4

abbrev dcfesr_fifo_empty : ℕ → ℕ
dcfesr_fifo_empty fifo = shl32 1 (8 + fifo)
