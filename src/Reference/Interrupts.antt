-- ===== src/Reference/Interrupts.antt =====
-- reference/FOTG210_Structures.hpp, lines 245 to 341:
-- the interrupts of the device controller: group and source registers and their masks.
use nspire_utils.Base.{ℕ, ◌+◌, ◌*◌, ◌^◌}
use nspire_utils.Word.{shl32}

data DmigrBits : Type 0 where
  mint_g0 mint_g1 mint_g2 : DmigrBits

abbrev dmigr_value : DmigrBits → ℕ
dmigr_value mint_g0 = 2 ^ 0
dmigr_value mint_g1 = 2 ^ 1
dmigr_value mint_g2 = 2 ^ 2

data Dmisgr0Bits : Type 0 where
  mcx_setup_int mcx_in_int mcx_out_int mcx_comend : Dmisgr0Bits

abbrev dmisgr0_value : Dmisgr0Bits → ℕ
dmisgr0_value mcx_setup_int = 2 ^ 0
dmisgr0_value mcx_in_int = 2 ^ 1
dmisgr0_value mcx_out_int = 2 ^ 2
dmisgr0_value mcx_comend = 2 ^ 3

data Dmisgr1Bits : Type 0 where
  mf0_out_int mf0_spk_int mf1_out_int mf1_spk_int mf2_out_int mf2_spk_int mf3_out_int mf3_spk_int
        mf0_in_int mf1_in_int mf2_in_int mf3_in_int :
      Dmisgr1Bits

abbrev dmisgr1_value : Dmisgr1Bits → ℕ
dmisgr1_value mf0_out_int = 2 ^ 0
dmisgr1_value mf0_spk_int = 2 ^ 1
dmisgr1_value mf1_out_int = 2 ^ 2
dmisgr1_value mf1_spk_int = 2 ^ 3
dmisgr1_value mf2_out_int = 2 ^ 4
dmisgr1_value mf2_spk_int = 2 ^ 5
dmisgr1_value mf3_out_int = 2 ^ 6
dmisgr1_value mf3_spk_int = 2 ^ 7
dmisgr1_value mf0_in_int = 2 ^ 16
dmisgr1_value mf1_in_int = 2 ^ 17
dmisgr1_value mf2_in_int = 2 ^ 18
dmisgr1_value mf3_in_int = 2 ^ 19

data Dmisgr2Bits : Type 0 where
  mdma_cmplt mdma_error : Dmisgr2Bits

abbrev dmisgr2_value : Dmisgr2Bits → ℕ
dmisgr2_value mdma_cmplt = 2 ^ 7
dmisgr2_value mdma_error = 2 ^ 8

data DigrBits : Type 0 where
  int_g0 int_g1 int_g2 : DigrBits

abbrev digr_value : DigrBits → ℕ
digr_value int_g0 = 2 ^ 0
digr_value int_g1 = 2 ^ 1
digr_value int_g2 = 2 ^ 2

data Disgr0Bits : Type 0 where
  cx_setup_int cx_in_int cx_out_int cx_comend_int cx_comfail_int cx_comabt_int : Disgr0Bits

abbrev disgr0_value : Disgr0Bits → ℕ
disgr0_value cx_setup_int = 2 ^ 0
disgr0_value cx_in_int = 2 ^ 1
disgr0_value cx_out_int = 2 ^ 2
disgr0_value cx_comend_int = 2 ^ 3
disgr0_value cx_comfail_int = 2 ^ 4
disgr0_value cx_comabt_int = 2 ^ 5

data Disgr2Bits : Type 0 where
  usbrst_int susp_int resm_int iso_seq_err_int iso_seq_abort_int tx0byte_int rx0byte_int dma_cmplt
        dma_error :
      Disgr2Bits

abbrev disgr2_value : Disgr2Bits → ℕ
disgr2_value usbrst_int = 2 ^ 0
disgr2_value susp_int = 2 ^ 1
disgr2_value resm_int = 2 ^ 2
disgr2_value iso_seq_err_int = 2 ^ 3
disgr2_value iso_seq_abort_int = 2 ^ 4
disgr2_value tx0byte_int = 2 ^ 5
disgr2_value rx0byte_int = 2 ^ 6
disgr2_value dma_cmplt = 2 ^ 7
disgr2_value dma_error = 2 ^ 8

-- The helpers for the interrupts of one FIFO: the bits of the mask register and of the status register.
abbrev dmisgr1_mf_in_int : ℕ → ℕ
dmisgr1_mf_in_int fifo = shl32 1 (16 + fifo)

abbrev dmisgr1_mf_outspk_int : ℕ → ℕ
dmisgr1_mf_outspk_int fifo = shl32 0x3 (fifo * 2)

abbrev disgr1_out_int : ℕ → ℕ
disgr1_out_int fifo = shl32 1 (fifo * 2)

abbrev disgr1_spk_int : ℕ → ℕ
disgr1_spk_int fifo = shl32 1 (1 + fifo * 2)

abbrev disgr1_in_int : ℕ → ℕ
disgr1_in_int fifo = shl32 1 (16 + fifo)
