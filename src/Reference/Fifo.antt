-- ===== src/Reference/Fifo.antt =====
-- reference/FOTG210_Structures.hpp, lines 342 to 446:
-- the zero-length, packet-size, FIFO and DMA registers of the device controller.
pub mod Configuration
pub mod PacketSize
use nspire_utils.Base.{ℕ, ◌+◌, ◌*◌, ◌^◌, bit_and, Bool, if◌then◌else◌}
use nspire_utils.Word.{shl32}

data Rx0ByteBits : Type 0 where
  ep1 ep2 ep3 ep4 ep5 ep6 ep7 ep8 : Rx0ByteBits

abbrev rx0_byte_value : Rx0ByteBits → ℕ
rx0_byte_value ep1 = 2 ^ 0
rx0_byte_value ep2 = 2 ^ 1
rx0_byte_value ep3 = 2 ^ 2
rx0_byte_value ep4 = 2 ^ 3
rx0_byte_value ep5 = 2 ^ 4
rx0_byte_value ep6 = 2 ^ 5
rx0_byte_value ep7 = 2 ^ 6
rx0_byte_value ep8 = 2 ^ 7

data Tx0ByteBits : Type 0 where
  tx0_byte_ep1 tx0_byte_ep2 tx0_byte_ep3 tx0_byte_ep4 tx0_byte_ep5 tx0_byte_ep6 tx0_byte_ep7
        tx0_byte_ep8 :
      Tx0ByteBits

abbrev tx0_byte_value : Tx0ByteBits → ℕ
tx0_byte_value tx0_byte_ep1 = 2 ^ 0
tx0_byte_value tx0_byte_ep2 = 2 ^ 1
tx0_byte_value tx0_byte_ep3 = 2 ^ 2
tx0_byte_value tx0_byte_ep4 = 2 ^ 3
tx0_byte_value tx0_byte_ep5 = 2 ^ 4
tx0_byte_value tx0_byte_ep6 = 2 ^ 5
tx0_byte_value tx0_byte_ep7 = 2 ^ 6
tx0_byte_value tx0_byte_ep8 = 2 ^ 7

data EpmpsrBits : Type 0 where
  stl_ep reset_tseq : EpmpsrBits

abbrev epmpsr_value : EpmpsrBits → ℕ
epmpsr_value stl_ep = 2 ^ 11
epmpsr_value reset_tseq = 2 ^ 12

abbrev fibcr_bcfx_mask : ℕ
fibcr_bcfx_mask = 0x7ff

data FibcrBits : Type 0 where
  ffrst : FibcrBits

abbrev fibcr_value : FibcrBits → ℕ
fibcr_value ffrst = 2 ^ 12

data DmatfnrBits : Type 0 where
  acc_f0 acc_f1 acc_f2 acc_f3 acc_cxf disdma : DmatfnrBits

abbrev dmatfnr_value : DmatfnrBits → ℕ
dmatfnr_value acc_f0 = 2 ^ 0
dmatfnr_value acc_f1 = 2 ^ 1
dmatfnr_value acc_f2 = 2 ^ 2
dmatfnr_value acc_f3 = 2 ^ 3
dmatfnr_value acc_cxf = 2 ^ 4
dmatfnr_value disdma = 0

data Dmacpsr1Bits : Type 0 where
  dma_start dma_type_in dma_abort : Dmacpsr1Bits

abbrev dmacpsr1_value : Dmacpsr1Bits → ℕ
dmacpsr1_value dma_start = 2 ^ 0
dmacpsr1_value dma_type_in = 2 ^ 1
dmacpsr1_value dma_abort = 2 ^ 3

-- `INOUTEPMPSR_MPS`, the fields of the FIFO configuration register, and the helpers of the DMA.
abbrev pub inoutepmpsr_mps : ℕ → ℕ
inoutepmpsr_mps mps = bit_and mps 0x2ff

abbrev pub fifocf_type : ℕ → ℕ → ℕ
fifocf_type type fifo = shl32 type (fifo * 8)

abbrev pub fifocf_blk_sin : ℕ → ℕ
fifocf_blk_sin fifo = shl32 0x0 (fifo * 8 + 2)

abbrev pub fifocf_blk_dub : ℕ → ℕ
fifocf_blk_dub fifo = shl32 0x1 (fifo * 8 + 2)

abbrev pub fifocf_blk_tri : ℕ → ℕ
fifocf_blk_tri fifo = shl32 0x2 (fifo * 8 + 2)

abbrev pub fifocf_blksz_512 : ℕ → ℕ
fifocf_blksz_512 fifo = shl32 0x0 (fifo * 8 + 4)

abbrev pub fifocf_blksz_1024 : ℕ → ℕ
fifocf_blksz_1024 fifo = shl32 0x1 (fifo * 8 + 4)

abbrev pub fifocf_fifo_en : ℕ → ℕ
fifocf_fifo_en fifo = shl32 0x1 (fifo * 8 + 5)

abbrev dmatfnr_acc_fn : ℕ → ℕ
dmatfnr_acc_fn fifo = shl32 1 fifo

abbrev dmacpsr1_dma_len : ℕ → ℕ
dmacpsr1_dma_len len = shl32 (bit_and len 0xffff) 8

abbrev dmacpsr1_dma_type : Bool → ℕ
dmacpsr1_dma_type dir_in = shl32 (if dir_in then 1 else 0) 1
