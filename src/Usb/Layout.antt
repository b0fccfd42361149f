-- ===== src/Usb/Layout.antt =====
-- The structures that the controller reads, word by word, as
-- include/nspire-utils/devices/usb/FOTG210_Structures.hpp declares them.
use nspire_utils.Base.{ℕ, bit_and, bit_or, List, [], ◌∷◌, ◌++◌, arith}
use nspire_utils.Word.{not32}
use nspire_utils.Machine.{write}
use nspire_utils.Arm.Words.{HoldsAt}
use nspire_utils.Usb.Bits.{queue_head_tag, head_of_reclamation_list, token_halted}
use nspire_utils.Usb.Structures.{clear_buffer_pages, head_image, queue_head_image}

-- The arrays are lists of five words each.
pub record QueueTransferDescriptor : Type 0 where
  next_qtd_pointer : ℕ
  alternate_next_qtd_pointer : ℕ
  token : ℕ
  buffer_page_pointers : List ℕ
  buffer_page_pointers_high : List ℕ

pub record QueueHead : Type 0 where
  horizontal_link_pointer : ℕ
  info1_endpoint_characteristics : ℕ
  info2_endpoint_capabilities : ℕ
  current_qtd_pointer : ℕ
  overlay_qtd : QueueTransferDescriptor

-- Eight transactions and seven pages.
record IsochronousTransferDescriptor : Type 0 where
  next_link_pointer : ℕ
  transaction_status_and_control : List ℕ
  buffer_page_pointers : List ℕ
  buffer_page_pointers_high : List ℕ

record FrameSpanTraversalNode : Type 0 where
  next_link_pointer : ℕ
  back_path_link_pointer : ℕ

-- The members in the order in which they stand in memory.
abbrev qtd_words : QueueTransferDescriptor → List ℕ
qtd_words d =
    d.next_qtd_pointer
    ∷ d.alternate_next_qtd_pointer
    ∷ d.token
    ∷ (d.buffer_page_pointers ++ d.buffer_page_pointers_high)

abbrev queue_head_words : QueueHead → List ℕ
queue_head_words h =
    h.horizontal_link_pointer
    ∷ h.info1_endpoint_characteristics
    ∷ h.info2_endpoint_capabilities
    ∷ h.current_qtd_pointer
    ∷ qtd_words h.overlay_qtd

abbrev five_zeros : List ℕ
five_zeros = 0 ∷ 0 ∷ 0 ∷ 0 ∷ 0 ∷ []

-- The queue head that `allocate()` fills in at `q`: linked to itself, at the head of the reclamation
-- list, halted and without pages.
abbrev first_queue_head : ℕ → QueueHead
first_queue_head q = record {
  horizontal_link_pointer = bit_or (bit_and q (not32 0x1f)) queue_head_tag;
  info1_endpoint_characteristics = head_of_reclamation_list;
  info2_endpoint_capabilities = 0;
  current_qtd_pointer = 0;
  overlay_qtd = record {
    next_qtd_pointer = 1;
    alternate_next_qtd_pointer = 1;
    token = token_halted;
    buffer_page_pointers = five_zeros;
    buffer_page_pointers_high = five_zeros;
  };
}

-- Member by member, that is what its initialisation stores there.
queue_head_image-HoldsAt :
    (q : ℕ) (mem : ℕ → ℕ)
    → HoldsAt (queue_head_image q mem) q (queue_head_words (first_queue_head q))
unfolding queue_head_image clear_buffer_pages head_image write
queue_head_image-HoldsAt q mem = (
  ground arith,
  (
    ground arith,
    (
      ground arith,
      (
        ground arith,
        (
          ground arith,
          (
            ground arith,
            (
              ground arith,
              (
                ground arith,
                (
                  ground arith,
                  (
                    ground arith,
                    (
                      ground arith,
                      (
                        ground arith,
                        (
                          ground arith,
                          (ground arith, (ground arith, (ground arith, (ground arith, tt)))),
                        ),
                      ),
                    ),
                  ),
                ),
              ),
            ),
          ),
        ),
      ),
    ),
  ),
)
