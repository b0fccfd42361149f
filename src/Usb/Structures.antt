-- ===== src/Usb/Structures.antt =====
-- `FOTG210_MemoryStructures` of src/devices/usb/structures.cpp: the periodic frame list and the head
-- of the asynchronous schedule. A `QueueHead` is 17 words long: four, and a transfer descriptor of 13.
use nspire_utils.Base.{ℕ, zero, suc, ◌+◌, ◌*◌, bit_and, bit_or, ◌==◌, if◌then◌else◌}
use nspire_utils.Word.{not32}
use nspire_utils.Machine.{M, pure, store_all, write, done, ◌>>=◌, ◌>>◌}
use nspire_utils.Alloc.{Platform, nullptr, aligned_alloc, aligned_free}
use nspire_utils.Usb.Bits.{
  frame_list_alignment, frame_list_entries, qtd_alignment, queue_head_tag, head_of_reclamation_list,
  token_halted,
}

pub record MemoryStructures : Type 0 where
  pub frame_list : ℕ
  pub queue_head : ℕ

-- `FOTG210_MemoryStructures()`
abbrev pub empty_structures : MemoryStructures
empty_structures = record { frame_list = nullptr; queue_head = nullptr }

-- The loop over both lists of buffer pages, at their offsets in the queue head.
unfoldable pub clear_buffer_pages : ℕ → ℕ → ℕ → (ℕ → ℕ) → ℕ → ℕ
clear_buffer_pages q zero i mem = mem
clear_buffer_pages q (suc n) i mem =
    clear_buffer_pages q n (i + 1) (write (write mem (q + 28 + 4 * i) 0) (q + 48 + 4 * i) 0)

-- The assignments to the queue head at `q`, in order, up to the buffer pages.
unfoldable pub head_image : ℕ → (ℕ → ℕ) → ℕ → ℕ
head_image q mem =
    let mem₁ = write mem q (bit_or (bit_and q (not32 0x1f)) queue_head_tag) in
    let mem₂ = write mem₁ (q + 4) head_of_reclamation_list in
    let mem₃ = write mem₂ (q + 8) 0 in
    let mem₄ = write mem₃ (q + 12) 0 in
    let mem₅ = write mem₄ (q + 16) 1 in
    let mem₆ = write mem₅ (q + 20) 1 in write mem₆ (q + 24) token_halted

unfoldable pub queue_head_image : ℕ → (ℕ → ℕ) → ℕ → ℕ
queue_head_image q mem = clear_buffer_pages q 5 0 (head_image q mem)

module _ {H : Type 0} (p : Platform H) where
  -- The pointer that the object has, or a new block.
  keep_or_alloc : ℕ → ℕ → ℕ → M H ℕ
  keep_or_alloc ptr alignment size =
      if ptr == nullptr then aligned_alloc p alignment size else pure ptr

  init_queue_head : ℕ → M H (Unit {0})
  init_queue_head q m = done tt (record m { mem = queue_head_image q m.mem })

  -- `allocate()`. Neither pointer is tested before it is written through.
  unfoldable pub allocate : MemoryStructures → M H MemoryStructures
  unfolding keep_or_alloc init_queue_head
  allocate t = do
    frames ← keep_or_alloc t.frame_list frame_list_alignment (frame_list_entries * 4)
    store_all frames 0 frame_list_entries (λ i. 1)
    q ← keep_or_alloc t.queue_head qtd_alignment 32
    init_queue_head q
    pure (record { frame_list = frames; queue_head = q })

  free_if_any : ℕ → M H ℕ
  free_if_any ptr = if ptr == nullptr then pure ptr else (aligned_free p ptr >> pure nullptr)

  -- `~FOTG210_MemoryStructures()`
  unfoldable pub destroy : MemoryStructures → M H MemoryStructures
  unfolding free_if_any
  destroy t = do
    frames ← free_if_any t.frame_list
    q ← free_if_any t.queue_head
    pure (record { frame_list = frames; queue_head = q })
