-- ===== src/Usb/Schedule.antt =====
-- What `allocate` leaves in memory.
use nspire_utils.Base.{
  ℕ, zero, suc, ◌+◌, ◌-◌, ◌*◌, ◌/◌, ◌%◌, ◌^◌, ◌≤◌, ◌<◌, bit_and, bit_or, inl, inr, ◌⊎◌, Bool-cases,
  ==→eq, ◌≡◌, refl, ◌∙◌, arith, ◌==◌,
}
use nspire_utils.Word.{not32}
use nspire_utils.Usb.Bits.{queue_head_tag}
use nspire_utils.Word.Mask.{bit_and_field, bit_or_sum}
use nspire_utils.Machine.{Machine, done, write, store_range}
use nspire_utils.Machine.Store.{write_ne, store_range-inside}
use nspire_utils.Alloc.{Platform}
use nspire_utils.Alloc.Block.{Grants, aligned_alloc_lem}
use nspire_utils.Usb.Structures.{
  empty_structures, clear_buffer_pages, head_image, queue_head_image, allocate,
}

clear_buffer_pages-outside :
    (q n i : ℕ) (mem : ℕ → ℕ) (a : ℕ)
    → i + n ≡ 5
    → (a < q + 28) ⊎ (q + 68 ≤ a)
    → clear_buffer_pages q n i mem a ≡ mem a
unfolding clear_buffer_pages
clear_buffer_pages-outside q zero i mem a e h = refl
clear_buffer_pages-outside q (suc n) i mem a e h =
    clear_buffer_pages-outside q n (i + 1) _ a (omega arith) h
    ∙ write_ne _ (q + 48 + 4 * i) 0 a (omega arith)
    ∙ write_ne mem (q + 28 + 4 * i) 0 a (omega arith)

-- A word that is 0 stays 0, since every write of the loop is of 0.
clear_buffer_pages-zero :
    (q n i : ℕ) (mem : ℕ → ℕ) (a : ℕ) → mem a ≡ 0 → clear_buffer_pages q n i mem a ≡ 0
unfolding clear_buffer_pages
clear_buffer_pages-zero q zero i mem a e = e
clear_buffer_pages-zero q (suc n) i mem a e =
    clear_buffer_pages-zero q n (i + 1) _ a (unfold write in ground arith)

clear_buffer_pages-cleared :
    (q n i : ℕ) (mem : ℕ → ℕ) (j : ℕ)
    → i ≤ j
    → j < i + n
    → (clear_buffer_pages q n i mem (q + 28 + 4 * j) ≡ 0)
      × (clear_buffer_pages q n i mem (q + 48 + 4 * j) ≡ 0)
unfolding clear_buffer_pages
clear_buffer_pages-cleared q zero i mem j lo hi = absurd (omega arith)
clear_buffer_pages-cleared q (suc n) i mem j lo hi = elim (Bool-cases (j == i)) [
  | inl here ↦
      let at_i = ==→eq j i here in
      (
        clear_buffer_pages-zero q n (i + 1) _ (q + 28 + 4 * j) (unfold write in ground arith),
        clear_buffer_pages-zero q n (i + 1) _ (q + 48 + 4 * j) (unfold write in ground arith),
      )
  | inr later ↦ clear_buffer_pages-cleared q n (i + 1) _ j (ground arith) (omega arith)
]

-- The words of the queue head after its initialisation.
pub record IsHead (q : ℕ) (mem : ℕ → ℕ) : Type 0 where
  pub link : mem q ≡ q + 2
  pub characteristics : mem (q + 4) ≡ 2 ^ 15
  pub capabilities : mem (q + 8) ≡ 0
  pub current : mem (q + 12) ≡ 0
  pub next : mem (q + 16) ≡ 1
  pub alternate : mem (q + 20) ≡ 1
  pub token : mem (q + 24) ≡ 2 ^ 6

link_lem :
    (q : ℕ) → q < 2 ^ 32 → q % 2 ^ 5 ≡ 0 → bit_or (bit_and q (not32 0x1f)) queue_head_tag ≡ q + 2
link_lem q word align =
    let e : bit_and q (not32 0x1f) ≡ q / 2 ^ 5 * 2 ^ 5 = omega (arith, bit_and_field 27 5 q) in
    rw e (omega (arith, bit_or_sum 5 (q / 2 ^ 5) 2 (omega arith)))

head_image-outside :
    (q : ℕ) (mem : ℕ → ℕ) (a : ℕ) → (a < q) ⊎ (q + 28 ≤ a) → head_image q mem a ≡ mem a
unfolding head_image write
head_image-outside q mem a h = ground arith

queue_head_image-outside :
    (q : ℕ) (mem : ℕ → ℕ) (a : ℕ) → (a < q) ⊎ (q + 68 ≤ a) → queue_head_image q mem a ≡ mem a
unfolding queue_head_image
queue_head_image-outside q mem a h =
    clear_buffer_pages-outside q 5 0 (head_image q mem) a refl (omega arith)
    ∙ head_image-outside q mem a (omega arith)

head_word :
    (q k : ℕ) (mem : ℕ → ℕ) → k < 28 → queue_head_image q mem (q + k) ≡ head_image q mem (q + k)
unfolding queue_head_image
head_word q k mem h = clear_buffer_pages-outside q 5 0 (head_image q mem) (q + k) refl (omega arith)

queue_head_image-IsHead :
    (q : ℕ) (mem : ℕ → ℕ) → q < 2 ^ 32 → q % 2 ^ 5 ≡ 0 → IsHead q (queue_head_image q mem)
unfolding head_image write
queue_head_image-IsHead q mem word align = record {
  link = ground (arith, head_word q 0 mem, link_lem q word align);
  characteristics = ground (arith, head_word q 4 mem);
  capabilities = ground (arith, head_word q 8 mem);
  current = ground (arith, head_word q 12 mem);
  next = ground (arith, head_word q 16 mem);
  alternate = ground (arith, head_word q 20 mem);
  token = ground (arith, head_word q 24 mem);
}

module _ {H : Type 0} (p : Platform H) (m : Machine H) {raw₁ raw₂ : ℕ} {heap₁ heap₂ : H}
    (grant₁ : Grants p (2 ^ 12 + 2 ^ 12 + 3) m.heap raw₁ heap₁)
    (grant₂ : Grants p (2 ^ 5 + 2 ^ 5 + 3) heap₁ raw₂ heap₂) where
  abbrev pub frames : ℕ
  frames = (raw₁ + 2 ^ 12 + 3) / 2 ^ 12 * 2 ^ 12

  abbrev pub head : ℕ
  head = (raw₂ + 2 ^ 5 + 3) / 2 ^ 5 * 2 ^ 5

  -- The store with the frame list filled in, and the header of the second block.
  abbrev listed : ℕ → ℕ
  listed =
      write (store_range frames 0 1024 (λ i. 1) (write m.mem (frames - 4) raw₁)) (head - 4) raw₂

  abbrev allocated_state : Machine H
  allocated_state = record m { mem = queue_head_image head listed; heap = heap₂ }

  head_facts : (head % 2 ^ 5 ≡ 0) × (raw₂ + 4 ≤ head) × (head + 2 ^ 5 ≤ raw₂ + 67)
  head_facts =
      let (_, align, low, fits) =
        aligned_alloc_lem p 5 (2 ^ 5) (record m { heap = heap₁ }) (omega arith) (omega arith)
          (omega arith) grant₂ in
      (align, low, omega arith)

  allocate_lem :
      allocate p empty_structures m
      ≡ done (record { frame_list = frames; queue_head = head }) allocated_state
  unfolding allocate
  allocate_lem =
      let (got₁, _, _, _) =
        aligned_alloc_lem p 12 (2 ^ 12) m (omega arith) (omega arith) (omega arith) grant₁ in
      let (got₂, _, _, _) =
        aligned_alloc_lem p 5 (2 ^ 5)
          (record m {
            mem = store_range frames 0 1024 (λ i. 1) (write m.mem (frames - 4) raw₁);
            heap = heap₁;
          })
          (omega arith) (omega arith) (omega arith) grant₂ in
      rw (got₁, got₂)

  -- `allocate()` on a fresh object, when the heap grants both blocks and the 68 bytes of the queue head
  -- and its header miss the frame list, returns with every entry of the frame list terminated and
  -- with a queue head that links to itself as the head of the reclamation list, its transfers
  -- terminated and halted.
  pub allocate-IsHead :
      (i : ℕ)
      → i < 1024
      → (head + 68 ≤ frames) ⊎ (frames + 2 ^ 12 ≤ head - 4)
      → (allocate p empty_structures m
          ≡ done (record { frame_list = frames; queue_head = head }) allocated_state)
        × IsHead head allocated_state.mem
        × (allocated_state.mem (frames + 4 * i) ≡ 1)
  allocate-IsHead i small clear =
      let (align, low, fits) = head_facts in
      let inside = grant₂.inside in
      (
        allocate_lem,
        queue_head_image-IsHead head listed (omega arith) align,
        queue_head_image-outside head listed (frames + 4 * i) (omega arith)
            ∙ write_ne _ (head - 4) raw₂ (frames + 4 * i) (omega arith)
            ∙ store_range-inside frames 0 1024 (λ i. 1) _ i (omega arith) (omega arith),
      )

  -- The queue head does not fit its block: `allocate()` asks for 32 bytes, and its last two writes
  -- clear words that lie wholly behind the raw block of 67 bytes that the heap granted.
  pub allocate_overruns :
      (allocate p empty_structures m
        ≡ done (record { frame_list = frames; queue_head = head }) allocated_state)
      × (raw₂ + (2 ^ 5 + 2 ^ 5 + 3) ≤ head + 64)
      × (allocated_state.mem (head + 64) ≡ 0)
  unfolding queue_head_image
  allocate_overruns =
      let (align, low, fits) = head_facts in
      let (_, cleared) =
        clear_buffer_pages-cleared head 5 0 (head_image head listed) 4 (omega arith)
          (omega arith) in
      let at_end : head + 48 + 4 * 4 ≡ head + 64 = omega arith in
      (allocate_lem, omega arith, rw (← at_end) cleared)
