-- ===== src/Alloc/Block.antt =====
-- The block that `aligned_alloc` hands out, and how `aligned_free` finds its raw block again.
use native.Mathlib.Nat.{
  pow-le-pow_right, div-mul-le_self, lt-div-mul-add, mul-mod_left, le-div_iff_mul-le,
}
use native.Mathlib.Decide.{dec_le}
use nspire_utils.Base.{
  ℕ, ◌+◌, ◌-◌, ◌*◌, ◌/◌, ◌%◌, ◌^◌, ◌≤◌, ◌<◌, bit_and, false, ne→==, le→ltb, lt→ltb, ◌⊎◌, inl, inr,
  ◌≡◌, ◌≢◌, refl, ap, ◌∙◌, arith,
}
use nspire_utils.Word.Mask.{pow_pos, bit_and_align}
use nspire_utils.Word.{add32, sub32, not32, u32}
use nspire_utils.Machine.{Machine, done, throw, bad_alloc, bad_array_new_length, ◌>>=◌, ◌>>◌, write}
use nspire_utils.Machine.Store.{write_self}
use nspire_utils.Alloc.{
  Platform, nullptr, pointer_size, true_block_size, aligned_address, aligned_alloc, aligned_free,
  is_power_of_two, place, platform_malloc, platform_free, allocate, non_null,
}
use nspire_utils.Alloc.PowerOfTwo.{is_power_of_two_iff, pow_bound}

-- What the code relies on at a call of the platform's `malloc` with `n` bytes: a block that is not
-- at 0 and that ends inside the address space.
pub record Grants {H : Type 0} (p : Platform H) (n : ℕ) (heap : H) (raw : ℕ) (heap' : H)
    : Type 0 where
  pub answer : p.malloc n heap ≡ (raw, heap')
  pub not_null : raw ≢ 0
  pub inside : raw + n ≤ 2 ^ 32

aligned_address_lem :
    (k raw : ℕ)
    → k < 32
    → raw + 2 ^ k + 3 < 2 ^ 32
    → aligned_address (2 ^ k) raw ≡ (raw + 2 ^ k + 3) / 2 ^ k * 2 ^ k
unfolding aligned_address
aligned_address_lem k raw h fits =
    let sum : add32 (add32 raw pointer_size) (2 ^ k - 1) ≡ raw + 2 ^ k + 3 =
      omega (arith, pow_pos k) in
    ap (λ t. bit_and t (not32 (2 ^ k - 1))) sum
    ∙ bit_and_align k (raw + 2 ^ k + 3) (omega arith) fits

lt_of_not_le : {a b : ℕ} → ¬ (a ≤ b) → b < a
lt_of_not_le h = omega arith

pub true_block_size_lem :
    (k size : ℕ) → size + 2 ^ k + 3 < 2 ^ 32 → true_block_size (2 ^ k) size ≡ size + 2 ^ k + 3
unfolding true_block_size
true_block_size_lem k size h = omega (arith, pow_pos k)

pow-lt : (k : ℕ) → k < 32 → 2 ^ k < 2 ^ 32
pow-lt k h = omega (arith, pow-le-pow_right {n = 2} (omega arith) {i = k} {j = 31} (omega arith))

four-le-pow : (k : ℕ) → 2 ≤ k → 4 ≤ 2 ^ k
four-le-pow k h = pow-le-pow_right {n = 2} (omega arith) {i = 2} {j = k} h

-- `aligned_free` hands the platform the word below the block.
pub aligned_free_lem :
    {H : Type 0} (p : Platform H) (ptr : ℕ) (m : Machine H)
    → 4 ≤ ptr
    → ptr < 2 ^ 32
    → aligned_free p ptr m ≡ done tt (record m { heap = p.free (m.mem (ptr - 4)) m.heap })
unfolding aligned_free platform_free
aligned_free_lem p ptr m low high =
    let header : sub32 ptr pointer_size ≡ ptr - 4 = omega arith in
    rw (ne→== ptr 0 (omega arith), header)

module _ {H : Type 0} (p : Platform H) (k size : ℕ) (m : Machine H) {raw : ℕ} {heap' : H}
    (align : 2 ≤ k) (nonempty : 0 < size) (fits : size + 2 ^ k + 3 < 2 ^ 32)
    (grant : Grants p (size + 2 ^ k + 3) m.heap raw heap') where
  abbrev block : ℕ
  block = (raw + 2 ^ k + 3) / 2 ^ k * 2 ^ k

  -- With room for the header and the padding, `aligned_alloc(2^k, size)` returns a multiple of the
  -- alignment, behind a stored copy of the raw pointer; header and block lie in the raw block, and
  -- the word of the header is the only one that changes.
  pub aligned_alloc_lem :
      (aligned_alloc p (2 ^ k) size m
        ≡ done block (record m { mem = write m.mem (block - 4) raw; heap = heap' }))
      × (block % 2 ^ k ≡ 0)
      × (raw + 4 ≤ block)
      × (block + size ≤ raw + (size + 2 ^ k + 3))
  unfolding aligned_alloc platform_malloc place
  aligned_alloc_lem =
      let inside = grant.inside in
      let below = div-mul-le_self (raw + 2 ^ k + 3) (2 ^ k) in
      let above = lt-div-mul-add {a = raw + 2 ^ k + 3} (pow_pos k) in
      let small : k < 32 = pow_bound k (omega arith) in
      let header : sub32 block pointer_size ≡ block - 4 = omega arith in
      (
        rw (
          ne→== size 0 (omega arith),
          (is_power_of_two_iff (2 ^ k) (omega arith)).1 (k, refl),
          le→ltb (2 ^ k) pointer_size (four-le-pow k align),
          true_block_size_lem k size fits,
          grant.answer,
          ne→== raw 0 grant.not_null,
          aligned_address_lem k raw small (omega arith),
          header,
        ),
        mul-mod_left _ (2 ^ k),
        omega arith,
        omega arith,
      )

  -- The state in which `aligned_alloc` leaves the machine.
  abbrev pub allocated : Machine H
  allocated = record m { mem = write m.mem (block - 4) raw; heap = heap' }

  -- A program that calls aligned_alloc with an alignment 2^k of at least four, a positive size, no
  -- overflow of the padded size and a granted block, uses the block, and calls aligned_free
  -- returns, and gives the platform the raw pointer that malloc answered and nothing else: the use
  -- may change the machine in any way that leaves the words below the block, which it is given, as
  -- they are.
  pub aligned_free-aligned_alloc :
      (used : ℕ → Machine H → Machine H)
      → ((b a : ℕ) (s : Machine H) → a < b → (used b s).mem a ≡ s.mem a)
      → (aligned_alloc p (2 ^ k) size >>= λ b. (λ s. done tt (used b s)) >> aligned_free p b) m
        ≡ done tt (record (used block allocated) { heap = p.free raw (used block allocated).heap })
  aligned_free-aligned_alloc used keeps =
      let (got, _, low, _) = aligned_alloc_lem in
      let inside = grant.inside in
      let high = div-mul-le_self (raw + 2 ^ k + 3) (2 ^ k) in
      let stored : (used block allocated).mem (block - 4) ≡ raw =
        keeps block (block - 4) allocated (omega arith) ∙ write_self m.mem (block - 4) raw in
      rw (got, aligned_free_lem p block (used block allocated) (omega arith) (omega arith), stored)
        refl

module _ {H : Type 0} (p : Platform H) where
  -- A size of zero, an alignment that is no power of two and one below a pointer's size are turned
  -- down with a null pointer, before the heap is asked.
  aligned_alloc-null :
      (alignment size : ℕ) (m : Machine H)
      → (size ≡ 0) ⊎ (is_power_of_two alignment ≡ false) ⊎ (alignment < 4)
      → aligned_alloc p alignment size m ≡ done nullptr m
  unfolding aligned_alloc
  aligned_alloc-null alignment size m h = ground arith

  -- When the platform's heap has no block, the answer is a null pointer and no word is written.
  pub aligned_alloc-exhausted :
      (k size : ℕ) (m : Machine H) {heap' : H}
      → 2 ≤ k
      → k < 32
      → 0 < size
      → p.malloc (true_block_size (2 ^ k) size) m.heap ≡ (nullptr, heap')
      → aligned_alloc p (2 ^ k) size m ≡ done nullptr (record m { heap = heap' })
  unfolding aligned_alloc platform_malloc place
  aligned_alloc-exhausted k size m align small nonempty h = rw (
    ne→== size 0 (omega arith),
    (is_power_of_two_iff (2 ^ k) (pow-lt k small)).1 (k, refl),
    le→ltb (2 ^ k) pointer_size (four-le-pow k align),
    h,
  )

  -- For an item type whose alignment is below a pointer's, `Allocator::allocate` throws
  -- `std::bad_alloc` at every count that passes its overflow test, and asks no heap.
  allocate-small_align :
      (item_size item_align n : ℕ) (m : Machine H)
      → item_align < 4
      → n ≤ (2 ^ 32 - 1) / item_size
      → allocate p item_size item_align n m ≡ throw bad_alloc m
  unfolding allocate
  allocate-small_align item_size item_align n m h bound = rw (
    le→ltb ((2 ^ 32 - 1) / item_size) n bound,
    aligned_alloc-null item_align (u32 (n * item_size)) m (inr (inr h)),
  )

  -- The count that the guard lets through never wraps: the bytes asked for are `n * sizeof`, and
  -- a larger count throws `std::bad_array_new_length` with nothing allocated.
  allocate-guard :
      (item_size item_align n : ℕ) (m : Machine H)
      → 0 < item_size
      → ((n * item_size < 2 ^ 32)
          × (allocate p item_size item_align n m
              ≡ (aligned_alloc p item_align (n * item_size) >>= non_null p) m))
        ⊎ ((2 ^ 32 ≤ n * item_size)
            × (allocate p item_size item_align n m ≡ throw bad_array_new_length m))
  unfolding allocate
  allocate-guard item_size item_align n m pos =
      let limit = le-div_iff_mul-le {x = n} {y = 2 ^ 32 - 1} pos in
      elim (dec_le n ((2 ^ 32 - 1) / item_size)) [
        | yes h ↦
            let fits : n * item_size < 2 ^ 32 = omega (arith, limit.0 h) in
            let word : u32 (n * item_size) ≡ n * item_size = omega arith in
            inl (fits, rw (le→ltb ((2 ^ 32 - 1) / item_size) n h, word))
        | no h ↦
            let wraps : 2 ^ 32 - 1 < n * item_size = lt_of_not_le (λ le. h (limit.1 le)) in
            inr (omega arith, rw (lt→ltb ((2 ^ 32 - 1) / item_size) n (omega arith)))
      ]

-- Where `size + alignment - 1 + sizeof(void*)` wraps, the raw block that `aligned_alloc` asks for
-- ends before the block that it cuts out of it.
pub aligned_block_overruns :
    (k size raw : ℕ)
    → k < 32
    → size < 2 ^ 32
    → 2 ^ 32 ≤ size + 2 ^ k + 3
    → raw + 2 ^ k + 3 < 2 ^ 32
    → raw + true_block_size (2 ^ k) size < aligned_address (2 ^ k) raw + size
unfolding true_block_size
aligned_block_overruns k size raw small word wraps fits = omega (
  arith,
  aligned_address_lem k raw small fits,
  lt-div-mul-add {a = raw + 2 ^ k + 3} (pow_pos k),
  pow-lt k small,
  pow_pos k,
)
