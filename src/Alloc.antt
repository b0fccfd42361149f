-- ===== src/Alloc.antt =====
-- src/mem/Alloc.cpp and include/nspire-utils/mem/Alloc.hpp: aligned blocks cut out of the
-- platform's heap. The heap itself is behind two system calls, which are a parameter.
pub mod PowerOfTwo
pub mod Block
use nspire_utils.Base.{
  ℕ, ◌+◌, ◌-◌, ◌*◌, ◌/◌, ◌^◌, bit_and, Bool, true, false, ◌&&◌, not, ltb, ◌==◌, if◌then◌else◌,
}
use nspire_utils.Word.{u32, add32, sub32, not32}
use nspire_utils.Machine.{
  Machine, M, done, pure, raise, bad_alloc, bad_array_new_length, load, store, ◌>>=◌, ◌>>◌,
}

-- The system calls `e_malloc` and `e_free` over the state `H` of the platform's heap. `malloc`
-- answers 0 when it has no block.
pub record Platform (H : Type 0) : Type 0 where
  pub malloc : ℕ → H → ℕ × H
  pub free : ℕ → H → H

abbrev pub nullptr : ℕ
nullptr = 0

-- `sizeof(void*)`
abbrev pub pointer_size : ℕ
pointer_size = 4

unfoldable pub is_power_of_two : ℕ → Bool
is_power_of_two x = not (x == 0) && bit_and x (sub32 x 1) == 0

-- `size + alignment - 1 + sizeof(void*)` in `size_t`.
pub true_block_size : ℕ → ℕ → ℕ
true_block_size alignment size = add32 (sub32 (add32 size alignment) 1) pointer_size

-- `(start + (alignment - 1)) & ~(alignment - 1)` with `start` behind the stored pointer.
pub aligned_address : ℕ → ℕ → ℕ
aligned_address alignment raw =
    bit_and (add32 (add32 raw pointer_size) (alignment - 1)) (not32 (alignment - 1))

module _ {H : Type 0} (p : Platform H) where
  pub platform_malloc : ℕ → M H ℕ
  platform_malloc size m =
      let (raw, heap) = p.malloc size m.heap in done raw (record m { heap = heap })

  pub platform_free : ℕ → M H (Unit {0})
  platform_free ptr m = done tt (record m { heap = p.free ptr m.heap })

  -- From the raw block on: find the aligned address and keep the raw pointer below it.
  pub place : ℕ → ℕ → M H ℕ
  place alignment raw =
      if raw == nullptr
      then pure nullptr
      else (store (sub32 (aligned_address alignment raw) pointer_size) raw
          >> pure (aligned_address alignment raw))

  pub aligned_alloc : ℕ → ℕ → M H ℕ
  unfolding platform_malloc place
  aligned_alloc alignment size =
      if size == 0
      then pure nullptr
      else if not (is_power_of_two alignment)
      then pure nullptr
      else if ltb alignment pointer_size
      then pure nullptr
      else (platform_malloc (true_block_size alignment size) >>= place alignment)

  pub aligned_free : ℕ → M H (Unit {0})
  unfolding platform_free
  aligned_free ptr =
      if ptr == nullptr then pure tt else (load (sub32 ptr pointer_size) >>= platform_free)

  -- `AlignedAllocate` and `AlignedDeleter`.
  abbrev aligned_allocate : ℕ → ℕ → M H ℕ
  aligned_allocate = aligned_alloc

  abbrev aligned_deleter : ℕ → M H (Unit {0})
  aligned_deleter = aligned_free

  -- `Allocator<ItemType>` for a type of the given `sizeof` and `alignof`.
  abbrev pub non_null : ℕ → M H ℕ
  non_null ptr = if ptr == nullptr then raise bad_alloc else pure ptr

  unfoldable pub allocate : ℕ → ℕ → ℕ → M H ℕ
  allocate item_size item_align n =
      if ltb ((2 ^ 32 - 1) / item_size) n
      then raise bad_array_new_length
      else (aligned_alloc item_align (u32 (n * item_size)) >>= non_null)

  abbrev deallocate : ℕ → ℕ → M H (Unit {0})
  deallocate ptr n = aligned_free ptr
