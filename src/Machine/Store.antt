-- ===== src/Machine/Store.antt =====
-- Reading the store after writes: one word, a loop over an array, a block copy.
use nspire_utils.Base.{
  ℕ, zero, suc, ◌+◌, ◌-◌, ◌*◌, ◌≤◌, ◌<◌, ◌≡◌, ◌≢◌, ◌⊎◌, inl, inr, refl, ◌∙◌, arith, ◌==◌,
  Bool-cases, ==→eq,
}
use nspire_utils.Machine.{write, store_range, copy_block, zero_block}

pub write_self : (mem : ℕ → ℕ) (a v : ℕ) → write mem a v a ≡ v
unfolding write
write_self mem a v = ground arith

pub write_ne : (mem : ℕ → ℕ) (a v x : ℕ) → x ≢ a → write mem a v x ≡ mem x
unfolding write
write_ne mem a v x h = ground arith

pub store_range-outside :
    (base i n : ℕ) (f : ℕ → ℕ) (mem : ℕ → ℕ) (a : ℕ)
    → (a < base + 4 * i) ⊎ (base + 4 * (i + n) ≤ a)
    → store_range base i n f mem a ≡ mem a
unfolding store_range
store_range-outside base i zero f mem a h = refl
store_range-outside base i (suc n) f mem a h =
    store_range-outside base (i + 1) n f (write mem (base + 4 * i) (f i)) a (omega arith)
    ∙ write_ne mem (base + 4 * i) (f i) a (omega arith)

pub store_range-inside :
    (base i n : ℕ) (f : ℕ → ℕ) (mem : ℕ → ℕ) (j : ℕ)
    → i ≤ j
    → j < i + n
    → store_range base i n f mem (base + 4 * j) ≡ f j
unfolding store_range
store_range-inside base i zero f mem j lo hi = absurd (omega arith)
store_range-inside base i (suc n) f mem j lo hi = elim (Bool-cases (j == i)) [
  | inl here ↦
      let e = ==→eq j i here in
      rw e (
        store_range-outside base (i + 1) n f (write mem (base + 4 * i) (f i)) (base + 4 * i)
          (inl (omega arith))
        ∙ write_self mem (base + 4 * i) (f i))
  | inr later ↦
      store_range-inside base (i + 1) n f (write mem (base + 4 * i) (f i)) j (ground arith)
        (omega arith)
]

pub copy_block-inside :
    (dst src n : ℕ) (mem : ℕ → ℕ) (i : ℕ)
    → i < n
    → copy_block dst src n mem (dst + i) ≡ mem (src + i)
unfolding copy_block
copy_block-inside dst src n mem i h = let e : dst + i - dst ≡ i = omega arith in ground arith

pub copy_block-outside :
    (dst src n : ℕ) (mem : ℕ → ℕ) (a : ℕ)
    → (a < dst) ⊎ (dst + n ≤ a)
    → copy_block dst src n mem a ≡ mem a
unfolding copy_block
copy_block-outside dst src n mem a h = ground arith

pub zero_block-inside :
    (dst n : ℕ) (mem : ℕ → ℕ) (i : ℕ) → i < n → zero_block dst n mem (dst + i) ≡ 0
unfolding zero_block
zero_block-inside dst n mem i h = ground arith

pub zero_block-outside :
    (dst n : ℕ) (mem : ℕ → ℕ) (a : ℕ) → (a < dst) ⊎ (dst + n ≤ a) → zero_block dst n mem a ≡ mem a
unfolding zero_block
zero_block-outside dst n mem a h = ground arith
