-- ===== src/Sram/NoBlock.antt =====
-- The constructor of the accessor where the allocation fails.
use nspire_utils.Base.{ℕ, ◌+◌, ◌^◌, Option, ◌≡◌, refl, ap, ◌∙◌, arith}
use nspire_utils.Machine.{Machine, M, throw, bad_alloc}
use nspire_utils.Alloc.{Platform, nullptr, true_block_size}
use nspire_utils.Alloc.Block.{aligned_alloc-exhausted, true_block_size_lem}
use nspire_utils.Mmu.Descriptor.{MmuAccessPermission, MmuCachePolicy}
use nspire_utils.Mmu.Editor.{MmuEditor}
use nspire_utils.Sram.{construct, clone_and_remap}

-- Where the heap has no block, the constructor throws `bad_alloc` and writes no word.
construct-no_block :
    {H : Type 0} (p : Platform H) (e : MmuEditor) (m : Machine H) {heap' : H} (new : ℕ)
    (disable : Option (M H ℕ)) (enable : Option (ℕ → M H (Unit {0})))
    (permission : MmuAccessPermission) (policy : MmuCachePolicy) (domain : ℕ)
    → p.malloc (2 ^ 18 + 2 ^ 20 + 3) m.heap ≡ (nullptr, heap')
    → construct p e new disable enable permission policy domain m
      ≡ throw bad_alloc (record m { heap = heap' })
unfolding construct clone_and_remap
construct-no_block p e m {heap'} new disable enable permission policy domain empty =
    let refused : p.malloc (true_block_size (2 ^ 20) (2 ^ 18)) m.heap ≡ (nullptr, heap') =
      ap (λ n. p.malloc n m.heap) (true_block_size_lem 20 (2 ^ 18) (omega arith)) ∙ empty in
    rw (aligned_alloc-exhausted p 20 (2 ^ 18) m (omega arith) (omega arith) (omega arith) refused)
      refl
