-- ===== src/Interrupted/OutOfMemory.antt =====
-- The two early ends of `main` of tests/interrupted/main.cpp, where one of its allocations fails.
use nspire_utils.Base.{ℕ, ◌+◌, ◌-◌, ◌*◌, ◌/◌, ◌^◌, ◌≡◌, refl, arith, ne→==}
use nspire_utils.Machine.{Machine, done, write}
use nspire_utils.Alloc.{Platform, nullptr, aligned_alloc}
use nspire_utils.Alloc.Block.{
  Grants, aligned_alloc_lem, aligned_alloc-exhausted, true_block_size_lem,
}
use nspire_utils.Device.{Bus}
use nspire_utils.Interrupted.State.{System, Program, returns}
use nspire_utils.Interrupted.{Handlers, with_table, with_stack, main, block_size}
use nspire_utils.Interrupted.Lifetime.{
  opened, closed, Bootable, Restored, main_lem, closed-Restored, opened-cpu,
}

module _ {H V T : Type 0} (p : Platform H) (vic_bus : Bus V) (timer_bus : Bus T)
    (handlers : Handlers) (wait : Program (System H V T) (Unit {0})) where
  -- A platform without a block is a null pointer for the program.
  no_block :
      (m : Machine H) {heap' : H}
      → p.malloc (2 ^ 12 + 2 ^ 12 + 3) m.heap ≡ (nullptr, heap')
      → aligned_alloc p block_size block_size m ≡ done nullptr (record m { heap = heap' })
  no_block m refused =
      aligned_alloc-exhausted p 12 (2 ^ 12) m (omega arith) (omega arith) (omega arith)
        (rw (true_block_size_lem 12 (2 ^ 12) (omega arith)) refused)

  -- Where `malloc` has no block for the vectors, `main` returns 1 with the controller and the saved
  -- registers of the processor as it found them, and nothing but the heap's own state changed in
  -- the machine.
  main-no_table :
      (s : System H V T) {heap' : H}
      → Bootable vic_bus s
      → p.malloc (2 ^ 12 + 2 ^ 12 + 3) s.machine.heap ≡ (nullptr, heap')
      → let s' =
          closed vic_bus s
            (record (opened vic_bus s) { machine = record s.machine { heap = heap' } }) in
        (main p vic_bus timer_bus handlers wait s ≡ returns 1 s') × Restored vic_bus s s'
  unfolding with_table
  main-no_table s start refused =
      let word = start.word in
      (
        main_lem p vic_bus timer_bus handlers wait s _ (no_block s.machine refused) refl,
        closed-Restored vic_bus s _ start (rw (opened-cpu vic_bus s start) (word, refl)),
      )

  -- Where `malloc` grants the block for the vectors and has none for the stack, `main`, not
  -- started in user mode and with a PL190 that can hold the state read from it, returns 1 with the
  -- controller and the saved registers of the processor as it found them, but the block for the
  -- vectors is not freed: the heap is as the second `malloc` left it, and the block's header is
  -- still there.
  pub main-leaks_table :
      (s : System H V T) {raw : ℕ} {heap' heap'' : H}
      → Bootable vic_bus s
      → Grants p (2 ^ 12 + 2 ^ 12 + 3) s.machine.heap raw heap'
      → p.malloc (2 ^ 12 + 2 ^ 12 + 3) heap' ≡ (nullptr, heap'')
      → let table = (raw + 2 ^ 12 + 3) / 2 ^ 12 * 2 ^ 12 in
        let s' = closed vic_bus s (record (opened vic_bus s) {
          machine = record s.machine { mem = write s.machine.mem (table - 4) raw; heap = heap'' };
        }) in
        (main p vic_bus timer_bus handlers wait s ≡ returns 1 s') × Restored vic_bus s s'
  unfolding with_table with_stack
  main-leaks_table s {raw} {heap'} start grant refused =
      let word = start.word in
      let table = (raw + 2 ^ 12 + 3) / 2 ^ 12 * 2 ^ 12 in
      let (got, _, low, _) =
        aligned_alloc_lem p 12 (2 ^ 12) s.machine (omega arith) (omega arith) (omega arith) grant in
      let m₁ : Machine H = record s.machine {
        mem = write s.machine.mem (table - 4) raw;
        heap = heap';
      } in
      (
        main_lem p vic_bus timer_bus handlers wait s _ got
            (rw (ne→== table nullptr (omega arith), no_block m₁ refused)),
        closed-Restored vic_bus s _ start (rw (opened-cpu vic_bus s start) (word, refl)),
      )
