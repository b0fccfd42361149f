-- ===== src/Interrupted/Running.antt =====
-- `interrupts` of tests/interrupted/main.cpp on the page that the set-up mapped: the vectors, the loop of
-- waits, and what they keep.
use nspire_utils.Base.{ℕ, ◌%◌, zero, suc, ◌+◌, ◌^◌, ◌≤◌, ◌<◌, ◌≡◌, ◌⊎◌, refl, ◌∙◌}
use nspire_utils.Machine.{Machine}
use nspire_utils.Cpu.{irq_save, irq_enable, irq_restore}
use nspire_utils.Cpu.Banks.{SameMode, irq_enable-SameMode, irq_restore-SameMode}
use nspire_utils.Interrupted.State.{System, Program, returns}
use nspire_utils.Interrupted.{wait_rounds, take_interrupts}

-- The machine has the same tables in force, vectors' position and heap, and the same words outside `n`
-- bytes from `a` on and `k` bytes from `b` on.
pub record Kept {H : Type 0} (a n b k : ℕ) (m m' : Machine H) : Type 0 where
  pub same_ttbr0 : m'.ttbr0 ≡ m.ttbr0
  pub same_sctlr : m'.sctlr ≡ m.sctlr
  pub same_heap : m'.heap ≡ m.heap
  pub outside : (x : ℕ) → (x < a) ⊎ (a + n ≤ x) → (x < b) ⊎ (b + k ≤ x) → m'.mem x ≡ m.mem x

module _ {H : Type 0} {a n b k : ℕ} where
  pub Kept-refl : (m : Machine H) → Kept a n b k m m
  Kept-refl m = record {
    same_ttbr0 = refl;
    same_sctlr = refl;
    same_heap = refl;
    outside = λ x o₁ o₂. refl;
  }

  pub Kept-trans :
      {m m' m'' : Machine H} → Kept a n b k m m' → Kept a n b k m' m'' → Kept a n b k m m''
  Kept-trans first then = record {
    same_ttbr0 = then.same_ttbr0 ∙ first.same_ttbr0;
    same_sctlr = then.same_sctlr ∙ first.same_sctlr;
    same_heap = then.same_heap ∙ first.same_heap;
    outside = λ x o₁ o₂. then.outside x o₁ o₂ ∙ first.outside x o₁ o₂;
  }

-- What the program relies on at `WaitForInterrupt`, during which the handlers run: it comes back in the mode
-- that it was called in, and the handlers leave the processor's tables, vectors and heap alone and write to their stack, the
-- block at `stack`, only. The devices may be in any state afterwards.
pub record ServesInterrupts {H V T : Type 0} (stack : ℕ) (wait : Program (System H V T) (Unit {0}))
    : Type 0 where
  pub served : System H V T → System H V T
  pub comes_back : (s : System H V T) → wait s ≡ returns tt (served s)
  pub keeps : (s : System H V T) → Kept stack (2 ^ 12) stack (2 ^ 12) s.machine (served s).machine
  pub word : (s : System H V T) → s.cpu.cpsr < 2 ^ 32 → (served s).cpu.cpsr < 2 ^ 32
  pub same_mode : (s : System H V T) → (served s).cpu.cpsr % 2 ^ 5 ≡ s.cpu.cpsr % 2 ^ 5

module _ {H V T : Type 0} (stack : ℕ) (wait : Program (System H V T) (Unit {0}))
    (serves : ServesInterrupts stack wait) where
  wait_rounds_lem :
      (n : ℕ) (s : System H V T)
      → s.cpu.cpsr < 2 ^ 32
      → (s' : System H V T) × (wait_rounds wait n s ≡ returns tt s')
        × Kept stack (2 ^ 12) stack (2 ^ 12) s.machine s'.machine
        × SameMode s.cpu s'.cpu
  unfolding wait_rounds
  wait_rounds_lem zero s h = (s, refl, Kept-refl s.machine, (h, refl))
  wait_rounds_lem (suc n) s h =
      let (s', rest, kept, fits) = wait_rounds_lem n (serves.served s) (serves.word s h) in
      (
        s',
        rw (serves.comes_back s) rest,
        Kept-trans (serves.keeps s) kept,
        (fits.0, fits.1 ∙ serves.same_mode s),
      )

  pub take_interrupts_lem :
      (s : System H V T)
      → s.cpu.cpsr < 2 ^ 32
      → (s' : System H V T) × (take_interrupts wait s ≡ returns tt s')
        × Kept stack (2 ^ 12) stack (2 ^ 12) s.machine s'.machine
        × SameMode s.cpu s'.cpu
  unfolding take_interrupts
  take_interrupts_lem s h =
      let enabled : System H V T = record s { cpu = irq_enable s.cpu } in
      let (s', rounds, kept, fits) = wait_rounds_lem 5 enabled (irq_enable-SameMode s.cpu h).0 in
      let restored = irq_restore-SameMode (irq_save s.cpu) s'.cpu fits.0 in
      (
        record s' { cpu = irq_restore (irq_save s.cpu) s'.cpu },
        rw rounds refl,
        kept,
        (restored.0, restored.1 ∙ fits.1 ∙ (irq_enable-SameMode s.cpu h).1),
      )
