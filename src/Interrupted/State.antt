-- ===== src/Interrupted/State.antt =====
-- The state of the program of tests/interrupted/main.cpp and the effects of its functions: a call of one part of
-- the library changes that part of the system.
use nspire_utils.Machine.{Machine, Exception, Outcome, done, throw, hang, M}
use nspire_utils.Cpu.{Cpu}
use nspire_utils.Device.{Io}

-- The processor with its memory, and the two devices that the program drives.
pub record System (H V T : Type 0) : Type 0 where
  pub machine : Machine H
  pub cpu : Cpu
  pub vic : V
  pub timer : T

-- A call returns, throws, or never comes back.
pub data Ending (S A : Type 0) : Type 0 where
  returns : A → S → Ending S A
  throws : Exception → S → Ending S A
  never : Ending S A

abbrev pub Program : Type 0 → Type 0 → Type 0
Program S A = S → Ending S A

module _ {S A B : Type 0} where
  abbrev pub and_then : Ending S A → (A → Program S B) → Ending S B
  and_then (returns a s) k = k a s
  and_then (throws e s) k = throws e s
  and_then never k = never

  infixl 5 ◌>>=◌ ◌>>◌
  abbrev pub ◌>>=◌ : Program S A → (A → Program S B) → Program S B
  ◌>>=◌ p k s = and_then (p s) k

  abbrev pub ◌>>◌ : Program S A → Program S B → Program S B
  ◌>>◌ p q s = and_then (p s) (λ _. q)

abbrev pub pure : {S A : Type 0} → A → Program S A
pure a s = returns a s

-- A call of one part of the library, on its part of the system.
module _ {H V T A : Type 0} where
  abbrev pub ended : System H V T → Outcome H A → Ending (System H V T) A
  ended s (done a m) = returns a (record s { machine = m })
  ended s (throw e m) = throws e (record s { machine = m })
  ended s hang = never

  abbrev pub on_machine : M H A → Program (System H V T) A
  on_machine f s = ended s (f s.machine)

  abbrev pub on_cpu : (Cpu → A × Cpu) → Program (System H V T) A
  on_cpu f s = returns (f s.cpu).0 (record s { cpu = (f s.cpu).1 })

  abbrev pub on_vic : Io V A → Program (System H V T) A
  on_vic f s = returns (f s.vic).0 (record s { vic = (f s.vic).1 })

  abbrev pub on_timer : Io T A → Program (System H V T) A
  on_timer f s = returns (f s.timer).0 (record s { timer = (f s.timer).1 })
