-- ===== src/Device.antt =====
-- Memory-mapped devices: 32-bit register accesses over the state `S` of a device, which is a
-- parameter, and the code that makes them one after the other.
use nspire_utils.Base.{ℕ, zero, suc, Bool}

-- `*reinterpret_cast<volatile uint32_t*>(address)`, as a value and as a target. A read may change
-- the device.
pub record Bus (S : Type 0) : Type 0 where
  pub read : ℕ → S → ℕ × S
  pub write : ℕ → ℕ → S → S

abbrev pub Io : Type 0 → Type 0 → Type 0
Io S A = S → A × S

module _ {S A B : Type 0} where
  infixl 5 ◌>>=◌ ◌>>◌
  abbrev pub ◌>>=◌ : Io S A → (A → Io S B) → Io S B
  ◌>>=◌ p k s = k (p s).0 (p s).1

  abbrev pub ◌>>◌ : Io S A → Io S B → Io S B
  ◌>>◌ p q s = q (p s).1

module _ {S : Type 0} where
  abbrev pub pure : {A : Type 0} → A → Io S A
  pure a s = (a, s)

  abbrev pub peek : Bus S → ℕ → Io S ℕ
  peek bus a = bus.read a

  abbrev pub poke : Bus S → ℕ → ℕ → Io S (Unit {0})
  poke bus a v s = (tt, bus.write a v s)

-- The device's state after `k` polls.
unfoldable pub polled : {S : Type 0} → Io S Bool → ℕ → S → S
polled stop zero s = s
polled stop (suc k) s = polled stop k (stop s).1
