-- ===== src/Vic/Calls.antt =====
-- The calls of `PL190VIC_Editor` that change the controller, as data, and an abstract controller: what its
-- queries answer for one interrupt and one vector, and what each call makes of those answers.
use nspire_utils.Base.{ℕ, ◌%◌, ◌^◌, ◌<◌, Bool, true, false, List, [], ◌∷◌, ◌==◌, if◌then◌else◌}
use nspire_utils.Word.{shl32, any_bit}
use nspire_utils.Device.{Bus, Io, pure, ◌>>◌}
use nspire_utils.Vic.{Pl190InterruptType, irq, fiq}
use nspire_utils.Vic.State.{VicState, at}
use nspire_utils.Vic.Editor.{
  VicEditor, set_interrupt_types, enable_interrupts, disable_interrupts, set_software_interrupts,
  clear_software_interrupts, set_state, clear, set_interrupt_type, get_interrupt_type,
  enable_interrupt, disable_interrupt, is_interrupt_enabled, set_software_interrupt,
  clear_software_interrupt, get_software_interrupt, set_protection, is_protected,
  set_default_vector_address, get_default_vector_address, set_vector_address, get_vector_address,
  set_vector_control, get_vector_control,
}

-- The calls that change the controller, with their arguments.
pub data VicCall : Type 0 where
  typing : (number : ℕ) → Pl190InterruptType → VicCall
  enabling disabling raising dropping : (number : ℕ) → VicCall
  protecting : Bool → VicCall
  defaulting : (address : ℕ) → VicCall
  addressing controlling : (index value : ℕ) → VicCall
  typing_all enabling_all disabling_all raising_all dropping_all : (bitmask : ℕ) → VicCall
  replacing : VicState → VicCall
  clearing : VicCall

-- One of the 32 interrupts, one of the 16 vectors, or a word.
abbrev pub Fits : VicCall → Type 0
Fits (typing n type) = n < 32
Fits (enabling n) = n < 32
Fits (disabling n) = n < 32
Fits (raising n) = n < 32
Fits (dropping n) = n < 32
Fits (addressing k value) = k < 16
Fits (controlling k value) = k < 16
Fits (disabling_all mask) = mask < 2 ^ 32
Fits (dropping_all mask) = mask < 2 ^ 32
Fits _ = Unit {0}

abbrev pub AllFit : List VicCall → Type 0
AllFit [] = Unit {0}
AllFit (c ∷ cs) = Fits c × AllFit cs

module _ {S : Type 0} (bus : Bus S) (e : VicEditor) where
  unfoldable pub run_call : VicCall → Io S (Unit {0})
  run_call (typing n type) = set_interrupt_type bus e n type
  run_call (enabling n) = enable_interrupt bus e n
  run_call (disabling n) = disable_interrupt bus e n
  run_call (raising n) = set_software_interrupt bus e n
  run_call (dropping n) = clear_software_interrupt bus e n
  run_call (protecting b) = set_protection bus e b
  run_call (defaulting a) = set_default_vector_address bus e a
  run_call (addressing k a) = set_vector_address bus e k a
  run_call (controlling k v) = set_vector_control bus e k v
  run_call (typing_all mask) = set_interrupt_types bus e mask
  run_call (enabling_all mask) = enable_interrupts bus e mask
  run_call (disabling_all mask) = disable_interrupts bus e mask
  run_call (raising_all mask) = set_software_interrupts bus e mask
  run_call (dropping_all mask) = clear_software_interrupts bus e mask
  run_call (replacing state) = set_state bus e state
  run_call clearing = clear bus e

  unfoldable pub run_calls : List VicCall → Io S (Unit {0})
  unfolding run_call
  run_calls [] = pure tt
  run_calls (c ∷ cs) = run_call c >> run_calls cs

-- What the controller shows of one interrupt and one vector.
pub record Shown : Type 0 where
  pub enabled : Bool
  pub raised : Bool
  pub type : Pl190InterruptType
  pub protected : Bool
  pub default_address : ℕ
  pub address : ℕ
  pub control : ℕ

-- The answers of the queries for interrupt `j` and vector `i`.
abbrev pub shown : {S : Type 0} → Bus S → VicEditor → ℕ → ℕ → S → Shown
shown bus e i j s = record {
  enabled = (is_interrupt_enabled bus e j s).0;
  raised = (get_software_interrupt bus e j s).0;
  type = (get_interrupt_type bus e j s).0;
  protected = (is_protected bus e s).0;
  default_address = (get_default_vector_address bus e s).0;
  address = (get_vector_address bus e i s).0;
  control = (get_vector_control bus e i s).0;
}

-- What a call makes of them.
unfoldable pub shown_after : ℕ → ℕ → VicCall → Shown → Shown
shown_after i j (typing n type) v = record v { type = if j == n then type else v.type }
shown_after i j (enabling n) v = record v { enabled = if j == n then true else v.enabled }
shown_after i j (disabling n) v = record v { enabled = if j == n then false else v.enabled }
shown_after i j (raising n) v = record v { raised = if j == n then true else v.raised }
shown_after i j (dropping n) v = record v { raised = if j == n then false else v.raised }
shown_after i j (protecting b) v = record v { protected = b }
shown_after i j (defaulting a) v = record v { default_address = a }
shown_after i j (addressing k a) v = record v { address = if i == k then a else v.address }
shown_after i j (controlling k c) v = record v { control = if i == k then c % 64 else v.control }
shown_after i j (typing_all mask) v = record v {
  type = if any_bit mask (shl32 1 j) then fiq else irq;
}
shown_after i j (enabling_all mask) v = record v {
  enabled = if any_bit mask (shl32 1 j) then true else v.enabled;
}
shown_after i j (disabling_all mask) v = record v {
  enabled = if any_bit mask (shl32 1 j) then false else v.enabled;
}
shown_after i j (raising_all mask) v = record v {
  raised = if any_bit mask (shl32 1 j) then true else v.raised;
}
shown_after i j (dropping_all mask) v = record v {
  raised = if any_bit mask (shl32 1 j) then false else v.raised;
}
shown_after i j (replacing state) v = record {
  enabled = any_bit state.int_enable (shl32 1 j);
  raised = any_bit state.software_ints (shl32 1 j);
  type = if any_bit state.int_select (shl32 1 j) then fiq else irq;
  protected = any_bit state.protect 1;
  default_address = state.default_addr;
  address = at state.vect_addrs i;
  control = at state.vect_controls i % 64;
}
shown_after i j clearing v = record {
  enabled = false;
  raised = false;
  type = irq;
  protected = false;
  default_address = 0;
  address = 0;
  control = 0;
}

unfoldable pub shown_after_all : ℕ → ℕ → List VicCall → Shown → Shown
unfolding shown_after
shown_after_all i j [] v = v
shown_after_all i j (c ∷ cs) v = shown_after_all i j cs (shown_after i j c v)
