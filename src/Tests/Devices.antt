-- ===== src/Tests/Devices.antt =====
-- A PL190 that is its registers.
use nspire_utils.Base.{ℕ, ap, ◌-◌, ◌<◌, List, [], ◌∷◌, ◌≡◌, refl, arith}
use nspire_utils.Device.{Bus}
use nspire_utils.Vic.{fiq}
use nspire_utils.Vic.State.{VicState, at, save_state, restore_state}
use nspire_utils.Vic.Editor
use nspire_utils.Vic.Editor.{VicEditor}
use nspire_utils.Vic.Registers.{VicRegs, reg_write, reg_read, IsPl190}
use nspire_utils.Vic.Saved.{IsVicState}
use nspire_utils.Vic.Restore.{save_state-restore_state, vic_destroy-construct}
use nspire_utils.Vic.Calls.{
  VicCall, enabling, controlling, typing, disabling_all, replacing, run_calls, shown,
  shown_after_all,
}
use nspire_utils.Vic.Refinement.{shown-run_calls}

abbrev base : ℕ
base = 0xdc000000

abbrev pub vic : Bus VicRegs
vic = record { read = λ a r. (reg_read (a - base) r, r); write = λ a. reg_write (a - base) }

pub vic-IsPl190 : IsPl190 vic base
vic-IsPl190 = record {
  regs = λ r. r;
  regs_write = λ o v s. ap (λ x. reg_write x v s) (omega arith);
  read_value = λ o s h. ap (λ x. reg_read x s) (omega arith);
  read_quiet = λ o s h. refl;
}

abbrev regs : VicRegs
regs = record {
  select = 4;
  enable = 0x80;
  software = 0;
  protect = 0;
  default = 0;
  addrs = λ i. i;
  controls = λ i. 0x20;
}

abbrev some_state : VicState
some_state =
    let table = 0 ∷ 1 ∷ 2 ∷ 3 ∷ 4 ∷ 5 ∷ 6 ∷ 7 ∷ 8 ∷ 9 ∷ 10 ∷ 11 ∷ 12 ∷ 13 ∷ 14 ∷ 15 ∷ [] in
    record {
      int_select = 8;
      int_enable = 3;
      software_ints = 1;
      protect = 1;
      vect_addrs = table;
      vect_controls = table;
      default_addr = 0x1000;
    }

some_state-IsVicState : IsVicState some_state
some_state-IsVicState = record {
  addrs_full = refl;
  controls_full = refl;
  one_bit = omega arith;
  six_bits = λ i h. small i h;
}
  where
    small : (i : ℕ) → i < 16 → at some_state.vect_controls i < 64
    small i h = ground arith

restored_some_state :
    (save_state vic base (restore_state vic base some_state regs).1).0 ≡ some_state
restored_some_state =
    save_state-restore_state vic base vic-IsPl190 some_state regs some_state-IsVicState

-- The state that the controller starts with, once `restore_state` has put it there.
abbrev pub started : VicRegs
started = (restore_state vic base some_state regs).1

pub started-IsVicState : IsVicState (save_state vic base started).0
started-IsVicState = rw restored_some_state some_state-IsVicState

abbrev owner : VicEditor
owner = record { base_address = base; old_state = some_state }

-- Seen from vector 3 and interrupt 5.
abbrev five_calls : List VicCall
five_calls =
    replacing some_state ∷ enabling 5 ∷ controlling 3 0xff ∷ typing 5 fiq ∷ disabling_all 0x40 ∷ []

shown-run_calls_example :
    shown vic owner 3 5 (run_calls vic owner five_calls regs).1
    ≡ shown_after_all 3 5 five_calls (shown vic owner 3 5 regs)
shown-run_calls_example =
    shown-run_calls vic owner vic-IsPl190 3 5 (omega arith) (omega arith) five_calls regs
      (tt, (omega arith, (omega arith, (omega arith, (omega arith, tt)))))

vic_destroy-construct_example :
    (Editor.get_current_state vic
      (Editor.construct vic base started).0
      (Editor.destroy vic (Editor.construct vic base started).0 regs).1).0
    ≡ (save_state vic base started).0
vic_destroy-construct_example =
    vic_destroy-construct vic base vic-IsPl190 started regs started-IsVicState

abbrev editor : VicEditor
editor = record { base_address = base; old_state = some_state }
