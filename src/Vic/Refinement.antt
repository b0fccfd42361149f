-- ===== src/Vic/Refinement.antt =====
-- `PL190VIC_Editor` on a PL190 implements the abstract controller of Vic/Calls.
use nspire_utils.Base.{
  ℕ, ◌+◌, ◌*◌, ◌%◌, ◌<◌, bit_and, bit_or, true, false, not, List, [], ◌∷◌, ◌≡◌, refl, sym, ap, ◌∙◌,
  arith, ◌==◌, if◌then◌else◌,
}
use nspire_utils.Word.{not32, shl32, any_bit}
use nspire_utils.Word.Bit.{test-set, test-clear, test-or, test-and_not}
use nspire_utils.Word.Mask.{bit_and_low}
use nspire_utils.Word.Shift.{zero-bit_and}
use nspire_utils.Device.{Bus}
use nspire_utils.Vic.{irq, fiq}
use nspire_utils.Vic.State.{VicState, at}
use nspire_utils.Vic.Editor.{
  VicEditor, set_interrupt_types, enable_interrupts, disable_interrupts, set_software_interrupts,
  clear_software_interrupts, set_state, clear, cleared_state, select_bit, set_interrupt_type,
  enable_interrupt, disable_interrupt, set_software_interrupt, clear_software_interrupt,
  set_protection, is_protected, set_default_vector_address, get_default_vector_address,
  set_vector_address, set_vector_control,
}
use nspire_utils.Vic.Registers.{VicRegs, reg_write, reg_read, IsPl190, put}
use nspire_utils.Vic.Saved.{
  restored, restored-tables_at, restored-enable, restored-software, with_tables,
}
use nspire_utils.Vic.Restore.{write_lem, write_addr, write_control, restore_state_lem}
use nspire_utils.Vic.Vectors.{get_vector_address_lem, get_vector_control_lem}
use nspire_utils.Vic.Interrupts.{enabled_lem, software_lem, type_lem, select_bit-type}
use nspire_utils.Vic.Calls.{
  VicCall, Fits, AllFit, run_call, run_calls, Shown, shown, shown_after, shown_after_all, typing,
  enabling, disabling, raising, dropping, protecting, defaulting, addressing, controlling,
  typing_all, enabling_all, disabling_all, raising_all, dropping_all, replacing, clearing,
}

-- The same on the registers.
abbrev regs_shown : ℕ → ℕ → VicRegs → Shown
regs_shown i j r = record {
  enabled = any_bit r.enable (shl32 1 j);
  raised = any_bit r.software (shl32 1 j);
  type = if any_bit r.select (shl32 1 j) then fiq else irq;
  protected = any_bit r.protect 1;
  default_address = r.default;
  address = r.addrs i;
  control = r.controls i;
}

abbrev regs_after : VicCall → VicRegs → VicRegs
regs_after (typing n type) r = record r { select = select_bit r.select n type }
regs_after (enabling n) r = record r { enable = bit_or r.enable (shl32 1 n) }
regs_after (disabling n) r = record r { enable = bit_and r.enable (not32 (shl32 1 n)) }
regs_after (raising n) r = record r { software = bit_or r.software (shl32 1 n) }
regs_after (dropping n) r = record r { software = bit_and r.software (not32 (shl32 1 n)) }
regs_after (protecting b) r = record r { protect = (if b then 1 else 0) % 2 }
regs_after (defaulting a) r = record r { default = a }
regs_after (addressing k a) r = record r { addrs = put r.addrs k a }
regs_after (controlling k c) r = record r { controls = put r.controls k (c % 64) }
regs_after (typing_all mask) r = record r { select = mask }
regs_after (enabling_all mask) r = record r { enable = bit_or r.enable mask }
regs_after (disabling_all mask) r = record r { enable = bit_and r.enable (not32 mask) }
regs_after (raising_all mask) r = record r { software = bit_or r.software mask }
regs_after (dropping_all mask) r = record r { software = bit_and r.software (not32 mask) }
regs_after (replacing state) r = restored state r
regs_after clearing r = restored cleared_state r

module _ (i j : ℕ) (i_below : i < 16) (j_below : j < 32) where
  restored-shown :
      (state : VicState) (r : VicRegs) (v : Shown)
      → regs_shown i j (restored state r) ≡ shown_after i j (replacing state) v
  unfolding shown_after restored with_tables
  restored-shown state r v =
      let (addr, control) = restored-tables_at state r i i_below in
      let one : bit_and (state.protect % 2) 1 ≡ bit_and state.protect 1 =
        omega (arith, bit_and_low 1 (state.protect % 2), bit_and_low 1 state.protect) in
      λ x. record {
        enabled = any_bit (restored-enable state r x) (shl32 1 j);
        raised = any_bit (restored-software state r x) (shl32 1 j);
        type = if any_bit state.int_select (shl32 1 j) then fiq else irq;
        protected = not (one x == 0);
        default_address = state.default_addr;
        address = addr x;
        control = control x;
      }

  cleared-shown :
      (v : Shown) → shown_after i j (replacing cleared_state) v ≡ shown_after i j clearing v
  unfolding shown_after
  cleared-shown v =
      let zeros : at cleared_state.vect_addrs i ≡ 0 = ground arith in
      rw (zero-bit_and (shl32 1 j), zeros) refl

  regs_after-shown :
      (c : VicCall) (r : VicRegs)
      → Fits c
      → regs_shown i j (regs_after c r) ≡ shown_after i j c (regs_shown i j r)
  unfolding shown_after
  regs_after-shown (typing n type) r fits =
      ap (λ t. record (regs_shown i j r) { type = t })
        (select_bit-type j n r.select j_below fits type)
  regs_after-shown (enabling n) r fits = rw (test-set j n r.enable j_below fits) refl
  regs_after-shown (disabling n) r fits = rw (test-clear j n r.enable j_below fits) refl
  regs_after-shown (raising n) r fits = rw (test-set j n r.software j_below fits) refl
  regs_after-shown (dropping n) r fits = rw (test-clear j n r.software j_below fits) refl
  regs_after-shown (protecting true) r fits = refl
  regs_after-shown (protecting false) r fits = refl
  regs_after-shown (defaulting a) r fits = refl
  regs_after-shown (addressing k a) r fits = refl
  regs_after-shown (controlling k c) r fits = refl
  regs_after-shown (typing_all mask) r fits = refl
  regs_after-shown (enabling_all mask) r fits = rw (test-or j r.enable mask j_below) refl
  regs_after-shown (disabling_all mask) r fits = rw (test-and_not j r.enable mask j_below fits) refl
  regs_after-shown (raising_all mask) r fits = rw (test-or j r.software mask j_below) refl
  regs_after-shown (dropping_all mask) r fits =
      rw (test-and_not j r.software mask j_below fits) refl
  regs_after-shown (replacing state) r fits = restored-shown state r (regs_shown i j r)
  regs_after-shown clearing r fits =
      restored-shown cleared_state r (regs_shown i j r) ∙ cleared-shown (regs_shown i j r)

module _ {S : Type 0} (bus : Bus S) (e : VicEditor) (is : IsPl190 bus e.base_address) (i j : ℕ)
    (i_below : i < 16) (j_below : j < 32) where
  open is use {regs, regs_write, read_value, read_quiet}

  shown_lem : (s : S) → shown bus e i j s ≡ regs_shown i j (regs s)
  unfolding is_protected get_default_vector_address reg_read
  shown_lem s =
      rw
        (
          enabled_lem bus e is j s,
          software_lem bus e is j s,
          type_lem bus e is j s,
          read_value 0x20 s refl,
          read_value 0x34 s refl,
          get_vector_address_lem bus e is i s i_below,
          get_vector_control_lem bus e is i s i_below,
        )
        refl

  run_call-regs :
      (c : VicCall) (s : S) → Fits c → regs (run_call bus e c s).1 ≡ regs_after c (regs s)
  unfolding run_call set_interrupt_types enable_interrupts disable_interrupts
      set_software_interrupts clear_software_interrupts set_interrupt_type enable_interrupt
      disable_interrupt set_software_interrupt clear_software_interrupt set_protection
      set_default_vector_address set_vector_address set_vector_control set_state clear reg_write
      reg_read
  run_call-regs (typing n type) s fits =
      write_lem bus e.base_address is 0x0c _ _ refl (read_quiet 0x0c s (omega arith))
      ∙ ap (λ v. record (regs s) { select = select_bit v n type }) (read_value 0x0c s refl)
  run_call-regs (enabling n) s fits = regs_write 0x10 (shl32 1 n) s
  run_call-regs (disabling n) s fits = regs_write 0x14 (shl32 1 n) s
  run_call-regs (raising n) s fits = regs_write 0x18 (shl32 1 n) s
  run_call-regs (dropping n) s fits = regs_write 0x1c (shl32 1 n) s
  run_call-regs (protecting b) s fits = regs_write 0x20 (if b then 1 else 0) s
  run_call-regs (defaulting a) s fits = regs_write 0x34 a s
  run_call-regs (addressing k a) s fits =
      write_lem bus e.base_address is (0x100 + k * 4) a s (omega arith) refl
      ∙ write_addr k a (regs s) fits
  run_call-regs (controlling k c) s fits =
      write_lem bus e.base_address is (0x200 + k * 4) c s (omega arith) refl
      ∙ write_control k c (regs s) fits
  run_call-regs (typing_all mask) s fits = regs_write 0x0c mask s
  run_call-regs (enabling_all mask) s fits = regs_write 0x10 mask s
  run_call-regs (disabling_all mask) s fits = regs_write 0x14 mask s
  run_call-regs (raising_all mask) s fits = regs_write 0x18 mask s
  run_call-regs (dropping_all mask) s fits = regs_write 0x1c mask s
  run_call-regs (replacing state) s fits = restore_state_lem bus e.base_address is state s
  run_call-regs clearing s fits = restore_state_lem bus e.base_address is cleared_state s

  run_call-shown :
      (c : VicCall) (s : S)
      → Fits c
      → shown bus e i j (run_call bus e c s).1 ≡ shown_after i j c (shown bus e i j s)
  run_call-shown c s fits =
      shown_lem (run_call bus e c s).1
      ∙ ap (regs_shown i j) (run_call-regs c s fits)
      ∙ regs_after-shown i j i_below j_below c (regs s) fits
      ∙ ap (shown_after i j c) (sym (shown_lem s))

  -- On a PL190 in whatever state, after any sequence of the calls of PL190VIC_Editor that change
  -- it, with numbers of its 32 interrupts and 16 vectors and with 32-bit masks, the queries for
  -- any one interrupt and any one vector answer what the calls, one after the other, make of the
  -- answers before: each call sets what it names, for the interrupts or the vector it names, and
  -- nothing else. A vector control keeps six bits, and replacing and clearing set everything.
  pub shown-run_calls :
      (cs : List VicCall) (s : S)
      → AllFit cs
      → shown bus e i j (run_calls bus e cs s).1 ≡ shown_after_all i j cs (shown bus e i j s)
  unfolding run_calls shown_after_all
  shown-run_calls [] s fit = refl
  shown-run_calls (c ∷ cs) s (fits, rest) =
      shown-run_calls cs (run_call bus e c s).1 rest
      ∙ ap (shown_after_all i j cs) (run_call-shown c s fits)
