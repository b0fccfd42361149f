-- ===== src/Vic/Restore.antt =====
-- Saving and restoring the controller on a device: what `RestorePL190State` leaves, and that nothing of
-- the state before it shows through.
use nspire_utils.Base.{
  ℕ, zero, suc, ◌+◌, ◌-◌, ◌*◌, ◌/◌, ◌%◌, ◌≤◌, ◌<◌, true, ◌≡◌, ◌≢◌, refl, ap, ◌∙◌, arith,
}
use nspire_utils.Device.{Bus}
use nspire_utils.Vic.State.{VicState, at, save_tables, save_state, restore_tables, restore_state}
use nspire_utils.Vic.Editor.{construct, destroy, get_current_state}
use nspire_utils.Vic.Registers.{VicRegs, reg_write, reg_read, IsPl190, put, holds_value}
use nspire_utils.Vic.Saved.{
  tables_of, state_of, with_tables, restored, IsVicState, state_of-restored,
}

pub addr_offset :
    (i : ℕ) (r : VicRegs)
    → i < 16
    → (holds_value (0x100 + i * 4) ≡ true) × (reg_read (0x100 + i * 4) r ≡ r.addrs i)
unfolding reg_read
addr_offset i r h =
    let index : (0x100 + i * 4 - 0x100) / 4 ≡ i = omega arith in (ground arith, ground arith)

pub control_offset :
    (i : ℕ) (r : VicRegs)
    → i < 16
    → (holds_value (0x200 + i * 4) ≡ true) × (reg_read (0x200 + i * 4) r ≡ r.controls i)
unfolding reg_read
control_offset i r h =
    let index : (0x200 + i * 4 - 0x200) / 4 ≡ i = omega arith in (ground arith, ground arith)

pub write_addr :
    (i v : ℕ) (r : VicRegs)
    → i < 16
    → reg_write (0x100 + i * 4) v r ≡ record r { addrs = put r.addrs i v }
unfolding reg_write
write_addr i v r h = let index : (0x100 + i * 4 - 0x100) / 4 ≡ i = omega arith in ground arith

pub write_control :
    (i v : ℕ) (r : VicRegs)
    → i < 16
    → reg_write (0x200 + i * 4) v r ≡ record r { controls = put r.controls i (v % 64) }
unfolding reg_write
write_control i v r h = let index : (0x200 + i * 4 - 0x200) / 4 ≡ i = omega arith in ground arith

module _ {S : Type 0} (bus : Bus S) (base : ℕ) (is : IsPl190 bus base) where
  open is use {regs, regs_write, read_value, read_quiet}

  -- One read at offset `o`, and one write.
  pub read_lem :
      (o : ℕ) {a : ℕ} (s : S) (r : VicRegs)
      → base + o ≡ a
      → holds_value o ≡ true
      → o ≢ 0x30
      → regs s ≡ r
      → ((bus.read a s).0 ≡ reg_read o r) × (regs (bus.read a s).1 ≡ r)
  read_lem o s r at_o holds quiet e =
      rw (← at_o) (read_value o s holds ∙ ap (reg_read o) e, read_quiet o s quiet ∙ e)

  pub write_lem :
      (o v : ℕ) {a : ℕ} (s : S) {r : VicRegs}
      → base + o ≡ a
      → regs s ≡ r
      → regs (bus.write a v s) ≡ reg_write o v r
  write_lem o v s at_o e = rw (← at_o) (regs_write o v s ∙ ap (reg_write o v) e)

  save_tables_lem :
      (n i : ℕ) (s : S) (r : VicRegs)
      → i + n ≤ 16
      → regs s ≡ r
      → ((save_tables bus base n i s).0 ≡ tables_of n i r)
        × (regs (save_tables bus base n i s).1 ≡ r)
  unfolding save_tables tables_of
  save_tables_lem zero i s r h e = (refl, e)
  save_tables_lem (suc n) i s r h e =
      let (addr_holds, addr_value) = addr_offset i r (omega arith) in
      let (control_holds, control_value) = control_offset i r (omega arith) in
      let s₁ = (bus.read (base + 0x100 + i * 4) s).1 in
      let s₂ = (bus.read (base + 0x200 + i * 4) s₁).1 in
      let (v₁, e₁) = read_lem (0x100 + i * 4) s r (omega arith) addr_holds (omega arith) e in
      let (v₂, e₂) = read_lem (0x200 + i * 4) s₁ r (omega arith) control_holds (omega arith) e₁ in
      let (rest, e₃) = save_tables_lem n (i + 1) s₂ r (omega arith) e₂ in
      (rw (v₁, addr_value, v₂, control_value, rest), e₃)

  pub save_state_lem :
      (s : S)
      → ((save_state bus base s).0 ≡ state_of (regs s)) × (regs (save_state bus base s).1 ≡ regs s)
  unfolding save_state state_of reg_read
  save_state_lem s =
      let r = regs s in
      let s₁ = (bus.read (base + 0x0c) s).1 in
      let s₂ = (bus.read (base + 0x10) s₁).1 in
      let s₃ = (bus.read (base + 0x18) s₂).1 in
      let s₄ = (bus.read (base + 0x20) s₃).1 in
      let s₅ = (bus.read (base + 0x34) s₄).1 in
      let (v₁, e₁) = read_lem 0x0c s r refl refl (omega arith) refl in
      let (v₂, e₂) = read_lem 0x10 s₁ r refl refl (omega arith) e₁ in
      let (v₃, e₃) = read_lem 0x18 s₂ r refl refl (omega arith) e₂ in
      let (v₄, e₄) = read_lem 0x20 s₃ r refl refl (omega arith) e₃ in
      let (v₅, e₅) = read_lem 0x34 s₄ r refl refl (omega arith) e₄ in
      let (tables, e₆) = save_tables_lem 16 0 s₅ r (omega arith) e₅ in
      (rw (v₁, v₂, v₃, v₄, v₅, tables), e₆)

  restore_tables_lem :
      (n i : ℕ) (state : VicState) (s : S) (r : VicRegs)
      → i + n ≤ 16
      → regs s ≡ r
      → regs (restore_tables bus base n i state s).1 ≡ with_tables n i state r
  unfolding restore_tables with_tables
  restore_tables_lem zero i state s r h e = e
  restore_tables_lem (suc n) i state s r h e =
      let s₁ = bus.write (base + 0x100 + i * 4) (at state.vect_addrs i) s in
      let s₂ = bus.write (base + 0x200 + i * 4) (at state.vect_controls i) s₁ in
      let r₁ = record r { addrs = put r.addrs i (at state.vect_addrs i) } in
      let e₁ : regs s₁ ≡ r₁ =
        write_lem (0x100 + i * 4) (at state.vect_addrs i) s (omega arith) e
        ∙ write_addr i (at state.vect_addrs i) r (omega arith) in
      let e₂ : regs s₂ ≡ record r₁ { controls = put r.controls i (at state.vect_controls i % 64) } =
        write_lem (0x200 + i * 4) (at state.vect_controls i) s₁ (omega arith) e₁
        ∙ write_control i (at state.vect_controls i) r₁ (omega arith) in
      restore_tables_lem n (i + 1) state s₂ _ (omega arith) e₂

  -- The registers after a restore, from those before it.
  pub restore_state_lem :
      (state : VicState) (s : S) → regs (restore_state bus base state s).1 ≡ restored state (regs s)
  unfolding restore_state restored reg_write
  restore_state_lem state s =
      let s₁ = bus.write (base + 0x14) 0xffffffff s in
      let s₂ = bus.write (base + 0x1c) 0xffffffff s₁ in
      let s₃ = bus.write (base + 0x30) 0 s₂ in
      let s₄ = bus.write (base + 0x0c) state.int_select s₃ in
      let s₅ = bus.write (base + 0x20) state.protect s₄ in
      let s₆ = bus.write (base + 0x34) state.default_addr s₅ in
      let s₇ = (restore_tables bus base 16 0 state s₆).1 in
      let s₈ = bus.write (base + 0x18) state.software_ints s₇ in
      let e₁ = write_lem 0x14 0xffffffff s refl refl in
      let e₂ = write_lem 0x1c 0xffffffff s₁ refl e₁ in
      let e₃ = write_lem 0x30 0 s₂ refl e₂ in
      let e₄ = write_lem 0x0c state.int_select s₃ refl e₃ in
      let e₅ = write_lem 0x20 state.protect s₄ refl e₄ in
      let e₆ = write_lem 0x34 state.default_addr s₅ refl e₅ in
      let e₇ = restore_tables_lem 16 0 state s₆ _ (omega arith) e₆ in
      let e₈ = write_lem 0x18 state.software_ints s₇ refl e₇ in
      write_lem 0x10 state.int_enable s₈ refl e₈

module _ {S : Type 0} (bus : Bus S) (base : ℕ) (is : IsPl190 bus base) where
  -- On a PL190, whatever it held before, a saved state that the controller can hold (both
  -- tables full, one protection bit, six-bit vector controls) is what `SavePL190State` reads after
  -- `RestorePL190State` wrote it: nothing of the earlier enables or software interrupts is left.
  pub save_state-restore_state :
      (state : VicState) (s : S)
      → IsVicState state
      → (save_state bus base (restore_state bus base state s).1).0 ≡ state
  save_state-restore_state state s v =
      (save_state_lem bus base is (restore_state bus base state s).1).0
      ∙ ap state_of (restore_state_lem bus base is state s)
      ∙ state_of-restored state (is.regs s) v

  -- The destructor of `PL190VIC_Editor` undoes everything: with whatever state the device is in by
  -- then, the state that it reads back afterwards is the one that the constructor found.
  pub vic_destroy-construct :
      (s s' : S)
      → IsVicState (save_state bus base s).0
      → let e = (construct bus base s).0 in
        (get_current_state bus e (destroy bus e s').1).0 ≡ (save_state bus base s).0
  unfolding construct destroy get_current_state
  vic_destroy-construct s s' v = save_state-restore_state (save_state bus base s).0 s' v
