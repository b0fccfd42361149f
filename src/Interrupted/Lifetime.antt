-- ===== src/Interrupted/Lifetime.antt =====
-- What `main` of tests/interrupted/main.cpp leaves of the interrupt controller and of the processor, and its
-- two early ends.
use nspire_utils.Base.{sym, ◌∙◌, ◌%◌, ◌≢◌, ℕ, ◌^◌, ◌<◌, ◌≡◌, refl, ap, arith}
use nspire_utils.Machine.{Machine, done}
use nspire_utils.Alloc.{Platform, aligned_alloc}
use nspire_utils.Cpu.{CpuStateCheckpoint, save_cpu_state, take_checkpoint, leave_checkpoint}
use nspire_utils.Cpu.Banks.{SameMode, save_cpu_state_lem, save_cpu_state-restore_cpu_state}
use nspire_utils.Device.{Bus}
use nspire_utils.Vic.{pl190_base_address}
use nspire_utils.Vic.State.{save_state}
use nspire_utils.Vic.Editor.{VicEditor, construct, destroy, clear}
use nspire_utils.Vic.Registers.{IsPl190}
use nspire_utils.Vic.Saved.{IsVicState}
use nspire_utils.Vic.Restore.{save_state-restore_state}
use nspire_utils.Interrupted.State.{System, Program, returns}
use nspire_utils.Interrupted.{Handlers, with_table, main, block_size}

module _ {H V T : Type 0} (vic_bus : Bus V) where
  -- The editor of the controller and the checkpoint that `main` holds from its start on.
  abbrev pub vic_editor : System H V T → VicEditor
  vic_editor s = (construct vic_bus pl190_base_address s.vic).0

  abbrev pub checkpoint : System H V T → CpuStateCheckpoint
  checkpoint s = (take_checkpoint s.cpu).0

  -- The system in which `main` asks for its first block, and the one behind its destructors.
  abbrev pub opened : System H V T → System H V T
  opened s = record s {
    vic = (clear vic_bus (vic_editor s) (construct vic_bus pl190_base_address s.vic).1).1;
    cpu = (take_checkpoint s.cpu).1;
  }

  abbrev pub closed : System H V T → System H V T → System H V T
  closed s s' = record s' {
    vic = (destroy vic_bus (vic_editor s) s'.vic).1;
    cpu = leave_checkpoint (checkpoint s) s'.cpu;
  }

  -- The controller and the processor's saved registers are as `main` found them.
  pub record Restored (s s' : System H V T) : Type 0 where
    pub vic_state :
        (save_state vic_bus pl190_base_address s'.vic).0
        ≡ (save_state vic_bus pl190_base_address s.vic).0
    pub cpu_state : (save_cpu_state s'.cpu).0 ≡ (save_cpu_state s.cpu).0

  -- The system at the start of `main`: a status register of 32 bits, a mode other
  -- than user mode, and a controller that can hold the
  -- state that it is in.
  pub record Bootable (s : System H V T) : Type 0 where
    pub is_pl190 : IsPl190 vic_bus pl190_base_address
    pub word : s.cpu.cpsr < 2 ^ 32
    pub privileged : s.cpu.cpsr % 2 ^ 5 ≢ 0x10
    pub holdable : IsVicState (save_state vic_bus pl190_base_address s.vic).0

  pub closed-Restored :
      (s s' : System H V T) → Bootable s → SameMode s.cpu s'.cpu → Restored s (closed s s')
  unfolding construct destroy take_checkpoint leave_checkpoint
  closed-Restored s s' start fits =
      let found = save_cpu_state_lem s.cpu start.word start.privileged in
      let kept : (save_cpu_state s.cpu).0.cpsr < 2 ^ 32 = rw found start.word in
      let mode : (save_cpu_state s.cpu).0.cpsr % 2 ^ 5 ≢ 0x10 = rw found start.privileged in
      let still : s'.cpu.cpsr % 2 ^ 5 ≢ 0x10 = λ c. start.privileged (sym fits.1 ∙ c) in
      let (again, _, _) =
        save_cpu_state-restore_cpu_state s'.cpu fits.0 still (save_cpu_state s.cpu).0 0x10 kept mode
          (omega arith) (omega arith) (omega arith) in
      record {
        vic_state =
            save_state-restore_state vic_bus pl190_base_address start.is_pl190
              (save_state vic_bus pl190_base_address s.vic).0 s'.vic start.holdable;
        cpu_state = ap (λ r. r.0) again;
      }

  pub opened-cpu : (s : System H V T) → Bootable s → (opened s).cpu ≡ s.cpu
  unfolding take_checkpoint
  opened-cpu s start = ap (λ r. r.1) (save_cpu_state_lem s.cpu start.word start.privileged)

module _ {H V T : Type 0} (p : Platform H) (vic_bus : Bus V) (timer_bus : Bus T)
    (handlers : Handlers) (wait : Program (System H V T) (Unit {0})) where
  -- `main` from the answer of its first allocation and the end of what it does with it.
  pub main_lem :
      (s s' : System H V T) {table code : ℕ} {m : Machine H}
      → aligned_alloc p block_size block_size s.machine ≡ done table m
      → with_table p vic_bus timer_bus handlers wait
          (vic_editor vic_bus s)
          table
          (record (opened vic_bus s) { machine = m })
        ≡ returns code s'
      → main p vic_bus timer_bus handlers wait s ≡ returns code (closed vic_bus s s')
  unfolding main
  main_lem s s' allocated used = rw allocated (rw used refl)
