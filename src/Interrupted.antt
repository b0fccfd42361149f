-- ===== src/Interrupted.antt =====
-- tests/interrupted/main.cpp: the program that moves the exception vectors to a block of its own and takes
-- timer interrupts there, with every part of the library behind it. The console is left out.
pub mod State
pub mod Lifetime
pub mod AddressSpace
pub mod OnlyTimer
pub mod Service
pub mod Blocks
pub mod Main
pub mod CleanUp
pub mod Vectors
pub mod Running
pub mod SetUp
pub mod Page
pub mod OutOfMemory
use nspire_utils.Base.{ℕ, zero, suc, ◌+◌, bit_or, ◌==◌, if◌then◌else◌}
use nspire_utils.Word.{add32}
use nspire_utils.Machine.{Machine, Exception, Outcome, done, throw, hang, M, memset_zero, store}
use nspire_utils.Machine
use nspire_utils.Caches.{flush_data_cache_range, drain_writes, invalidate_both_caches}
use nspire_utils.Alloc.{Platform, nullptr, aligned_alloc, aligned_free}
use nspire_utils.Mmu.Descriptor.{
  full_access, l2_entire_page_access_permissions, non_cached_non_buffered, cache_bits,
  domain_from_entry,
}
use nspire_utils.Mmu.Editor as L1
use nspire_utils.Mmu.Editor.{MmuEditor, get_entry}
use nspire_utils.Mmu.Coarse as L2
use nspire_utils.Mmu.Coarse.{CoarseEditor, map_4kb_page}
use nspire_utils.Evt
use nspire_utils.Evt.{high, low, position_base, vector_offset, vector_address, set_evt_position}
use nspire_utils.Cpu as Processor
use nspire_utils.Cpu.{
  Cpu, take_checkpoint, leave_checkpoint, set_banked_sp, irq_save, irq_enable, irq_restore,
}
use nspire_utils.Device.{Bus, Io}
use nspire_utils.Vic.{pl190_base_address, source_number, first_timer}
use nspire_utils.Vic.Offset.{vect_control_enabled_bit}
use nspire_utils.Vic.Editor as Controller
use nspire_utils.Vic.Editor.{
  VicEditor, clear, set_vector_control, set_vector_address, enable_interrupt, disable_interrupt,
}
use nspire_utils.Timer.Flags.{
  control_flag, wrapping, bits32, div1, int_enable, int_disable, periodic, enable, disable,
  speed_value, mhz12,
}
use nspire_utils.Timer.Sp804.{
  timer1, clear_interrupt, set_control, get_control, set_speed, set_load_reg,
  set_background_load_reg,
}
use nspire_utils.Sram.{translate}
use nspire_utils.Interrupted.State.{
  System, Program, ◌>>=◌, ◌>>◌, pure, on_machine, on_cpu, on_vic, on_timer,
}

-- The addresses of `handleIRQ` and `Timer_ISR2`, which the linker chooses.
pub record Handlers : Type 0 where
  pub handle_irq : ℕ
  pub timer_isr2 : ℕ

-- `exception_vector_jump[0]`, that is `ldr pc, [pc, #0x0F8]`.
abbrev pub exception_vector_jump : ℕ
exception_vector_jump = 0xe59ff0f8

abbrev pub timer1_base_address : ℕ
timer1_base_address = 0x900c0000

-- `vectorTableAlignment` and `irqStackAlignment`, which are the sizes too.
abbrev pub block_size : ℕ
block_size = 0x1000

-- A store to an address that the MMU translates.
pub store_virtual : {H : Type 0} → ℕ → ℕ → M H (Unit {0})
store_virtual va v = Machine.◌>>=◌ (translate va) (λ pa. store pa v)

abbrev set_up_flags : ℕ
set_up_flags =
    bit_or
      (bit_or
        (bit_or (bit_or (bit_or (control_flag wrapping) (control_flag bits32)) (control_flag div1))
          (control_flag int_enable))
        (control_flag periodic))
      (control_flag disable)

module _ {H V T : Type 0} (handlers : Handlers) where
  -- The stores to the vectors at the start of `interrupts`, the second of them that of `SetEVTValue`, at
  -- addresses that the MMU translates.
  pub set_vectors : Program (System H V T) (Unit {0})
  unfolding store_virtual
  set_vectors =
      on_machine
        (store_virtual (position_base high + 0x100 + vector_offset Evt.irq) handlers.handle_irq)
      >> on_machine (store_virtual (vector_address Evt.irq high) exception_vector_jump)

module _ {H V T : Type 0} (timer_bus : Bus T) where
  pub start_timer : Program (System H V T) (Unit {0})
  start_timer = do
    on_timer (clear_interrupt timer_bus timer1_base_address timer1)
    on_timer (set_control timer_bus timer1_base_address timer1 set_up_flags)
    on_timer (set_speed timer_bus timer1_base_address (speed_value mhz12))
    on_timer (set_load_reg timer_bus timer1_base_address timer1 12000000)
    on_timer (set_background_load_reg timer_bus timer1_base_address timer1 12000000)
    flags ← on_timer (get_control timer_bus timer1_base_address timer1)
    on_timer (set_control timer_bus timer1_base_address timer1 (bit_or flags (control_flag enable)))

  -- `HandleTimer1`
  unfoldable handle_timer1 : Program (System H V T) (Unit {0})
  handle_timer1 = on_timer (clear_interrupt timer_bus timer1_base_address timer1)

module _ {H V T : Type 0} (vic_bus : Bus V) (handlers : Handlers) where
  pub register_timer : VicEditor → Program (System H V T) (Unit {0})
  register_timer e = do
    on_vic (
        set_vector_control vic_bus e 0
          (bit_or vect_control_enabled_bit (source_number first_timer)))
    on_vic (set_vector_address vic_bus e 0 handlers.timer_isr2)
    on_vic (enable_interrupt vic_bus e (source_number first_timer))

module _ {H V T : Type 0} (wait_for_interrupt : Program (System H V T) (Unit {0})) where
  -- `while (i < 5)` from `n` rounds before its end.
  pub wait_rounds : ℕ → Program (System H V T) (Unit {0})
  wait_rounds zero = pure tt
  wait_rounds (suc n) = wait_for_interrupt >> wait_rounds n

  -- The loop and the critical section around it.
  pub take_interrupts : Program (System H V T) (Unit {0})
  take_interrupts = do
    irq_state ← on_cpu (λ c. (irq_save c, c))
    on_cpu (λ c. (tt, irq_enable c))
    wait_rounds 5
    on_cpu (λ c. (tt, irq_restore irq_state c))

module _ {H V T : Type 0} (vic_bus : Bus V) (timer_bus : Bus T) (handlers : Handlers)
    (wait_for_interrupt : Program (System H V T) (Unit {0})) where
  pub interrupts : VicEditor → Program (System H V T) (Unit {0})
  interrupts e = do
    set_vectors handlers
    start_timer timer_bus
    register_timer vic_bus handlers e
    on_machine (flush_data_cache_range (position_base high) (position_base high + 0x1000))
    on_machine drain_writes
    on_machine invalidate_both_caches
    take_interrupts wait_for_interrupt
    on_vic (disable_interrupt vic_bus e (source_number first_timer))
    on_timer (
        set_control timer_bus timer1_base_address timer1
          (bit_or (control_flag disable) (control_flag int_disable)))

-- `Map4KBPage(0xFFFF0000, newVectorTable, ...)`
abbrev pub page_attributes : ℕ
page_attributes =
    bit_or (l2_entire_page_access_permissions full_access) (cache_bits non_cached_non_buffered)

module _ {H V T : Type 0} (p : Platform H) where
  -- The steps 4 and 5 of `main`, which construct the editors, and its end, which destroys them in the
  -- reverse order.
  pub map_vectors : ℕ → Program (System H V T) (MmuEditor × CoarseEditor)
  map_vectors table = do
    mmu_editor ← on_machine (L1.construct p)
    entry ← on_machine (get_entry mmu_editor 0)
    coarse_editor ←
        on_machine (L2.construct p mmu_editor (position_base high) (domain_from_entry entry))
    on_machine (map_4kb_page coarse_editor (position_base high) table page_attributes)
    on_machine (set_evt_position high)
    pure (mmu_editor, coarse_editor)

  pub clean_up : ℕ → ℕ → MmuEditor × CoarseEditor → Program (System H V T) ℕ
  clean_up table stack editors = do
    on_machine (set_evt_position low)
    on_machine (aligned_free p table)
    on_machine (aligned_free p stack)
    closed ← on_machine (L2.destroy p editors.0 editors.1)
    gone ← on_machine (L1.destroy p editors.0)
    pure 0

module _ {H V T : Type 0} (p : Platform H) (vic_bus : Bus V) (timer_bus : Bus T)
    (handlers : Handlers) (wait_for_interrupt : Program (System H V T) (Unit {0})) where
  -- `main` behind both allocations, to the end of the editors' lives.
  pub with_blocks : VicEditor → ℕ → ℕ → Program (System H V T) ℕ
  unfolding map_vectors clean_up
  with_blocks vic_editor table stack = do
    on_cpu (λ c. (tt, set_banked_sp Processor.irq (stack + block_size) c))
    on_machine (memset_zero table block_size)
    on_machine (flush_data_cache_range table (add32 table block_size))
    on_machine drain_writes
    editors ← map_vectors p table
    interrupts vic_bus timer_bus handlers wait_for_interrupt vic_editor
    clean_up p table stack editors

  pub with_stack : VicEditor → ℕ → ℕ → Program (System H V T) ℕ
  unfolding with_blocks
  with_stack vic_editor table stack =
      if stack == nullptr then pure 1 else with_blocks vic_editor table stack

  pub with_table : VicEditor → ℕ → Program (System H V T) ℕ
  unfolding with_stack
  with_table vic_editor table =
      if table == nullptr
      then pure 1
      else (on_machine (aligned_alloc p block_size block_size) >>= with_stack vic_editor table)

  -- `main`. The editor of the controller and the checkpoint of the processor are destroyed last.
  pub main : Program (System H V T) ℕ
  unfolding with_table
  main = do
    checkpoint ← on_cpu take_checkpoint
    vic_editor ← on_vic (Controller.construct vic_bus pl190_base_address)
    on_vic (clear vic_bus vic_editor)
    table ← on_machine (aligned_alloc p block_size block_size)
    code ← with_table vic_editor table
    on_vic (Controller.destroy vic_bus vic_editor)
    on_cpu (λ c. (tt, leave_checkpoint checkpoint c))
    pure code
