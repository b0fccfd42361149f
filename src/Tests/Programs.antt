-- ===== src/Tests/Programs.antt =====
-- The interrupt test program on the growing heap, a controller that is its registers, a timer that keeps
-- nothing and handlers that do nothing.
use nspire_utils.Base.{
  ℕ, ◌%◌, ◌≢◌, ◌+◌, ◌-◌, ◌*◌, ◌/◌, ◌^◌, ◌≤◌, some, true, ◌≡◌, refl, arith, ◌==◌, if◌then◌else◌,
}
use nspire_utils.Machine.{done, write}
use nspire_utils.Alloc.{Platform}
use nspire_utils.Alloc.Block.{Grants}
use nspire_utils.Cpu.{Cpu}
use nspire_utils.Cpu.Banks.{SameMode}
use nspire_utils.Device.{Bus}
use nspire_utils.Vic.Registers.{VicRegs}
use nspire_utils.Interrupted.State.{System, Program, returns, on_vic, ◌>>◌}
use nspire_utils.Interrupted.{
  register_timer, Handlers, page_attributes, map_vectors, main, interrupts, exception_vector_jump,
}
use nspire_utils.Interrupted.Lifetime.{vic_editor, Bootable, Restored, opened, closed}
use nspire_utils.Interrupted.OutOfMemory.{main-leaks_table}
use nspire_utils.Interrupted.Running.{ServesInterrupts, Kept, Kept-refl}
use nspire_utils.Interrupted.Blocks.{Blocks, stack, table, blank, blank-outside, room, layout}
use nspire_utils.Interrupted.SetUp.{
  prepared, prepared-MapsVectors, domain, mmu_editor, coarse_editor,
}
use nspire_utils.Vic.{irq}
use nspire_utils.Vic.Editor.{
  construct, clear, is_interrupt_enabled, get_interrupt_type, get_vector_address,
  get_vector_control,
}
use nspire_utils.Interrupted.OnlyTimer.{registered, register_timer-clear}
use nspire_utils.Interrupted.AddressSpace.{entry, map_vectors-walk}
use nspire_utils.Mmu.Walk.{walk}
use nspire_utils.Mmu.Coarse.PageEntry.{page_mapping}
use nspire_utils.Mmu.Coarse.Fill.{retag}
use nspire_utils.Interrupted.Vectors.{read_virtual, interrupts-vectors}
use nspire_utils.Interrupted.Service.{Irq, handle_irq, timer_isr2}
use nspire_utils.Interrupted.Service.Frame.{timer_isr2-r0}
use nspire_utils.Arm.{decode, ldr_literal}
use nspire_utils.Interrupted.Main.{PutBack, main-PutBack}
use nspire_utils.Tests.{arena, booted}
use nspire_utils.Tests.Devices.{vic, vic-IsPl190, started, started-IsVicState}

abbrev timer : Bus ℕ
timer = record { read = λ a s. (0, s); write = λ a v s. s }

abbrev handlers : Handlers
handlers = record { handle_irq = 0x8000; timer_isr2 = 0x8100 }

abbrev sleep : Program (System ℕ VicRegs ℕ) (Unit {0})
sleep s = returns tt s

abbrev cpu : Cpu
cpu = record { cpsr = 0x60000013; sp = λ mode. mode * 0x1000; spsr = λ mode. mode }

abbrev start : System ℕ VicRegs ℕ
start = record { machine = booted; cpu = cpu; vic = started; timer = 0 }

start-Bootable : Bootable vic start
start-Bootable = record {
  is_pl190 = vic-IsPl190;
  word = omega arith;
  privileged = omega arith;
  holdable = started-IsVicState;
}

-- A heap with one block.
abbrev one_block_heap : Platform ℕ
one_block_heap = record {
  malloc = λ n next. if next == 0x100000 then (next, next + n) else (0, next);
  free = λ ptr next. next;
}

only_grant :
    Grants one_block_heap (2 ^ 12 + 2 ^ 12 + 3) 0x100000 0x100000 (0x100000 + (2 ^ 12 + 2 ^ 12 + 3))
only_grant = record { answer = refl; not_null = omega arith; inside = omega arith }

main-leaks_table_example :
    let s' = closed vic start (record (opened vic start) {
      machine = record booted {
        mem = write booted.mem ((0x100000 + 2 ^ 12 + 3) / 2 ^ 12 * 2 ^ 12 - 4) 0x100000;
        heap = 0x100000 + (2 ^ 12 + 2 ^ 12 + 3);
      };
    }) in
    (main one_block_heap vic timer handlers sleep start ≡ returns 1 s') × Restored vic start s'
main-leaks_table_example =
    main-leaks_table one_block_heap vic timer handlers sleep start start-Bootable only_grant refl

-- The four blocks of the whole run, one behind the other.
abbrev raw_stack : ℕ
raw_stack = 0x100000 + (2 ^ 12 + 2 ^ 12 + 3)

abbrev raw_ttb : ℕ
raw_ttb = raw_stack + (2 ^ 12 + 2 ^ 12 + 3)

abbrev raw_l2 : ℕ
raw_l2 = raw_ttb + (2 ^ 14 + 2 ^ 14 + 3)

abbrev heap_end : ℕ
heap_end = raw_l2 + (2 ^ 10 + 2 ^ 10 + 3)

grant : (n next : ℕ) → 1 ≤ next → next + n ≤ 2 ^ 32 → Grants arena n next next (next + n)
grant n next low fits = record { answer = refl; not_null = omega arith; inside = fits }

four_blocks :
    Blocks arena booted 0x100000 raw_stack raw_ttb raw_l2 raw_stack raw_ttb raw_l2 heap_end
four_blocks = record {
  word = omega arith;
  table_grant = grant _ _ (omega arith) (omega arith);
  stack_grant = grant _ _ (omega arith) (omega arith);
  ttb_grant = grant _ _ (omega arith) (omega arith);
  l2_grant = grant _ _ (omega arith) (omega arith);
  table_high = omega arith;
  ttb_high = omega arith;
  l2_high = omega arith;
  old_table = omega arith;
  old_stack = omega arith;
  old_ttb = omega arith;
  table_stack = omega arith;
  table_ttb = omega arith;
  table_l2 = omega arith;
  stack_ttb = omega arith;
  stack_l2 = omega arith;
  ttb_l2 = omega arith;
  entry_word = omega arith;
  entry_kind = omega arith;
}

sleep-ServesInterrupts : ServesInterrupts (stack arena booted four_blocks) sleep
sleep-ServesInterrupts = record {
  served = λ s. s;
  comes_back = λ s. refl;
  keeps = λ s. Kept-refl s.machine;
  word = λ s h. h;
  same_mode = λ s. refl;
}

main-PutBack_example :
    (s' : System ℕ VicRegs ℕ) × (main arena vic timer handlers sleep start ≡ returns 0 s')
    × PutBack arena vic 0x100000 raw_stack raw_ttb raw_l2 heap_end 0x4000 start s'
main-PutBack_example =
    main-PutBack arena vic timer handlers sleep start start-Bootable four_blocks
      sleep-ServesInterrupts 0x4000 (omega arith) (omega arith) (omega arith) (omega arith)

-- The set-up done on the four blocks, and the program run on it.
abbrev mapped : System ℕ VicRegs ℕ
mapped = record start {
  machine = prepared arena (blank arena booted four_blocks) (room arena booted four_blocks);
}

interrupts-vectors_example :
    (s' : System ℕ VicRegs ℕ) × (interrupts vic timer handlers sleep (vic_editor vic start) mapped
      ≡ returns tt s')
    × Kept
        (table arena booted four_blocks)
        (2 ^ 12)
        (stack arena booted four_blocks)
        (2 ^ 12)
        mapped.machine
        s'.machine
    × SameMode mapped.cpu s'.cpu
    × (read_virtual 0xffff0018 s'.machine ≡ done exception_vector_jump s'.machine)
    × (decode exception_vector_jump ≡ some (ldr_literal true 15 0xf8))
    × (read_virtual (0xffff0018 + 8 + 0xf8) s'.machine ≡ done 0x8000 s'.machine)
interrupts-vectors_example =
    interrupts-vectors vic timer handlers sleep (layout arena booted four_blocks)
      sleep-ServesInterrupts (vic_editor vic start) mapped
      (prepared-MapsVectors arena (blank arena booted four_blocks) (room arena booted four_blocks))
      (omega arith)

-- The last megabyte is a section.
last_entry :
    entry arena
        (blank arena booted four_blocks)
        (room arena booted four_blocks)
        0xffff0018
        (omega arith)
      % 4
    ≢ 1
last_entry =
    let kept =
      blank-outside arena booted four_blocks (0x4000 + 4 * 0xfff) (omega arith) (omega arith) in
    λ e. omega (arith, kept)

-- The address of the IRQ vector after the set-up on the emptied block.
map_vectors-walk_example :
    let emptied = blank arena booted four_blocks in
    let roomy = room arena booted four_blocks in
    let m' = prepared arena emptied roomy in
    let d = domain arena emptied roomy % 16 in
    (map_vectors arena (table arena booted four_blocks) (record start { machine = emptied })
      ≡ returns
          (mmu_editor arena emptied roomy, coarse_editor arena emptied roomy)
          (record start { machine = m' }))
    × (walk m'.mem m'.ttbr0 0xffff0018 ≡ (
        if 0xffff0018 / 2 ^ 12 == 0xffff0
        then some (
            page_mapping
              (table arena booted four_blocks + 0xffff0018 % 2 ^ 12)
              (0xffff0018 / 2 ^ 10 % 4)
              page_attributes
              d)
        else if 0xffff0018 / 2 ^ 20 == 0xfff
        then retag d (walk emptied.mem emptied.ttbr0 0xffff0018)
        else walk emptied.mem emptied.ttbr0 0xffff0018))
map_vectors-walk_example =
    map_vectors-walk arena (blank arena booted four_blocks) (room arena booted four_blocks)
      0xffff0018 (omega arith) (λ c. absurd (last_entry c)) (λ c. absurd (last_entry c))
      (record start { machine = blank arena booted four_blocks }) refl

-- An interrupt at address 0x1234, with a handler that does nothing.
abbrev interrupted : Irq VicRegs
interrupted = record {
  regs = λ r. if r == 13 then 0x2000 else if r == 14 then 0x1238 else r + 7;
  cpsr = 0x60000092;
  spsr = 0x60000013;
  mem = λ a. a;
  vic = started;
}

timer_isr2-r0_example :
    let irq = handle_irq vic interrupted in
    let after = timer_isr2 vic (λ e. e) 0x9000 irq.1 in
    (irq.0 ≡ (vic.read 0xdc000030 started).0)
    × (after.0 ≡ 0x1234)
    × (after.1.cpsr ≡ 0x60000013)
    × (after.1.regs 13 ≡ 0x2000)
    × (after.1.regs 4 ≡ 11)
    × (after.1.mem 0x2000 ≡ 0x2000)
    × (after.1.regs 0 ≡ 0xdc000000)
unfolding handle_irq write
timer_isr2-r0_example =
    timer_isr2-r0 vic (λ e. e) 0x9000 4 0x2000 interrupted (omega arith) (omega arith) (omega arith)
      (omega arith) (record { same_sp = refl; above = λ x le. refl })

-- Interrupt 8 and vector 0.
register_timer-clear_example :
    let e = vic_editor vic start in
    ((on_vic (clear vic e) >> register_timer vic handlers e) start
      ≡ returns tt (record start { vic = registered vic handlers e started }))
    × ((is_interrupt_enabled vic e 8 (registered vic handlers e started)).0 ≡ (8 == 18))
    × ((get_interrupt_type vic e 8 (registered vic handlers e started)).0 ≡ irq)
    × ((get_vector_address vic e 0 (registered vic handlers e started)).0 ≡ 0x8100)
    × ((get_vector_control vic e 0 (registered vic handlers e started)).0 ≡ 0x32)
unfolding construct
register_timer-clear_example =
    register_timer-clear vic handlers (vic_editor vic start) vic-IsPl190 0 8 (omega arith)
      (omega arith) start
