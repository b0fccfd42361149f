-- ===== src/Tests/Registers.antt =====
-- The exception vectors, and small devices that are their registers.
use nspire_utils.Base.{
  ◌*◌, ℕ, zero, suc, ◌+◌, ◌-◌, ◌%◌, ◌^◌, ◌<◌, Bool, true, false, not, some, List, [], ◌∷◌, ◌≡◌,
  refl, ap, arith, ◌==◌, if◌then◌else◌, ◌||◌,
}
use nspire_utils.Word.{any_bit, shl32}
use nspire_utils.Machine.{done, ◌>>◌}
use nspire_utils.Evt.{high, with_position, set_evt_position, get_evt_position}
use nspire_utils.Evt.Vectors.{get_evt_position-set_evt_position}
use nspire_utils.Device.{Bus, polled}
use nspire_utils.Watchdog.{watchdog_lock_key, load_counter, loaded_value, lock, unlock, is_locked}
use nspire_utils.Watchdog.Lock.{IsSp805, lock-unlock}
use nspire_utils.Sha256.{is_busy, initialize, write_block, read_block}
use nspire_utils.Sha256.Transfer.{HoldsBlock, begun, initialize-idle, read_block-write_block}
use nspire_utils.Timer.Sp804.{
  get_selected_timer_offset, timer_load_offset, timer_control_offset, timer_bg_load_offset,
  SelectedTimer, timer1, timer2,
}
use nspire_utils.Timer.Independent.{same_timer, IsSp804}
use nspire_utils.Cpu.{Cpu, CpuState, save_cpu_state, restore_cpu_state}
use nspire_utils.Cpu.Banks.{save_cpu_state-restore_cpu_state}
use nspire_utils.Tests.{booted}

get_evt_position-set_evt_position_example :
    ((set_evt_position high >> get_evt_position) booted
      ≡ done high (record booted { sctlr = with_position high 0 }))
    × (any_bit (with_position high 0) (shl32 1 12) ≡ any_bit 0 (shl32 1 12))
get_evt_position-set_evt_position_example =
    get_evt_position-set_evt_position high booted 12 (omega arith) (omega arith)

-- A watchdog: whether it is closed, and its load register.
record Dog : Type 0 where
  shut : Bool
  count : ℕ

abbrev dog : Bus Dog
dog = record {
  read = λ a d. (if a == 0xc00 then if d.shut then 1 else 0 else d.count, d);
  write = λ a v d.
      if a == 0xc00
      then record d { shut = not (v == watchdog_lock_key) }
      else if d.shut
      then d
      else record d { count = v };
}

dog-IsSp805 : IsSp805 dog 0
dog-IsSp805 = record {
  closed = λ d. d.shut;
  loaded = λ d. d.count;
  closed_lock = λ v s. refl;
  loaded_lock = λ v s. refl;
  read_lock = λ s. refl;
  loaded_load = λ v s. kept s.shut v s;
  read_load = λ s. refl;
}
  where
    kept :
        (b : Bool) (v : ℕ) (s : Dog)
        → (if b then s else record s { count = v }).count ≡ (if b then s.count else v)
    kept true v s = refl
    kept false v s = refl

abbrev resting : Dog
resting = record { shut = true; count = 7 }

lock-unlock_example :
    ((is_locked dog 0 (lock dog 0 resting).1).0 ≡ false)
    × ((loaded_value dog 0 (load_counter dog 0 9 (lock dog 0 resting).1).1).0 ≡ 9)
    × ((is_locked dog 0 (unlock dog 0 resting).1).0 ≡ true)
    × ((loaded_value dog 0 (load_counter dog 0 9 (unlock dog 0 resting).1).1).0
        ≡ (loaded_value dog 0 resting).0)
lock-unlock_example = lock-unlock dog 0 dog-IsSp805 resting 9

-- A hash device that is busy for two polls after a command; its state is the number of polls left.
abbrev hashing : Bus ℕ
hashing = record {
  read = λ a n. (if n == 0 then 0 else 1, n - 1);
  write = λ a v n. if v == 0x10 then 2 else n;
}

busy_twice :
    (i : ℕ) → i < 2 → (is_busy hashing hashing 0 (polled (is_busy hashing hashing 0) i 2)).0 ≡ true
unfolding is_busy polled
busy_twice zero h = refl
busy_twice (suc zero) h = refl
busy_twice (suc (suc i)) h = absurd (omega arith)

idle_third : (is_busy hashing hashing 0 (polled (is_busy hashing hashing 0) 2 2)).0 ≡ false
unfolding is_busy polled
idle_third = refl

initialize-idle_example :
    initialize hashing hashing 0 3 0
    ≡ some
        (hashing.write 0 0 (polled (is_busy hashing hashing 0) (suc 2) (begun hashing hashing 0 0)))
initialize-idle_example =
    initialize-idle hashing hashing 0 2 3 0 (omega arith) busy_twice idle_third

abbrev bytes : Bus (ℕ → ℕ)
bytes = record {
  read = λ a f. (f (a - 0x10), f);
  write = λ a v f. λ j. if j == a - 0x10 then v else f j;
}

bytes-HoldsBlock : HoldsBlock bytes 0
bytes-HoldsBlock = record {
  block = λ f. f;
  block_write = λ i j v s hi hj. ap (λ x. if j == x then v else s j) (omega arith);
  read_value = λ i s h. ap s (omega arith);
  read_quiet = λ i s. refl;
}

abbrev counted : ℕ → List ℕ
counted zero = []
counted (suc n) = n ∷ counted n

read_block-write_block_example :
    (read_block bytes bytes 0 (write_block bytes bytes 0 (counted 64) (λ i. 0))).0 ≡ counted 64
read_block-write_block_example =
    read_block-write_block bytes bytes 0 bytes-HoldsBlock (counted 64) (λ i. 0) refl

-- An SP804: the reload value and the control register of both timers.
record Timers : Type 0 where
  load1 : ℕ
  load2 : ℕ
  control1 : ℕ
  control2 : ℕ

abbrev sp804 : Bus Timers
sp804 = record {
  read = λ a t. (
    if a == 0x00
        then t.load1
        else if a == 0x20
        then t.load2
        else if a == 0x08
        then t.control1
        else t.control2,
    t,
  );
  write = λ a v t.
      if a == 0x00 || a == 0x18
      then record t { load1 = v }
      else if a == 0x20 || a == 0x38
      then record t { load2 = v }
      else if a == 0x08
      then record t { control1 = v % 2 ^ 8 }
      else record t { control2 = v % 2 ^ 8 };
}

abbrev reload_of : SelectedTimer → Timers → ℕ
reload_of timer1 s = s.load1
reload_of timer2 s = s.load2

abbrev control_of : SelectedTimer → Timers → ℕ
control_of timer1 s = s.control1
control_of timer2 s = s.control2

read_load_lem :
    (t : SelectedTimer) (s : Timers)
    → (sp804.read (0 + get_selected_timer_offset t + timer_load_offset) s).0 ≡ reload_of t s
read_load_lem timer1 s = refl
read_load_lem timer2 s = refl

read_control_lem :
    (t : SelectedTimer) (s : Timers)
    → (sp804.read (0 + get_selected_timer_offset t + timer_control_offset) s).0 ≡ control_of t s
read_control_lem timer1 s = refl
read_control_lem timer2 s = refl

load_write_lem :
    (t u : SelectedTimer) (v : ℕ) (s : Timers)
    → (reload_of u (sp804.write (0 + get_selected_timer_offset t + timer_load_offset) v s)
        ≡ (if same_timer u t then v else reload_of u s))
      × (control_of u (sp804.write (0 + get_selected_timer_offset t + timer_load_offset) v s)
          ≡ control_of u s)
load_write_lem timer1 timer1 v s = (refl, refl)
load_write_lem timer1 timer2 v s = (refl, refl)
load_write_lem timer2 timer1 v s = (refl, refl)
load_write_lem timer2 timer2 v s = (refl, refl)

background_write_lem :
    (t u : SelectedTimer) (v : ℕ) (s : Timers)
    → reload_of u (sp804.write (0 + get_selected_timer_offset t + timer_bg_load_offset) v s)
      ≡ (if same_timer u t then v else reload_of u s)
background_write_lem timer1 timer1 v s = refl
background_write_lem timer1 timer2 v s = refl
background_write_lem timer2 timer1 v s = refl
background_write_lem timer2 timer2 v s = refl

control_write_lem :
    (t u : SelectedTimer) (v : ℕ) (s : Timers)
    → (control_of u (sp804.write (0 + get_selected_timer_offset t + timer_control_offset) v s)
        ≡ (if same_timer u t then v % 2 ^ 8 else control_of u s))
      × (reload_of u (sp804.write (0 + get_selected_timer_offset t + timer_control_offset) v s)
          ≡ reload_of u s)
control_write_lem timer1 timer1 v s = (refl, refl)
control_write_lem timer1 timer2 v s = (refl, refl)
control_write_lem timer2 timer1 v s = (refl, refl)
control_write_lem timer2 timer2 v s = (refl, refl)

sp804-IsSp804 : IsSp804 sp804 0
sp804-IsSp804 = record {
  reload = reload_of;
  control = control_of;
  read_load = read_load_lem;
  read_control = read_control_lem;
  load_write = load_write_lem;
  background_write = background_write_lem;
  control_write = control_write_lem;
}

abbrev idle : Timers
idle = record { load1 = 0; load2 = 0; control1 = 0; control2 = 0 }

-- A processor in system mode.
abbrev cpu : Cpu
cpu = record { cpsr = 0x1f; sp = λ mode. mode * 0x1000; spsr = λ mode. 0 }

abbrev saved : CpuState
saved = record {
  cpsr = 0x600000d3;
  sp_irq = 0x100;
  sp_fiq = 0x200;
  spsr_irq = 0x10;
  spsr_fiq = 0x13;
  spsr_svc = 0x1f;
}

save_cpu_state-restore_cpu_state_example :
    (save_cpu_state (restore_cpu_state saved cpu) ≡ (saved, restore_cpu_state saved cpu))
    × ((restore_cpu_state saved cpu).sp 0x17 ≡ cpu.sp 0x17)
    × ((restore_cpu_state saved cpu).spsr 0x17 ≡ cpu.spsr 0x17)
save_cpu_state-restore_cpu_state_example =
    save_cpu_state-restore_cpu_state cpu (omega arith) (omega arith) saved 0x17 (omega arith)
      (omega arith) (omega arith) (omega arith) (omega arith)
