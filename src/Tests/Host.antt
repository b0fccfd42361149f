-- ===== src/Tests/Host.antt =====
-- A USB controller that counts its polls.
use nspire_utils.Base.{
  ℕ, zero, suc, ◌+◌, ◌-◌, ◌*◌, ◌/◌, ◌^◌, ◌<◌, ◌≤◌, inr, true, false, ◌≡◌, ◌↔◌, refl, arith, ◌==◌,
  if◌then◌else◌,
}
use nspire_utils.Machine.{write, store_range, Machine, done}
use nspire_utils.Alloc.Block.{Grants}
use nspire_utils.Device.{polled, Bus}
use nspire_utils.Usb.{Fotg210, get_command_register, set_command_register, get_status_register}
use nspire_utils.Usb.Reset.{
  request_halt, is_halted, is_reset_done, reset, halt_countdown, reset_countdown,
}
use nspire_utils.Usb.Reset.Outcome
use nspire_utils.Usb.Reset.Outcome.{StopsAt}
use nspire_utils.Usb.Reset.Decision.{StopsWithin, reset_iff}
use nspire_utils.Usb.Structures.{empty_structures, queue_head_image, allocate}
use nspire_utils.Usb.Schedule.{IsHead, allocate-IsHead, allocate_overruns}
use nspire_utils.Tests.{arena, booted}

abbrev controller : Fotg210
controller = record { base_address = 0xb0000000; cap_length = 0x10 }

-- A controller that reports the halt at the fourth read and resets at once; its state is the number
-- of reads.
abbrev counting : Bus ℕ
counting = record {
  read = λ a n. (if a == 0xb0000014 then if n == 3 then 0x1000 else 0 else 0, suc n);
  write = λ a v n. n;
}

halts_third : StopsAt (is_halted counting controller) 2 (Outcome.halting counting controller 0)
unfolding is_halted get_status_register polled request_halt get_command_register
    set_command_register
halts_third = record { waits = waits; stops = refl }
  where
    waits :
        (i : ℕ)
        → i < 2
        → (is_halted counting controller
            (polled (is_halted counting controller) i (Outcome.halting counting controller 0))).0
          ≡ false
    waits zero h = refl
    waits (suc zero) h = refl
    waits (suc (suc i)) h = absurd (omega arith)

resets_first :
    StopsAt (is_reset_done counting controller) 0 (Outcome.resetting counting controller 0 2)
unfolding is_reset_done get_command_register polled
resets_first = record { waits = λ i h. absurd (omega arith); stops = refl }

reset-true_example : reset counting controller 0 ≡ (
  true,
  polled (is_reset_done counting controller) (suc 0) (Outcome.resetting counting controller 0 2),
)
reset-true_example =
    Outcome.reset-true counting controller 0 2 0 (omega arith) (omega arith) halts_third
      resets_first

reset_iff_example : ((reset counting controller 0).0 ≡ true) ↔ (
    (k : ℕ) × (k < halt_countdown)
    × StopsAt (is_halted counting controller) k (Outcome.halting counting controller 0)
    × StopsWithin
        (is_reset_done counting controller)
        reset_countdown
        (Outcome.resetting counting controller 0 k))
reset_iff_example = reset_iff counting controller 0

-- The memory structures on the growing heap.
list_grant :
    Grants arena (2 ^ 12 + 2 ^ 12 + 3) booted.heap 0x100000 (0x100000 + (2 ^ 12 + 2 ^ 12 + 3))
list_grant = record { answer = refl; not_null = omega arith; inside = omega arith }

head_grant :
    Grants arena
      (2 ^ 5 + 2 ^ 5 + 3)
      (0x100000 + (2 ^ 12 + 2 ^ 12 + 3))
      (0x100000 + (2 ^ 12 + 2 ^ 12 + 3))
      (0x100000 + (2 ^ 12 + 2 ^ 12 + 3) + (2 ^ 5 + 2 ^ 5 + 3))
head_grant = record { answer = refl; not_null = omega arith; inside = omega arith }

abbrev next : ℕ
next = 0x100000 + (2 ^ 12 + 2 ^ 12 + 3)

abbrev frames : ℕ
frames = (0x100000 + 2 ^ 12 + 3) / 2 ^ 12 * 2 ^ 12

abbrev head : ℕ
head = (next + 2 ^ 5 + 3) / 2 ^ 5 * 2 ^ 5

abbrev scheduled : Machine ℕ
scheduled = record booted {
  mem = queue_head_image head (
      write (store_range frames 0 1024 (λ i. 1) (write booted.mem (frames - 4) 0x100000)) (head - 4)
        next);
  heap = next + (2 ^ 5 + 2 ^ 5 + 3);
}

allocate-IsHead_example :
    (allocate arena empty_structures booted
      ≡ done (record { frame_list = frames; queue_head = head }) scheduled)
    × IsHead head scheduled.mem
    × (scheduled.mem (frames + 4 * 1023) ≡ 1)
allocate-IsHead_example =
    allocate-IsHead arena booted list_grant head_grant 1023 (omega arith) (inr (omega arith))

allocate_overruns_example :
    (allocate arena empty_structures booted
      ≡ done (record { frame_list = frames; queue_head = head }) scheduled)
    × (next + (2 ^ 5 + 2 ^ 5 + 3) ≤ head + 64)
    × (scheduled.mem (head + 64) ≡ 0)
allocate_overruns_example = allocate_overruns arena booted list_grant head_grant
