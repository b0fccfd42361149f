-- ===== src/Timer/Independent.antt =====
-- The two timers of an SP804 are set and read independently of each other.
use nspire_utils.Base.{
  ℕ, ◌+◌, ◌%◌, ◌^◌, ◌<◌, Bool, true, false, if◌then◌else◌, ◌≡◌, refl, ap, ◌∙◌, arith,
}
use nspire_utils.Device.{Bus}
use nspire_utils.Timer.Sp804.{
  SelectedTimer, timer1, timer2, get_selected_timer_offset, timer_load_offset, timer_control_offset,
  timer_bg_load_offset, set_load_reg, get_load_reg, set_control, get_control,
  set_background_load_reg,
}

abbrev pub same_timer : SelectedTimer → SelectedTimer → Bool
same_timer timer1 timer1 = true
same_timer timer1 timer2 = false
same_timer timer2 timer1 = false
same_timer timer2 timer2 = true

-- What the SP804's manual says of the load and control registers: each timer has its own; a write
-- to the load or to the background load register sets that timer's reload value; the control
-- register keeps eight bits.
pub record IsSp804 {S : Type 0} (bus : Bus S) (base : ℕ) : Type 0 where
  pub reload : SelectedTimer → S → ℕ
  pub control : SelectedTimer → S → ℕ
  pub read_load :
      (t : SelectedTimer) (s : S)
      → (bus.read (base + get_selected_timer_offset t + timer_load_offset) s).0 ≡ reload t s
  pub read_control :
      (t : SelectedTimer) (s : S)
      → (bus.read (base + get_selected_timer_offset t + timer_control_offset) s).0 ≡ control t s
  pub load_write :
      (t u : SelectedTimer) (v : ℕ) (s : S)
      → (reload u (bus.write (base + get_selected_timer_offset t + timer_load_offset) v s)
          ≡ (if same_timer u t then v else reload u s))
        × (control u (bus.write (base + get_selected_timer_offset t + timer_load_offset) v s)
            ≡ control u s)
  pub background_write :
      (t u : SelectedTimer) (v : ℕ) (s : S)
      → reload u (bus.write (base + get_selected_timer_offset t + timer_bg_load_offset) v s)
        ≡ (if same_timer u t then v else reload u s)
  pub control_write :
      (t u : SelectedTimer) (v : ℕ) (s : S)
      → (control u (bus.write (base + get_selected_timer_offset t + timer_control_offset) v s)
          ≡ (if same_timer u t then v % 2 ^ 8 else control u s))
        × (reload u (bus.write (base + get_selected_timer_offset t + timer_control_offset) v s)
            ≡ reload u s)

module _ {S : Type 0} (bus : Bus S) (base : ℕ) (is : IsSp804 bus base) where
  -- On an SP804, `getLoadReg` of a timer answers what `setLoadReg` or `setBackgroundLoadReg` last gave
  -- that timer, whatever is given to the other timer or to the control registers in between, and
  -- `getControl` answers the flags, which are below 256, that `setControl` gave that timer, whatever
  -- the load registers are given.
  load-control_independent :
      (t u : SelectedTimer) (v w flags : ℕ) (s : S)
      → flags < 2 ^ 8
      → same_timer t u ≡ false
      → ((get_load_reg bus base t
            (set_control bus base u flags
              (set_load_reg bus base u w (set_load_reg bus base t v s).1).1).1).0
          ≡ v)
        × ((get_load_reg bus base t
              (set_load_reg bus base u w (set_background_load_reg bus base t v s).1).1).0
            ≡ v)
        × ((get_control bus base t
              (set_load_reg bus base t v (set_control bus base t flags s).1).1).0
            ≡ flags)
  unfolding set_load_reg get_load_reg set_control get_control set_background_load_reg
  load-control_independent t u v w flags s small other =
      let loaded = bus.write (base + get_selected_timer_offset t + timer_load_offset) v s in
      let both = bus.write (base + get_selected_timer_offset u + timer_load_offset) w loaded in
      let all = bus.write (base + get_selected_timer_offset u + timer_control_offset) flags both in
      let background = bus.write (base + get_selected_timer_offset t + timer_bg_load_offset) v s in
      let flagged = bus.write (base + get_selected_timer_offset t + timer_control_offset) flags s in
      (
        is.read_load t all
            ∙ (is.control_write u t flags both).1
            ∙ (is.load_write u t w loaded).0
            ∙ skip _ _ (same_timer t u) other
            ∙ (is.load_write t t v s).0
            ∙ take _ _ (same_timer t t) (self t),
        is.read_load t
              (bus.write (base + get_selected_timer_offset u + timer_load_offset) w background)
            ∙ (is.load_write u t w background).0
            ∙ skip _ _ (same_timer t u) other
            ∙ is.background_write t t v s
            ∙ take _ _ (same_timer t t) (self t),
        ap (λ c. c % 2 ^ 8)
              (is.read_control t
                  (bus.write (base + get_selected_timer_offset t + timer_load_offset) v flagged)
                ∙ (is.load_write t t v flagged).1
                ∙ (is.control_write t t flags s).0
                ∙ take _ _ (same_timer t t) (self t))
            ∙ omega arith,
      )
    where
      self : (x : SelectedTimer) → same_timer x x ≡ true
      self timer1 = refl
      self timer2 = refl

      take : (a c : ℕ) (b : Bool) → b ≡ true → (if b then a else c) ≡ a
      take a c b e = rw e refl

      skip : (a c : ℕ) (b : Bool) → b ≡ false → (if b then a else c) ≡ c
      skip a c b e = rw e refl
