-- ===== src/Controls/Pwm/Laws.antt =====
-- Bounds and order of the duty cycle (src/backend/src/controls.rs).
use carnine.Prelude.{ℕ, ◌-◌, ◌*◌, ◌/◌, ◌≤◌, ◌≡◌, ◌≢◌, ◌⊎◌, Bool, true, false, arith, min}
use carnine.Controls.Types.{Value, on, level, level_max}
use carnine.Controls.Pwm.{percent, pwm_duty_ns}

scaled_le : (a n : ℕ) → n ≤ 100 → a * n / 100 ≤ a
scaled_le a n h = let p : a * n ≤ a * 100 = grind arith in omega arith

percent-le : (v : Value) (m : ℕ) (z : Bool) → m ≤ level_max → percent v m z ≤ level_max
unfolding percent
percent-le (on true) m z h = omega arith
percent-le (on false) m z h = omega arith
percent-le (level n) m z h = ground (arith, scaled_le (100 - m) (min n 100))

-- With a lowest level of 100 % at most, the duty cycle never exceeds the period.
pub pwm_duty_ns-le :
    (v : Value) (period m : ℕ) (z : Bool) → m ≤ level_max → pwm_duty_ns v period m z ≤ period
unfolding pwm_duty_ns
pwm_duty_ns-le v period m z h = scaled_le period (percent v m z) (percent-le v m z h)

scaled_mono : (a x y : ℕ) → x ≤ y → a * x / 100 ≤ a * y / 100
scaled_mono a x y h = let p : a * x ≤ a * y = grind arith in omega arith

percent_mono : (n n' m : ℕ) (z : Bool) → n ≤ n' → percent (level n) m z ≤ percent (level n') m z
unfolding percent
percent_mono n n' m z h = ground (arith, scaled_mono (100 - m) (min n 100) (min n' 100))

-- A higher level of a slider is never a shorter duty cycle.
pub pwm_duty_ns_mono :
    (n n' period m : ℕ) (z : Bool)
    → n ≤ n'
    → pwm_duty_ns (level n) period m z ≤ pwm_duty_ns (level n') period m z
unfolding pwm_duty_ns
pwm_duty_ns_mono n n' period m z h =
    scaled_mono period (percent (level n) m z) (percent (level n') m z) (percent_mono n n' m z h)

percent-level_max : (m : ℕ) (z : Bool) → m ≤ level_max → percent (level level_max) m z ≡ level_max
unfolding percent
percent-level_max m z h = ground arith

-- Switched on and at level 100 the output is on for the whole period, switched off and, where 0 is
-- off, at level 0 for none of it; a level other than 0 keeps at least the share `min_level`, and so
-- does level 0 of an output that is never off, such as the backlight. The share is 100 % at most.
pub pwm_duty_ns_ends :
    (period m n : ℕ) (z : Bool)
    → m ≤ level_max
    → (n ≢ 0) ⊎ (z ≡ false)
    → (pwm_duty_ns (on true) period m z ≡ period)
      × (pwm_duty_ns (level level_max) period m z ≡ period)
      × (pwm_duty_ns (on false) period m z ≡ 0)
      × (pwm_duty_ns (level 0) period m true ≡ 0)
      × (period * m / level_max ≤ pwm_duty_ns (level n) period m z)
unfolding pwm_duty_ns percent
pwm_duty_ns_ends period m n z h other = (
  omega arith,
  ground (arith, percent-level_max m z h),
  omega arith,
  omega arith,
  scaled_mono period m (percent (level n) m z) (ground (arith, scaled_mono 0 0 0)),
)
