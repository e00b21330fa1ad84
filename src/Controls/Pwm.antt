-- ===== src/Controls/Pwm.antt =====
-- `pwm_duty_ns` of src/backend/src/controls.rs: the duty cycle of a value, in nanoseconds.
mod Laws
mod Tests
use carnine.Prelude.{ℕ, ◌+◌, ◌-◌, ◌*◌, ◌/◌, Bool, true, false, ◌&&◌, ◌==◌, if◌then◌else◌, min}
use carnine.Controls.Types.{Value, on, level, level_max}

-- In percent of the period; the source's numbers are far below the limit of u64 here.
unfoldable pub percent : Value → ℕ → Bool → ℕ
percent (on true) min_level off_at_zero = level_max
percent (on false) min_level off_at_zero = 0
percent (level n) min_level off_at_zero =
    if n == 0 && off_at_zero
    then 0
    else min_level + (level_max - min_level) * min n level_max / level_max

unfoldable pub pwm_duty_ns : Value → ℕ → ℕ → Bool → ℕ
unfolding percent
pwm_duty_ns value period_ns min_level off_at_zero =
    period_ns * percent value min_level off_at_zero / level_max
