-- ===== src/Controls/Pwm/Tests.antt =====
-- Duty cycles of the case fan: 100 Hz, turning from 30 % on (src/backend/src/controls.rs).
use carnine.Prelude.{ℕ, ◌≡◌, refl, true}
use carnine.Controls.Types.{level}
use carnine.Controls.Pwm.{pwm_duty_ns}

abbrev period : ℕ
period = 10_000_000

half : pwm_duty_ns (level 50) period 30 true ≡ 6_500_000
unfolding pwm_duty_ns
half = refl
