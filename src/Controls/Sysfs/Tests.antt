-- ===== src/Controls/Sysfs/Tests.antt =====
-- The sysfs channel of the unit tests of src/backend/src/controls.rs.
use carnine.Prelude.{◌≡◌, refl, false, arith}
use carnine.Controls.Sysfs.{SysfsPwm, apply, state_of, opened}
use carnine.Controls.Sysfs.Safety.{IsSafe, Sets, apply-IsSafe}

abbrev fresh : SysfsPwm
fresh = opened (record { period = 0; duty_cycle = 0; enable = false }) 3

-- The third write is the last one that a file takes, so the output is not enabled.
stops_early :
    (state_of (apply fresh 10_000 4_000)).kernel
    ≡ record { period = 10_000; duty_cycle = 4_000; enable = false }
unfolding apply
stops_early = refl

apply-IsSafe_example :
    IsSafe (state_of (apply fresh 10_000 4_000)) × Sets (apply fresh 10_000 4_000) 10_000 4_000
apply-IsSafe_example = apply-IsSafe fresh 10_000 4_000 (ground arith)
