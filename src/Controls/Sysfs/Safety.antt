-- ===== src/Controls/Sysfs/Safety.antt =====
-- The order of writes of `SysfsPwm` (src/backend/src/controls.rs) and why it is safe.
use carnine.Prelude.{ℕ, ◌≤◌, ◌≡◌, Bool, true, false, Option, none, some, arith, All, min}
use carnine.Controls.Sysfs.{Attributes, SysfsPwm, Outcome, ok, err, apply, disable, state_of}

-- The kernel refuses a duty cycle longer than the period.
abbrev pub IsLegal : Attributes → Type 0
IsLegal a = a.duty_cycle ≤ a.period

abbrev KnowsPeriod : Option ℕ → ℕ → Type 0
KnowsPeriod none period = Unit
KnowsPeriod (some p) period = p ≡ period

abbrev KnowsEnabled : Bool → Bool → Type 0
KnowsEnabled true enable = enable ≡ true
KnowsEnabled false enable = Unit

-- The attributes are and were legal, and the driver knows the period and the switch that it set.
pub record IsSafe (s : SysfsPwm) : Type 0 where
  pub legal : IsLegal s.kernel
  pub was_legal : All IsLegal s.history
  pub period_known : KnowsPeriod s.period_ns s.kernel.period
  pub enabled_known : KnowsEnabled s.enabled s.kernel.enable

-- A call that succeeds has set the output as asked.
abbrev pub Sets : Outcome → ℕ → ℕ → Type 0
Sets (ok s) period duty =
    s.kernel ≡ record { period = period; duty_cycle = min duty period; enable = true }
Sets (err s) period duty = s.room ≡ 0

-- On a channel that is safe so far, at every moment of `apply`, wherever it fails, the duty cycle
-- is no longer than the period, and if it succeeds period, duty cycle (cut to the period) and the
-- switch are as asked; it fails only if a file takes no more.
pub apply-IsSafe :
    (s : SysfsPwm) (period duty : ℕ)
    → IsSafe s
    → IsSafe (state_of (apply s period duty)) × Sets (apply s period duty) period duty
unfolding apply
apply-IsSafe s period duty h = ground arith

pub disable-IsSafe : (s : SysfsPwm) → IsSafe s → IsSafe (state_of (disable s))
unfolding disable
disable-IsSafe s h = ground arith
