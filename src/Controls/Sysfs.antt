-- ===== src/Controls/Sysfs.antt =====
-- `SysfsPwm` of src/backend/src/controls.rs: a PWM channel driven through its files in sysfs. The
-- files take `room` more writes and fail then, so a call may stop at any of its writes.
mod Safety
mod Tests
use carnine.Prelude.{
  ℕ, zero, suc, Bool, true, false, Option, none, some, List, [], ◌∷◌, ◌==◌, if◌then◌else◌, min,
}

-- The attributes of a channel as the kernel holds them.
pub record Attributes : Type 0 where
  pub period : ℕ
  pub duty_cycle : ℕ
  pub enable : Bool

-- The driver, the attributes now, and those that they were before, the latest first.
pub record SysfsPwm : Type 0 where
  pub period_ns : Option ℕ
  pub enabled : Bool
  pub kernel : Attributes
  pub history : List Attributes
  pub room : ℕ

pub data Outcome : Type 0 where
  ok err : SysfsPwm → Outcome

infixl 5 ◌>>=◌
abbrev pub ◌>>=◌ : Outcome → (SysfsPwm → Outcome) → Outcome
ok s >>= f = f s
err s >>= f = err s

-- A write to one of the files, which makes the attributes `a`.
unfoldable pub write : SysfsPwm → Attributes → Outcome
write s a = elim s.room [
  | zero ↦ err s
  | suc room ↦ ok (record s { kernel = a; history = s.kernel ∷ s.history; room = room })
]

abbrev holds_period : Option ℕ → ℕ → Bool
holds_period none period = false
holds_period (some p) period = p == period

set_period : SysfsPwm → ℕ → Outcome
set_period s period =
    if holds_period s.period_ns period
    then ok s
    else (write s (record (s.kernel) { duty_cycle = 0 }) >>= λ s.
        write s (record (s.kernel) { period = period }) >>= λ s.
        ok (record s { period_ns = some period }))

set_enabled : SysfsPwm → Outcome
set_enabled s =
    if s.enabled
    then ok s
    else (write s (record (s.kernel) { enable = true }) >>= λ s. ok (record s { enabled = true }))

-- `apply`
unfoldable pub apply : SysfsPwm → ℕ → ℕ → Outcome
unfolding write set_period set_enabled
apply s period duty = set_period s period >>= λ s.
    write s (record (s.kernel) { duty_cycle = min duty period }) >>= set_enabled

-- `disable`
unfoldable pub disable : SysfsPwm → Outcome
unfolding write
disable s =
    write s (record (s.kernel) { enable = false }) >>= λ s. ok (record s { enabled = false })

-- The channel after a call, failed or not.
abbrev pub state_of : Outcome → SysfsPwm
state_of (ok s) = s
state_of (err s) = s

-- The channel as `linux_pwm_opener` hands it out.
abbrev pub opened : Attributes → ℕ → SysfsPwm
opened kernel room = record {
  period_ns = none;
  enabled = false;
  kernel = kernel;
  history = [];
  room = room;
}
