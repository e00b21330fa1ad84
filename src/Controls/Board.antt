-- ===== src/Controls/Board.antt =====
-- The hardware and the database as src/backend/src/controls.rs sees them: `I2cBus`, `BusOpener`,
-- `ResetLine`, `ResetOpener`, `PwmChannel`, `PwmOpener` and `save_control_state`, each a call that
-- changes the world outside and may fail. Nothing is assumed of them.
pub mod Bench
use carnine.Prelude.{ℕ, Bool, Option, List, if◌then◌else◌}
use carnine.Controls.Types.{Value}

pub record Board : Type 1 where
  pub State : Type 0
  -- path
  pub open_bus : List ℕ → State → State × Bool
  -- path, address, bytes
  pub write_bus : List ℕ → ℕ → List ℕ → State → State × Bool
  -- path, address, register; two bytes
  pub read_bus : List ℕ → ℕ → ℕ → State → State × Option (ℕ × ℕ)
  -- chip, line
  pub open_reset : List ℕ → ℕ → State → State × Bool
  -- chip, line, high
  pub set_reset : List ℕ → ℕ → Bool → State → State × Bool
  -- chip, channel
  pub open_pwm : List ℕ → ℕ → State → State × Bool
  -- chip, channel, period, duty cycle
  pub apply_pwm : List ℕ → ℕ → ℕ → ℕ → State → State × Bool
  -- chip, channel
  pub disable_pwm : List ℕ → ℕ → State → State × Bool
  -- id, value; a failure is only logged
  pub save : List ℕ → Value → State → State

-- A driver's call over its state and the board's: a result, or a failure, with the state after it.
pub data Io (W A : Type 0) : Type 0 where
  ok : A → W → Io W A
  err : W → Io W A

abbrev pub M : Type 0 → Type 0 → Type 0
M W A = W → Io W A

infixl 5 ◌>>=◌ ◌>>◌
abbrev pub ◌>>=◌ : {W A B : Type 0} → M W A → (A → M W B) → M W B
◌>>=◌ m f w = elim (m w) [ ok a w' ↦ f a w' | err w' ↦ err w' ]

abbrev pub ◌>>◌ : {W B : Type 0} → M W (Unit {0}) → M W B → M W B
m >> k = m >>= λ _. k

abbrev pub pure : {W A : Type 0} → A → M W A
pure a w = ok a w

abbrev pub state_of : {W A : Type 0} → Io W A → W
state_of (ok a w) = w
state_of (err w) = w

abbrev pub is_ok : {W A : Type 0} → Io W A → Bool
is_ok (ok a w) = Bool.true
is_ok (err w) = Bool.false
