-- ===== src/Controls/Output.antt =====
-- `PwmOutput` and `drive_pwm` of src/backend/src/controls.rs: one PWM channel in use.
mod Tests
use carnine.Prelude.{ℕ, Bool, true, false, ◌&&◌, ◌||◌, not, List, ◌==◌, ltb, if◌then◌else◌}
use carnine.Controls.Types.{Value, Output}
use carnine.Controls.Pwm.{pwm_duty_ns}
use carnine.Controls.Board.{Board, Io, ok, err, M, ◌>>◌, pure}

pub record PwmOutput : Type 0 where
  pub chip : List ℕ
  pub channel : ℕ
  pub channel_open : Bool
  pub available : Bool
  pub missing_reported : Bool

abbrev pub duty_of : Value → Output → ℕ
duty_of v o = pwm_duty_ns v o.period_ns o.min_level o.off_at_zero

module _ (B : Board) where
  open B use {State, open_pwm, apply_pwm}

  pub record Wire : Type 0 where
    pub output : PwmOutput
    pub board : State

  call : (State → State × Bool) → Bool → M Wire (Unit {0})
  call f opens w =
      let (board, done) = f w.board in
      if done
      then ok tt (record {
        output = record (w.output) { channel_open = opens || w.output.channel_open };
        board = board;
      })
      else err (record { output = w.output; board = board })

  open_channel : Output → M Wire (Unit {0})
  open_channel o w =
      if w.output.channel_open then ok tt w else call (open_pwm o.chip o.channel) true w

  pub apply : Output → ℕ → M Wire (Unit {0})
  apply o duty = call (apply_pwm o.chip o.channel o.period_ns duty) false

  -- Whether a kick at full duty comes first.
  pub kicks : Bool → Output → Value → Value → Bool
  kicks available o previous value =
      ltb 0 (duty_of value o) && ((not available || duty_of previous o == 0) && not (o.kick == 0))

  drive_open : Output → Value → Value → M Wire (Unit {0})
  drive_open o previous value w =
      ((if kicks w.output.available o previous value then apply o o.period_ns else pure tt)
          >> apply o (duty_of value o))
        w

  settle : Io Wire (Unit {0}) → Wire × Bool
  settle (ok a w) =
      (record w { output = record (w.output) { available = true; missing_reported = false } }, true)
  settle (err w) =
      (record w { output = record (w.output) { available = false; channel_open = false } }, false)

  -- `drive_pwm`; the time of the kick is left out.
  pub drive_pwm : Output → Value → Value → Wire → Wire × Bool
  drive_pwm o previous value w = settle ((open_channel o >> drive_open o previous value) w)
