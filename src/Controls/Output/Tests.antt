-- ===== src/Controls/Output/Tests.antt =====
-- A fan on a PWM channel that is kicked, and one whose board fails on the way
-- (src/backend/src/controls.rs).
use carnine.Prelude.{◌≡◌, refl, true, false, []}
use carnine.Controls.Types.{Output, level}
use carnine.Controls.Board.Bench.{bench}
use carnine.Controls.Output.{
  PwmOutput, call, open_channel, apply, kicks, drive_open, settle, drive_pwm,
}
use carnine.Controls.Pwm.{pwm_duty_ns}

abbrev fan : Output
fan = record {
  chip = [];
  channel = 1;
  period_ns = 40000;
  min_level = 20;
  kick = 500;
  off_at_zero = true;
  off_on_exit = true;
}

abbrev closed : PwmOutput
closed = record {
  chip = [];
  channel = 1;
  channel_open = false;
  available = false;
  missing_reported = true;
}

-- Open, kick, then the level: three calls of the board.
kicked : drive_pwm bench fan (level 0) (level 50) (record { output = closed; board = 3 }) ≡ (
  record {
    output = record closed { channel_open = true; available = true; missing_reported = false };
    board = 0;
  },
  true,
)
unfolding drive_pwm settle drive_open kicks apply open_channel call pwm_duty_ns
kicked = refl

-- The last of the three fails: the channel counts as gone.
dropped :
    drive_pwm bench fan (level 0) (level 50) (record { output = closed; board = 2 })
    ≡ (record { output = closed; board = 0 }, false)
unfolding drive_pwm settle drive_open kicks apply open_channel call pwm_duty_ns
dropped = refl
