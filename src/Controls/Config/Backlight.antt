-- ===== src/Controls/Config/Backlight.antt =====
-- `DisplayConfig::backlight_control` of src/backend/src/config.rs: the entry that the backlight of
-- the display adds to the controls.
use carnine.Prelude.{
  ℕ, ◌/◌, ◌≤◌, ◌≡◌, refl, ap, le→leb, true, false, Option, none, some, List, arith, ltb, leb,
}
use mathlib.Core.Option
use carnine.Prelude.Bytes.{codes}
use carnine.Controls.Types.{slider, pwm, Control, level_max}
use carnine.Controls.Config.{
  ControlConfig, ok, or_else, default_pwm_chip, max_pwm_frequency_hz, backlight_id, from_config,
  kind_of, is_switch, binding_of, pwm_binding, is_pwm, finish,
}

pub record BacklightConfig : Type 0 where
  pub pwm_chip : Option (List ℕ)
  pub channel : ℕ
  pub frequency : Option ℕ
  pub min_percent : Option ℕ

-- `ControlConfig::default`
abbrev pub no_config : ControlConfig
no_config = record {
  id = codes "";
  name = codes "";
  kind = codes "";
  chip = codes "";
  bus = none;
  address = none;
  pin = none;
  restore = none;
  reset_gpio = none;
  gpio_chip = none;
  pwm_chip = none;
  channel = none;
  frequency = none;
  min_level = none;
  kick_ms = none;
  boost_on_overheat = none;
  backlight = false;
}

abbrev pub backlight_entry : BacklightConfig → ControlConfig
backlight_entry b = record no_config {
  id = backlight_id;
  name = codes "Display";
  kind = codes "slider";
  chip = codes "pwm";
  pwm_chip = b.pwm_chip;
  channel = some b.channel;
  frequency = some (or_else b.frequency 1000);
  min_level = some (or_else b.min_percent 10);
  restore = some true;
  backlight = true;
}

-- `backlight_control`, for the `backlight` of a `DisplayConfig`.
unfoldable pub backlight_control : Option BacklightConfig → Option ControlConfig
backlight_control none = none
backlight_control (some b) = some (backlight_entry b)

-- The control that a backlight with these settings is.
abbrev pub backlight_of : BacklightConfig → Control
backlight_of b = record {
  id = backlight_id;
  name = codes "Display";
  kind = slider;
  restore = true;
  binding = pwm (record {
    chip = or_else b.pwm_chip default_pwm_chip;
    channel = b.channel;
    period_ns = 1_000_000_000 / or_else b.frequency 1000;
    min_level = or_else b.min_percent 10;
    kick = 0;
    off_at_zero = false;
    off_on_exit = false;
  });
  hidden = true;
  boost = false;
}

accepts :
    (b : BacklightConfig)
    → leb 1 (or_else b.frequency 1000) ≡ true
    → leb (or_else b.frequency 1000) max_pwm_frequency_hz ≡ true
    → ltb level_max (or_else b.min_percent 10) ≡ false
    → from_config (backlight_entry b) ≡ ok (backlight_of b)
unfolding from_config kind_of is_switch binding_of pwm_binding is_pwm finish
accepts b low high lowest = rw (low, high, lowest) refl

-- The entry of a backlight whose frequency, 1000 Hz where none is given, and lowest level, 10 % where
-- none is given, are in range is accepted, as the one hidden slider that never goes dark, keeps its
-- level over a restart and is not switched off at the end.
pub backlight_control-from_config :
    (b : BacklightConfig)
    → 1 ≤ or_else b.frequency 1000
    → or_else b.frequency 1000 ≤ max_pwm_frequency_hz
    → or_else b.min_percent 10 ≤ level_max
    → Option.map from_config (backlight_control (some b)) ≡ some (ok (backlight_of b))
unfolding backlight_control
backlight_control-from_config b low high lowest = ap some (
    accepts b (le→leb 1 (or_else b.frequency 1000) low)
      (le→leb (or_else b.frequency 1000) max_pwm_frequency_hz high) (ground (arith, lowest)))
