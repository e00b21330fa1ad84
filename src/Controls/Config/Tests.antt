-- ===== src/Controls/Config/Tests.antt =====
-- Entries as the unit tests of src/backend/src/controls.rs have them.
use carnine.Prelude.{◌≡◌, refl, true, false, none, some}
use carnine.Prelude.Bytes.{codes}
use carnine.Controls.Types.{switch, slider, mcp23017, pwm, Control}
use carnine.Controls.Config.{
  ControlConfig, ok, err, bad_pin, from_config, kind_of, is_switch, reset_of, pin_binding,
  pwm_binding, binding_of, is_pwm, finish, backlight_id,
}
use carnine.Controls.Config.Backlight.{BacklightConfig}
use carnine.Controls.Config.Sound.{IsValid, from_config-IsValid}

abbrev lamp : ControlConfig
lamp = record {
  id = codes " lamp ";
  name = codes "Lamp";
  kind = codes "Switch";
  chip = codes "MCP23017";
  bus = none;
  address = none;
  pin = some 3;
  restore = none;
  reset_gpio = none;
  gpio_chip = none;
  pwm_chip = none;
  channel = none;
  frequency = none;
  min_level = none;
  kick_ms = none;
  boost_on_overheat = none;
  backlight = false;
}

abbrev lamp_control : Control
lamp_control = record {
  id = codes "lamp";
  name = codes "Lamp";
  kind = switch;
  restore = false;
  binding = mcp23017 (record { bus = codes "/dev/i2c-1"; address = 32; pin = 3; reset = none });
  hidden = false;
  boost = false;
}

lamp_accepted : from_config lamp ≡ ok lamp_control
unfolding from_config kind_of is_switch reset_of pin_binding binding_of is_pwm finish
lamp_accepted = refl

pin_16 : from_config (record lamp { pin = some 16 }) ≡ err bad_pin
unfolding from_config kind_of is_switch pin_binding binding_of
pin_16 = refl

from_config-IsValid_example : IsValid lamp_control
from_config-IsValid_example = from_config-IsValid lamp lamp_control lamp_accepted

abbrev backlight : ControlConfig
backlight = record lamp {
  id = backlight_id;
  kind = codes "slider";
  chip = codes "pwm";
  channel = some 0;
  backlight = true;
}

abbrev display_control : Control
display_control = record {
  id = backlight_id;
  name = codes "Lamp";
  kind = slider;
  restore = true;
  binding = pwm (record {
    chip = codes "/sys/class/pwm/pwmchip0";
    channel = 0;
    period_ns = 10_000_000;
    min_level = 0;
    kick = 0;
    off_at_zero = false;
    off_on_exit = false;
  });
  hidden = true;
  boost = false;
}

backlight_accepted : from_config backlight ≡ ok display_control
unfolding from_config kind_of is_switch pwm_binding binding_of is_pwm finish
backlight_accepted = refl

-- A Waveshare 7H with its defaults.
abbrev waveshare : BacklightConfig
waveshare = record { pwm_chip = none; channel = 1; frequency = none; min_percent = none }
