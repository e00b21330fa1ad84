-- ===== src/Controls/Hub/Operations/Tests.antt =====
-- The hub with a demo control and a boosted lamp on a port expander (src/backend/src/controls.rs).
use carnine.Prelude.{◌≡◌, refl, true, false, none, some, [], ◌∷◌, All}
use carnine.Prelude.Bytes.{codes}
use carnine.Controls.Types.{switch, slider, demo, mcp23017, Control, ControlState, on, level}
use carnine.Controls.Config.{ControlConfig}
use carnine.Controls.Config.Sound.{IsValid}
use carnine.Controls.Board.Bench.{bench}
use carnine.Controls.Chip.{
  Mcp23017, put_pin, initialise, release_reset, reset_line, write_latch, bus, call, check_setup,
  recheck, holds_setup, read_directions, holds, bring_up, write_directions, bus_write,
}
use carnine.Controls.Hub.{
  Hub, put_on_hardware, put_chip_value, conclude, refresh, available_now, announce, without,
}
use carnine.Controls.Hub.Maps.{find_chip, remove_value, insert_value, put_chip}
use carnine.Controls.Hub.Operations.{
  shut_down, boost_one, full, target_of, boost_apply, follow, retry_unavailable, through,
  bring_up_pwm, bring_up_control, set_overheated, boost_from, set_boosted, hold_resets, hold_reset,
  stop_outputs, stop_output, disable_one,
}
use carnine.Controls.Hub.Operations.Build.{with_pwm}
use carnine.Controls.Hub.Operations.Start.{Unique, Typed, with_pwm-Typed}
use carnine.Controls.Hub.Operations.Stopped.{sets, retries, serve_all, serve_all-shut_down}

abbrev dimmer : Control
dimmer = record {
  id = codes "dimmer";
  name = codes "Dimmer";
  kind = slider;
  restore = true;
  binding = demo;
  hidden = false;
  boost = true;
}

abbrev fan : Control
fan = record {
  id = codes "fan";
  name = codes "Fan";
  kind = switch;
  restore = false;
  binding = mcp23017 (record { bus = codes "/dev/i2c-1"; address = 32; pin = 3; reset = none });
  hidden = false;
  boost = true;
}

abbrev dimmed : ControlState
dimmed = record { id = codes "dimmer"; value = level 40; available = true }

-- Full, as the boost left it.
abbrev blowing : ControlState
blowing = record { id = codes "fan"; value = on true; available = false }

abbrev expander : Mcp23017
expander = record {
  bus_path = codes "/dev/i2c-1";
  address = 32;
  bus_open = false;
  used_pins = 8;
  latch = 8;
  available = false;
  reset = none;
  reset_open = false;
  missing_reported = true;
}

-- The expander does not answer: the board takes no call.
abbrev cabin : Hub bench
cabin = record {
  controls = dimmer ∷ fan ∷ [];
  states = dimmed ∷ blowing ∷ [];
  chips = expander ∷ [];
  outputs = [];
  board = 0;
  shutting_down = false;
  boosting = false;
  normal = (codes "fan", on false) ∷ [];
  sent = [];
}

serve_all-shut_down_example :
    serve_all bench (shut_down bench cabin) (sets (codes "fan") (on false) ∷ retries ∷ [])
    ≡ shut_down bench cabin
serve_all-shut_down_example =
    (serve_all-shut_down bench cabin (sets (codes "fan") (on false) ∷ retries ∷ []) (codes "fan")
      (on false)).0

-- At full level, once boosted.
abbrev bright : ControlState
bright = record { id = codes "dimmer"; value = level 100; available = true }

-- A board that takes three calls, and nothing boosted.
abbrev ready : Hub bench
ready = record cabin { board = 3; normal = [] }

-- Once the expander is back, the retry switches it as the state says and tells of it.
retried :
    (retry_unavailable bench ready).sent
    ≡ record { id = codes "fan"; value = on true; available = true } ∷ []
unfolding retry_unavailable through refresh available_now announce find_chip put_chip check_setup
    recheck holds_setup read_directions holds bring_up initialise release_reset reset_line
    write_latch write_directions bus bus_write call bring_up_pwm bring_up_control
retried = refl

boosted :
    (set_overheated bench (record ready { board = 0 }) true).states
    ≡ record { id = codes "dimmer"; value = level 100; available = true } ∷ blowing ∷ []
unfolding set_overheated boost_from boost_one boost_apply follow target_of put_on_hardware
    put_chip_value conclude find_chip put_chip put_pin initialise release_reset reset_line
    write_latch bus call full refresh announce without available_now
boosted = refl

kept : (set_boosted bench ready dimmer dimmed (level 10)).0.normal ≡ (codes "dimmer", level 10) ∷ []
unfolding set_boosted insert_value remove_value
kept = refl

held : (shut_down bench ready).board ≡ 3
unfolding shut_down hold_resets hold_reset stop_outputs stop_output disable_one
held = refl

abbrev blank : ControlConfig
blank = record {
  id = codes "a";
  name = codes "A";
  kind = codes "slider";
  chip = codes "demo";
  bus = none;
  address = none;
  pin = none;
  restore = none;
  reset_gpio = none;
  gpio_chip = none;
  pwm_chip = none;
  channel = none;
  frequency = none;
  min_level = none;
  kick_ms = none;
  boost_on_overheat = none;
  backlight = false;
}

with_pwm-Typed_example :
    let h = with_pwm bench (blank ∷ blank ∷ []) (λ id. some (none, some 130)) 0 in
    Unique h.controls × All IsValid h.controls × Typed h.controls h.states
with_pwm-Typed_example = with_pwm-Typed bench (blank ∷ blank ∷ []) (λ id. some (none, some 130)) 0
