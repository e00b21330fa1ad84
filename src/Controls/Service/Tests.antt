-- ===== src/Controls/Service/Tests.antt =====
-- What a client sees of two demo controls and the backlight (src/backend/src/controls.rs).
use carnine.Prelude.{◌≡◌, refl, true, false, none, some, [], ◌∷◌, map}
use carnine.Prelude.Bytes.{codes}
use carnine.Controls.Types.{slider, demo, Control, ControlState, level}
use carnine.Controls.Config.{ControlConfig}
use carnine.Controls.Config.Backlight.{backlight_entry, no_config}
use carnine.Controls.Board.Bench.{bench}
use carnine.Controls.Hub.{Hub}
use carnine.Controls.Hub.Operations.{position, fits, set_value, set_known, set_plain, reply_plain}
use carnine.Controls.Hub.{put_on_hardware}
use carnine.Controls.Hub.Operations.Build.{with_pwm}
use carnine.Controls.Service.{
  SentState, ListedControl, get_controls, stream_control_states, set_control_state, respond,
  state_to_proto, status_of, find_state, ok, err, invalid_argument, not_found,
}
use carnine.Controls.Service.Shown.{stream-get_controls}

abbrev dimmer : ControlConfig
dimmer = record no_config {
  id = codes "dimmer";
  name = codes "Dimmer";
  kind = codes "slider";
  chip = codes "demo";
}

abbrev display : ControlConfig
display =
    backlight_entry (record { pwm_chip = none; channel = 1; frequency = none; min_percent = none })

stream-get_controls_example :
    let h = with_pwm bench (display ∷ dimmer ∷ []) (λ id. none) 5 in
    map (λ (s : SentState). s.id) (stream_control_states bench h)
    ≡ map (λ (c : ListedControl). c.id) (get_controls bench h)
stream-get_controls_example = stream-get_controls bench (display ∷ dimmer ∷ []) (λ id. none) 5

abbrev lamp : Control
lamp = record {
  id = codes "lamp";
  name = codes "Lamp";
  kind = slider;
  restore = true;
  binding = demo;
  hidden = false;
  boost = false;
}

abbrev dark : ControlState
dark = record { id = codes "lamp"; value = level 0; available = true }

abbrev room : Hub bench
room = record {
  controls = lamp ∷ [];
  states = dark ∷ [];
  chips = [];
  outputs = [];
  board = 0;
  shutting_down = false;
  boosting = false;
  normal = [];
  sent = [];
}

lit :
    (set_control_state bench room (codes "lamp") (some (level 30))).1
    ≡ ok (record { id = codes "lamp"; value = some (level 30); available = true })
unfolding set_control_state respond state_to_proto set_value position set_known fits set_plain
    reply_plain put_on_hardware
lit = refl

too_bright :
    (set_control_state bench room (codes "lamp") (some (level 101))).1 ≡ err invalid_argument
unfolding set_control_state respond status_of set_value position set_known fits
too_bright = refl

unknown : (set_control_state bench room (codes "fan") (some (level 1))).1 ≡ err not_found
unfolding set_control_state respond status_of set_value position
unknown = refl

found : find_state (codes "lamp") room.states ≡ some dark
unfolding find_state
found = refl
