-- ===== src/Controls/Hub/Operations/Build.antt =====
-- `ControlHub::with_pwm` of src/backend/src/controls.rs: the hub that a configuration makes. The
-- saved values, which the source loads from the database, are an argument.
use carnine.Prelude.{
  ℕ, Bool, true, false, ◌||◌, Option, some, List, [], ◌∷◌, ◌++◌, if◌then◌else◌, min,
}
use carnine.Prelude.Bytes.{same}
use carnine.Prelude.Bits.{set_bit}
use carnine.Controls.Types.{
  Kind, switch, slider, Pin, Output, Binding, mcp23017, pwm, Control, ControlState, Value, on,
  level, level_max, off_value,
}
use carnine.Controls.Config.{ControlConfig, Result, ok, err, from_config}
use carnine.Controls.Board.{Board}
use carnine.Controls.Chip.{Mcp23017}
use carnine.Controls.Chip
use carnine.Controls.Output.{PwmOutput}
use carnine.Controls.Hub.Maps.{is_chip, is_output}
use carnine.Controls.Hub.{Hub, refresh, is_on}
use carnine.Controls.Hub.Operations.{through, bring_up_pwm}

-- `controls.iter().any(|known| known.id == id)`
unfoldable pub is_known : List ℕ → List Control → Bool
is_known id [] = false
is_known id (c ∷ cs) = same c.id id || is_known id cs

unfoldable pub push_new : List Control → Result Control → List Control
push_new known (err e) = known
push_new known (ok c) = if is_known c.id known then known else known ++ c ∷ []

-- Broken entries and ids that are taken are skipped.
unfoldable pub admit : List Control → List ControlConfig → List Control
admit known [] = known
admit known (e ∷ entries) = admit (push_new known (from_config e)) entries

-- What the database has of a control: whether it was on, and its level.
abbrev pub Saved : Type 0
Saved = List ℕ → Option (Option Bool × Option ℕ)

unfoldable pub restored : Bool → Kind → Option (Option Bool × Option ℕ) → Value → Value
restored true switch (some (some b, l)) off = on b
restored true slider (some (b, some l)) off = level (min l level_max)
restored _ _ _ off = off

unfoldable pub first_state : Saved → Control → ControlState
first_state saved c = record {
  id = c.id;
  value = restored c.restore c.kind (saved c.id) (off_value c);
  available = true;
}

unfoldable pub new_chip : Pin → Mcp23017
new_chip p = record {
  bus_path = p.bus;
  address = p.address;
  bus_open = false;
  used_pins = 0;
  latch = 0;
  available = false;
  reset = p.reset;
  reset_open = false;
  missing_reported = false;
}

unfoldable pub use_pin : ℕ → Value → Mcp23017 → Mcp23017
use_pin pin value c = record c {
  used_pins = set_bit c.used_pins pin;
  latch = if is_on value then set_bit c.latch pin else c.latch;
}

-- `chips.entry(…).or_insert_with(…)`, and the pin on it.
unfoldable pub add_pin : Pin → Value → List Mcp23017 → List Mcp23017
add_pin p value [] = use_pin p.pin value (new_chip p) ∷ []
add_pin p value (c ∷ cs) =
    if is_chip p.bus p.address c then use_pin p.pin value c ∷ cs else c ∷ add_pin p value cs

unfoldable pub add_chip : Binding → Value → List Mcp23017 → List Mcp23017
add_chip (mcp23017 p) value chips = add_pin p value chips
add_chip _ value chips = chips

unfoldable pub build_chips : List Control → List ControlState → List Mcp23017 → List Mcp23017
build_chips (c ∷ cs) (s ∷ ss) chips = build_chips cs ss (add_chip c.binding s.value chips)
build_chips _ _ chips = chips

unfoldable pub new_output : Output → PwmOutput
new_output o = record {
  chip = o.chip;
  channel = o.channel;
  channel_open = false;
  available = false;
  missing_reported = false;
}

unfoldable pub add_output : Output → List PwmOutput → List PwmOutput
add_output o [] = new_output o ∷ []
add_output o (out ∷ outs) =
    if is_output o.chip o.channel out then new_output o ∷ outs else out ∷ add_output o outs

unfoldable pub add_channel : Binding → List PwmOutput → List PwmOutput
add_channel (pwm o) outs = add_output o outs
add_channel _ outs = outs

unfoldable pub build_outputs : List Control → List PwmOutput → List PwmOutput
build_outputs [] outs = outs
build_outputs (c ∷ cs) outs = build_outputs cs (add_channel c.binding outs)

unfoldable pub first_states : Saved → List Control → List ControlState
first_states saved [] = []
first_states saved (c ∷ cs) = first_state saved c ∷ first_states saved cs

module _ (B : Board) where
  -- The hub before its hardware is brought up.
  unfoldable pub unbuilt : List Control → List ControlState → B.State → Hub B
  unbuilt controls states board = record {
    controls = controls;
    states = states;
    chips = build_chips controls states [];
    outputs = build_outputs controls [];
    board = board;
    shutting_down = false;
    boosting = false;
    normal = [];
    sent = [];
  }

  unfoldable pub bring_up_all : Hub B → Hub B
  bring_up_all h =
      let (chips, board) = through B (λ _. true) (Chip.bring_up B) h.chips h.board in
      let q = bring_up_pwm B (record h { chips = chips; board = board }) h.controls h.states in
      record q { states = (refresh q.chips q.outputs q.controls q.states).0 }

  -- `ControlHub::with_pwm`
  unfoldable pub with_pwm : List ControlConfig → Saved → B.State → Hub B
  with_pwm entries saved board =
      let controls = admit [] entries in
      bring_up_all (unbuilt controls (first_states saved controls) board)
