-- ===== src/Controls/Hub.antt =====
-- `ControlHub` of src/backend/src/controls.rs: the state of every control, and its operations. The
-- maps of chips and PWM channels are lists in the order of their first control; the source's hash
-- map may go through the chips in another order. Log output is left out.
pub mod Maps
pub mod Operations
use carnine.Prelude.{
  ℕ, suc, Bool, true, false, ◌&&◌, not, Option, none, some, List, [], ◌∷◌, ◌++◌, ◌==◌,
  if◌then◌else◌, get_elem?, set,
}
use carnine.Prelude.Bytes.{same}
use carnine.Controls.Types.{
  Output, Binding, demo, mcp23017, pwm, Control, ControlState, Value, on, level, SetError,
  unavailable, off_value,
}
use carnine.Controls.Board.{Board}
use carnine.Controls.Chip.{Mcp23017}
use carnine.Controls.Chip
use carnine.Controls.Output.{PwmOutput}
use carnine.Controls.Output
use Maps.{find_chip, put_chip, find_output, put_output}

-- Why an operation does not come to its end: an error of the source, or one of its `expect`s.
pub data Failure : Type 0 where
  refused : SetError → Failure
  panics : Failure

-- `value == Value::On(true)`
abbrev pub is_on : Value → Bool
is_on (on b) = b
is_on (level n) = false

abbrev pub is_pwm : Binding → Bool
is_pwm (pwm o) = true
is_pwm _ = false

abbrev is_available_chip : Option Mcp23017 → Bool
is_available_chip none = false
is_available_chip (some c) = c.available

abbrev is_available_output : Option PwmOutput → Bool
is_available_output none = false
is_available_output (some o) = o.available

pub available_now : List Mcp23017 → List PwmOutput → Binding → Bool
available_now chips outputs demo = true
available_now chips outputs (mcp23017 p) = is_available_chip (find_chip p.bus p.address chips)
available_now chips outputs (pwm o) = is_available_output (find_output o.chip o.channel outputs)

abbrev pub same_bool : Bool → Bool → Bool
same_bool true b = b
same_bool false b = not b

-- The loop of `refresh_availability`: the new states, and those of them that changed.
unfoldable pub refresh :
    List Mcp23017
    → List PwmOutput
    → List Control
    → List ControlState
    → List ControlState × List ControlState
refresh chips outputs (c ∷ cs) (s ∷ ss) =
    let now = available_now chips outputs c.binding in
    let s' = record s { available = now } in
    let (states, changed) = refresh chips outputs cs ss in
    (s' ∷ states, if same_bool s.available now then changed else s' ∷ changed)
refresh chips outputs [] ss = (ss, [])
refresh chips outputs (c ∷ cs) [] = ([], [])

-- Each of the states is sent, one after the other.
pub announce : List ControlState → List ControlState → List ControlState
announce [] sent = sent
announce (s ∷ ss) sent = announce ss (s ∷ sent)

pub without : List ℕ → List ControlState → List ControlState
without id [] = []
without id (s ∷ ss) = if same s.id id then without id ss else s ∷ without id ss

module _ (B : Board) where
  open B use {State}

  -- `Inner`, with the board behind it; `sent` are the changes that subscribers got, newest first.
  pub record Hub : Type 0 where
    pub controls : List Control
    pub states : List ControlState
    pub chips : List Mcp23017
    pub outputs : List PwmOutput
    pub board : State
    pub shutting_down : Bool
    pub boosting : Bool
    pub normal : List (List ℕ × Value)
    pub sent : List ControlState

  abbrev refreshed : Hub → List ControlState × List ControlState
  refreshed h = refresh h.chips h.outputs h.controls h.states

  -- The end of `put_on_hardware`: who is told of it, and what it returns.
  unfoldable pub conclude : Hub → List ℕ → Bool → Hub × Option Failure
  conclude h id true =
      let (states, changed) = refreshed h in
      (record h { states = states; sent = announce (without id changed) h.sent }, none)
  conclude h id false =
      let (states, changed) = refreshed h in
      (record h { states = states; sent = announce changed h.sent }, some (refused unavailable))

  unfoldable pub put_chip_value : Hub → List ℕ → ℕ → Value → Option Mcp23017 → Hub × Option Failure
  put_chip_value h id pin value none = (h, some panics)
  put_chip_value h id pin value (some c) =
      let (w, done) = Chip.put_pin B (record { chip = c; board = h.board }) pin (is_on value) in
      conclude (record h { chips = put_chip w.chip h.chips; board = w.board }) id done

  unfoldable pub put_output_value :
      Hub → List ℕ → Output → Value → Value → Option PwmOutput → Hub × Option Failure
  put_output_value h id o previous value none = (h, some panics)
  put_output_value h id o previous value (some out) =
      let (w, done) =
        Output.drive_pwm B o previous value (record { output = out; board = h.board }) in
      conclude (record h { outputs = put_output w.output h.outputs; board = w.board }) id done

  -- `put_on_hardware`, for a control and its value so far.
  unfoldable pub put_on_hardware : Hub → Control → Value → Value → Hub × Option Failure
  put_on_hardware h c previous value = elim c.binding [
    | demo ↦ (h, none)
    | mcp23017 p ↦ put_chip_value h c.id p.pin value (find_chip p.bus p.address h.chips)
    | pwm o ↦ put_output_value h c.id o previous value (find_output o.chip o.channel h.outputs)
  ]
