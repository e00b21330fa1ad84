-- ===== src/Controls/Hub/Operations.antt =====
-- The public operations of `ControlHub` (src/backend/src/controls.rs).
mod Stopped
mod Setting
mod Overheat
pub mod Build
pub mod Start
mod Tests
use carnine.Prelude.{
  ℕ, zero, suc, ◌+◌, Bool, true, false, ◌&&◌, ◌||◌, not, Option, none, some, List, [], ◌∷◌, ◌++◌,
  ◌==◌, leb, if◌then◌else◌, get_elem?, set,
}
use carnine.Prelude.Bytes.{same}
use carnine.Controls.Types.{
  Kind, switch, slider, Output, Binding, demo, mcp23017, pwm, Control, ControlState, Value, on,
  level, SetError, not_found, invalid_value, unavailable, off_value, level_max,
}
use carnine.Controls.Board.{Board}
use carnine.Controls.Chip.{Mcp23017}
use carnine.Controls.Chip
use carnine.Controls.Output.{PwmOutput}
use carnine.Controls.Output
use carnine.Controls.Hub.Maps.{
  find_chip, put_chip, find_output, put_output, find_value, remove_value, insert_value,
}
use carnine.Controls.Hub.{
  Hub, Failure, refused, panics, put_on_hardware, refresh, announce, same_bool,
}

-- `iter().position(|control| control.id == id)`, counted from `i`.
unfoldable pub position : List ℕ → List Control → ℕ → Option ℕ
position id [] i = none
position id (c ∷ cs) i = if same c.id id then some i else position id cs (suc i)

-- Whether a value is one of the control's kind.
unfoldable pub fits : Kind → Value → Bool
fits switch (on b) = true
fits slider (level n) = leb n level_max
fits switch (level n) = false
fits slider (on b) = false

pub full : Kind → Value
full switch = on true
full slider = level level_max

pub data Reply : Type 0 where
  replies : ControlState → Reply
  fails : Failure → Reply

module _ (B : Board) where
  open B use {State, save, set_reset, disable_pwm}

  -- A boosted control keeps its full value; the one that is set is kept for afterwards.
  unfoldable pub set_boosted : Hub B → Control → ControlState → Value → Hub B × Reply
  set_boosted h c s value = (
    record h {
      normal = insert_value c.id value h.normal;
      board = save c.id value h.board;
      sent = s ∷ h.sent;
    },
    replies s,
  )

  unfoldable pub reply_plain : Hub B → ℕ → Control → Value → Option Failure → Hub B × Reply
  reply_plain h index c value (some f) = (h, fails f)
  reply_plain h index c value none =
      let s : ControlState = record { id = c.id; value = value; available = true } in
      (
        record h {
          states = set h.states index s;
          board = save c.id value h.board;
          sent = s ∷ h.sent;
        },
        replies s,
      )

  unfoldable pub set_plain : Hub B → ℕ → Control → ControlState → Value → Hub B × Reply
  set_plain h index c s value =
      let (h', failure) = put_on_hardware B h c s.value value in
      reply_plain h' index c value failure

  unfoldable pub set_known :
      Hub B → ℕ → Option Control → Option ControlState → Value → Hub B × Reply
  set_known h index (some c) (some s) value =
      if not (fits c.kind value)
      then (h, fails (refused (invalid_value value)))
      else if h.boosting && c.boost
      then set_boosted h c s value
      else set_plain h index c s value
  set_known h index _ _ value = (h, fails panics)

  -- `ControlHub::set`
  unfoldable pub set_value : Hub B → List ℕ → Value → Hub B × Reply
  set_value h id value =
      if h.shutting_down
      then (h, fails (refused unavailable))
      else elim (position id h.controls 0) [
        | none ↦ (h, fails (refused not_found))
        | some index ↦
            set_known h index (get_elem? h.controls index) (get_elem? h.states index) value
      ]

  -- The values that a boosted control takes, and what is kept of its own.
  pub target_of : Hub B → Bool → Control → ControlState → Value × Hub B
  target_of h true c s = (full c.kind, record h { normal = insert_value c.id s.value h.normal })
  target_of h false c s = (
    elim (find_value c.id h.normal) [ none ↦ s.value | some v ↦ v ],
    record h { normal = remove_value c.id h.normal },
  )

  -- The state follows where the hardware took the value. An index out of range cannot come here, and
  -- changes nothing.
  follow : Hub B → ℕ → Value → Option Failure → Option ControlState → Hub B
  follow h index target (some f) s = h
  follow h index target none none = h
  follow h index target none (some s) =
      let s' : ControlState = record s { value = target } in
      record h { states = set h.states index s'; sent = s' ∷ h.sent }

  boost_apply : Hub B → ℕ → Control → Value → Value → Hub B
  boost_apply h index c previous target =
      let (q, failure) = put_on_hardware B h c previous target in
      follow q index target failure (get_elem? q.states index)

  -- The turn of one boosted control. A chip that does not answer keeps the old value in the state.
  pub boost_one : Hub B → Bool → ℕ → Control → Option ControlState → Hub B
  boost_one h overheated index c none = h
  boost_one h overheated index c (some s) =
      let (target, h') = target_of h overheated c s in boost_apply h' index c s.value target

  -- The loop of `set_overheated`, over the controls from `index` on.
  pub boost_from : Hub B → Bool → ℕ → List Control → Hub B
  boost_from h overheated index [] = h
  boost_from h overheated index (c ∷ cs) =
      boost_from (if c.boost then boost_one h overheated index c (get_elem? h.states index) else h)
        overheated (suc index) cs

  -- `ControlHub::set_overheated`
  pub set_overheated : Hub B → Bool → Hub B
  set_overheated h overheated =
      if h.shutting_down || same_bool h.boosting overheated
      then h
      else boost_from (record h { boosting = overheated }) overheated 0 h.controls

  disable_one : Option PwmOutput → List ℕ → ℕ → State → State
  disable_one none chip channel board = board
  disable_one (some out) chip channel board =
      if out.channel_open then (disable_pwm chip channel board).0 else board

  stop_output : List PwmOutput → Binding → State → State
  stop_output outputs (pwm o) board =
      if o.off_on_exit
      then disable_one (find_output o.chip o.channel outputs) o.chip o.channel board
      else board
  stop_output outputs _ board = board

  stop_outputs : List PwmOutput → List Control → State → State
  stop_outputs outputs [] board = board
  stop_outputs outputs (c ∷ cs) board =
      stop_outputs outputs cs (stop_output outputs c.binding board)

  hold_reset : Mcp23017 → Option (List ℕ × ℕ) → State → State
  hold_reset c none board = board
  hold_reset c (some (chip, line)) board =
      if c.reset_open then (set_reset chip line false board).0 else board

  hold_resets : List Mcp23017 → State → State
  hold_resets [] board = board
  hold_resets (c ∷ cs) board = hold_resets cs (hold_reset c c.reset board)

  -- `ControlHub::shut_down`; a failure is only logged.
  pub shut_down : Hub B → Hub B
  shut_down h = record h {
    shutting_down = true;
    board = hold_resets h.chips (stop_outputs h.outputs h.controls h.board);
  }

  abbrev Chips : Type 0
  Chips = List Mcp23017 × State

  -- Each chip in turn, the board passed on from one to the next.
  pub through : (Mcp23017 → Bool) → (Chip.Wire B → Chip.Wire B) → List Mcp23017 → State → Chips
  through due step [] board = ([], board)
  through due step (c ∷ cs) board =
      let w =
        if due c
        then step (record { chip = c; board = board })
        else record { chip = c; board = board } in
      let (rest, board') = through due step cs w.board in (w.chip ∷ rest, board')

  bring_up_output : Hub B → Output → Control → ControlState → Option PwmOutput → Hub B
  bring_up_output h o c s none = h
  bring_up_output h o c s (some out) =
      if out.available
      then h
      else (let (w, done) =
            Output.drive_pwm B o (off_value c) s.value (record { output = out; board = h.board }) in
          let out' = if done then w.output else record (w.output) { missing_reported = true } in
          record h { outputs = put_output out' h.outputs; board = w.board })

  bring_up_control : Hub B → Control → ControlState → Binding → Hub B
  bring_up_control h c s (pwm o) = bring_up_output h o c s (find_output o.chip o.channel h.outputs)
  bring_up_control h c s _ = h

  -- `bring_up_pwm`
  pub bring_up_pwm : Hub B → List Control → List ControlState → Hub B
  bring_up_pwm h (c ∷ cs) (s ∷ ss) = bring_up_pwm (bring_up_control h c s c.binding) cs ss
  bring_up_pwm h _ _ = h

  -- `ControlHub::retry_unavailable`
  pub retry_unavailable : Hub B → Hub B
  retry_unavailable h =
      if h.shutting_down
      then h
      else (let (checked, board) =
            through (λ c. c.available) (Chip.check_setup B) h.chips h.board in
          let (chips, board') = through (λ c. not c.available) (Chip.bring_up B) checked board in
          let q = bring_up_pwm (record h { chips = chips; board = board' }) h.controls h.states in
          let (states, changed) = refresh q.chips q.outputs q.controls q.states in
          record q { states = states; sent = announce changed q.sent })
