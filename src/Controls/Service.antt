-- ===== src/Controls/Service.antt =====
-- `ControlServiceImpl` of src/backend/src/controls.rs: what clients see of the hub, and how they set
-- a control.
mod Shown
mod Replies
mod Tests
use carnine.Prelude.{
  ℕ, Bool, true, false, ◌||◌, not, Option, none, some, List, [], ◌∷◌, map, if◌then◌else◌,
}
use carnine.Prelude.Bytes.{same}
use carnine.Controls.Types.{
  Kind, switch, slider, Control, ControlState, Value, level_min, level_max, SetError,
}
use carnine.Controls.Board.{Board}
use carnine.Controls.Hub.{Hub, Failure, refused, panics}
use carnine.Controls.Hub.Operations.{Reply, replies, fails, set_value}

-- `proto::Control`
pub record ListedControl : Type 0 where
  pub id : List ℕ
  pub name : List ℕ
  pub kind : Kind
  pub min : ℕ
  pub max : ℕ

-- `proto::ControlState`
pub record SentState : Type 0 where
  pub id : List ℕ
  pub value : Option Value
  pub available : Bool

unfoldable pub state_to_proto : ControlState → SentState
state_to_proto s = record { id = s.id; value = some s.value; available = s.available }

abbrev pub range_of : Kind → ℕ × ℕ
range_of switch = (0, 0)
range_of slider = (level_min, level_max)

abbrev pub listed : Control → ListedControl
listed c = record {
  id = c.id;
  name = c.name;
  kind = c.kind;
  min = (range_of c.kind).0;
  max = (range_of c.kind).1;
}

unfoldable pub shown_controls : List Control → List Control
shown_controls [] = []
shown_controls (c ∷ cs) = if c.hidden then shown_controls cs else c ∷ shown_controls cs

unfoldable pub hidden_ids : List Control → List (List ℕ)
hidden_ids [] = []
hidden_ids (c ∷ cs) = if c.hidden then c.id ∷ hidden_ids cs else hidden_ids cs

-- `hidden.contains(id)`
unfoldable pub contains : List ℕ → List (List ℕ) → Bool
contains id [] = false
contains id (h ∷ hs) = same h id || contains id hs

unfoldable pub shown_states : List (List ℕ) → List ControlState → List ControlState
shown_states hidden [] = []
shown_states hidden (s ∷ ss) =
    if contains s.id hidden then shown_states hidden ss else s ∷ shown_states hidden ss

-- The codes of a `tonic::Status`.
pub data Status : Type 0 where
  not_found invalid_argument unavailable internal : Status

-- A call that panics is an error of the blocking task.
unfoldable pub status_of : Failure → Status
status_of (refused SetError.not_found) = not_found
status_of (refused (SetError.invalid_value v)) = invalid_argument
status_of (refused SetError.unavailable) = unavailable
status_of panics = internal

pub data Response : Type 0 where
  ok : SentState → Response
  err : Status → Response

unfoldable pub respond : Reply → Response
unfolding state_to_proto status_of
respond (replies s) = ok (state_to_proto s)
respond (fails f) = err (status_of f)

-- `ControlHub::state`
unfoldable pub find_state : List ℕ → List ControlState → Option ControlState
find_state id [] = none
find_state id (s ∷ ss) = if same s.id id then some s else find_state id ss

module _ (B : Board) where
  unfoldable pub get_controls : Hub B → List ListedControl
  get_controls h = map listed (shown_controls h.controls)

  -- What `stream_control_states` sends for these states: the current ones first, and each change.
  unfoldable pub stream_of : Hub B → List ControlState → List SentState
  stream_of h ss = map state_to_proto (shown_states (hidden_ids h.controls) ss)

  unfoldable pub stream_control_states : Hub B → List SentState
  unfolding stream_of
  stream_control_states h = stream_of h h.states

  unfoldable pub set_control_state : Hub B → List ℕ → Option Value → Hub B × Response
  set_control_state h id none = (h, err invalid_argument)
  set_control_state h id (some value) =
      let (q, reply) = set_value B h id value in (q, respond reply)
