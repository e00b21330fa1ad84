-- ===== src/PowerSupply/Hub.antt =====
-- `PowerSupplyStatus`, `PowerSupplyHub` and `AmplifierRequest` of src/backend/src/power_supply.rs:
-- what the supply last reported, and what the backend wants from the amplifier relay.
-- An instant is a number of milliseconds.
mod Tests
mod Amplifier
use carnine.Prelude.{
  ℕ, ◌-◌, ◌≤◌, Bool, true, false, ◌&&◌, ◌||◌, not, Option, none, some, leb, if◌then◌else◌,
}
use carnine.PowerSupply.Telegram.{
  SupplyState, idle, power_on, pi_boot, run, power_off, Telegram, ignition, alive, state, voltage,
  command_result, text,
}
use native.Mathlib.Decide.{ℕ_discrete}
use carnine.PowerSupply.Version.{FirmwareVersion}

pub record PowerSupplyStatus : Type 0 where
  pub configured : Bool
  pub connected : Bool
  pub ignition_on : Option Bool
  pub supply_state : Option SupplyState
  pub voltage_tenths : Option ℕ
  pub alive_count : Option ℕ
  pub firmware_version : Option FirmwareVersion

-- What a client watches for: all but the alive counter.
pub record Watched : Type 0 where
  pub configured : Bool
  pub connected : Bool
  pub ignition_on : Option Bool
  pub supply_state : Option SupplyState
  pub voltage_tenths : Option ℕ
  pub firmware_version : Option FirmwareVersion

unfoldable pub watched : PowerSupplyStatus → Watched
watched s = record {
  configured = s.configured;
  connected = s.connected;
  ignition_on = s.ignition_on;
  supply_state = s.supply_state;
  voltage_tenths = s.voltage_tenths;
  firmware_version = s.firmware_version;
}

pub Watched-discrete : Discrete Watched
Watched-discrete = hlevel ℕ_discrete

-- `apply`
unfoldable pub apply : PowerSupplyStatus → Telegram → PowerSupplyStatus
apply s (ignition on) = record s { connected = true; ignition_on = some on }
apply s (state st) = record s { connected = true; supply_state = some st }
apply s (voltage tenths) = record s { connected = true; voltage_tenths = some tenths }
apply s (alive count) = record s { connected = true; alive_count = some count }
apply s (command_result ok) = record s { connected = true }
apply s (text line) = record s { connected = true }

pub record AmplifierRequest : Type 0 where
  pub enabled : Bool
  pub ready_since : Option ℕ
  pub stopping : Bool
  pub sent : Option Bool

pub record PowerSupplyHub : Type 0 where
  pub status : PowerSupplyStatus
  pub request : AmplifierRequest

abbrev pub amplifier_on_delay : ℕ
amplifier_on_delay = 2000

-- `PowerSupplyHub::new`
abbrev pub new_hub : Bool → PowerSupplyHub
new_hub configured = record {
  status = record {
    configured = configured;
    connected = false;
    ignition_on = none;
    supply_state = none;
    voltage_tenths = none;
    alive_count = none;
    firmware_version = none;
  };
  request = record { enabled = false; ready_since = none; stopping = false; sent = none };
}

-- `with_amplifier_relay`
unfoldable pub with_amplifier_relay : PowerSupplyHub → Bool → PowerSupplyHub
with_amplifier_relay h enabled = record h { request = record (h.request) { enabled = enabled } }

abbrev pub is_run : Option SupplyState → Bool
is_run (some run) = true
is_run _ = false

abbrev pub ready_for : Option ℕ → ℕ → Bool
ready_for none now = false
ready_for (some since) now = leb amplifier_on_delay (now - since)

abbrev pub is_some {ℓ} : {A : Type ℓ} → Option A → Bool
is_some none = false
is_some (some a) = true

-- `self.sent == Some(on)`
abbrev pub sent_is : Option Bool → Bool → Bool
sent_is none on = false
sent_is (some true) on = on
sent_is (some false) on = not on

-- `AmplifierRequest::wanted`
unfoldable pub wanted : AmplifierRequest → PowerSupplyStatus → ℕ → Bool
wanted r s now = not r.stopping && (is_run s.supply_state && ready_for r.ready_since now)

-- `AmplifierRequest::decide`
unfoldable pub decide : AmplifierRequest → PowerSupplyStatus → ℕ → AmplifierRequest × Option Bool
unfolding wanted
decide r s now =
    if not r.enabled
    then (r, none)
    else if not s.connected
    then (record r { sent = none }, none)
    else (r, if sent_is r.sent (wanted r s now) then none else some (wanted r s now))

-- `amplifier_switch`
unfoldable pub amplifier_switch : PowerSupplyHub → ℕ → PowerSupplyHub × Option Bool
unfolding decide
amplifier_switch h now =
    let (r, switch) = decide h.request h.status now in (record h { request = r }, switch)

-- `amplifier_sent`
unfoldable pub amplifier_sent : PowerSupplyHub → Bool → PowerSupplyHub
amplifier_sent h on = record h { request = record (h.request) { sent = some on } }

-- `amplifier_unknown`
unfoldable pub amplifier_unknown : PowerSupplyHub → PowerSupplyHub
amplifier_unknown h = record h { request = record (h.request) { sent = none } }

-- `ui_ready`, called at the instant `now`.
unfoldable pub ui_ready : PowerSupplyHub → ℕ → PowerSupplyHub
ui_ready h now =
    if is_some h.request.ready_since || h.request.stopping
    then h
    else record h { request = record (h.request) { ready_since = some now } }

-- How `switch_amplifier_off` goes on once it has asked: it returns, or waits for the sender.
pub data OffCall : Type 0 where
  returns waits : OffCall

-- `switch_amplifier_off` up to the wait.
unfoldable pub switch_amplifier_off : PowerSupplyHub → PowerSupplyHub × OffCall
switch_amplifier_off h =
    let h' = record h { request = record (h.request) { stopping = true } } in
    if not h.request.enabled || not (sent_is h.request.sent true)
    then (h', returns)
    else (h', waits)

pub data OffEnd : Type 0 where
  timed_out settled : OffEnd

-- The end of the wait, by the relay's state that `wait_timeout_while` leaves it with.
unfoldable pub off_end : PowerSupplyHub → OffEnd
off_end h = if sent_is h.request.sent true then timed_out else settled

-- `update`: the new status, and whether the subscribers are woken.
unfoldable pub update :
    PowerSupplyHub → (PowerSupplyStatus → PowerSupplyStatus) → PowerSupplyHub × Bool
unfolding watched
update h change =
    let after = change h.status in
    (
      record h { status = after },
      elim (Watched-discrete (watched after) (watched h.status)) [ yes e ↦ false | no n ↦ true ],
    )
