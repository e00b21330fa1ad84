-- ===== src/PowerSupply/Sender.antt =====
-- One connection to the supply (src/backend/src/power_supply.rs): `run_line` with its sender thread
-- `send_alive` and its reader `read_telegrams`, cut into the sections between which the threads may
-- interleave. An instant is a number of milliseconds, and each section has its own.
mod Actions
mod Rounds
mod Stopping
mod Tests
use carnine.Prelude.{
  ℕ, zero, suc, ◌+◌, ◌-◌, Bool, true, false, ◌&&◌, not, Option, none, some, List, [], ◌∷◌, ◌++◌,
  ltb, leb, ◌==◌, if◌then◌else◌,
}
use carnine.Prelude.Bytes.{codes, same}
use carnine.PowerSupply.Telegram.{
  SupplyState, idle, power_on, pi_boot, run, power_off, Telegram, ignition, alive, state, voltage,
  command_result, text, TelegramParser, new_parser, feed,
}
use carnine.PowerSupply.Version.{parse}
use carnine.PowerSupply.Hub.{
  PowerSupplyStatus, PowerSupplyHub, apply, update, amplifier_switch, amplifier_sent,
  amplifier_unknown,
}

-- What goes out on the line: the byte strings `ALIVE`, `AMPLIFIER_ON`, `AMPLIFIER_OFF`,
-- `VERSION_QUERY` and `BOOTLOADER_START`.
pub data Message : Type 0 where
  sign_of_life amplifier_on amplifier_off version_query bootloader_start : Message

abbrev pub bytes : Message → List ℕ
bytes sign_of_life = codes "+"
bytes amplifier_on = codes "3"
bytes amplifier_off = codes "6"
bytes version_query = codes "v"
bytes bootloader_start = 13 ∷ codes "Start" ++ 13 ∷ []

abbrev pub start_interval : ℕ
start_interval = 5000

abbrev pub version_answer_timeout : ℕ
version_answer_timeout = 5000

abbrev pub silence_timeout : ℕ
silence_timeout = 3000

pub record VersionQuery : Type 0 where
  pub asked_at : Option ℕ
  pub warned : Bool

abbrev pub new_query : VersionQuery
new_query = record { asked_at = none; warned = false }

pub data VersionStep : Type 0 where
  nothing ask no_answer : VersionStep

abbrev is_none {ℓ} : {A : Type ℓ} → Option A → Bool
is_none none = true
is_none (some a) = false

-- `VersionQuery::next`
unfoldable pub next : VersionQuery → PowerSupplyStatus → ℕ → VersionQuery × VersionStep
next q status now = elim q.asked_at [
  | none ↦ if status.connected then (record q { asked_at = some now }, ask) else (q, nothing)
  | some asked_at ↦
      if is_none status.firmware_version
        && (not q.warned && leb version_answer_timeout (now - asked_at))
      then (record q { warned = true }, no_answer)
      else (q, nothing)
]

abbrev pub keeps_alive : Option SupplyState → Bool
keeps_alive (some pi_boot) = true
keeps_alive (some run) = true
keeps_alive _ = false

-- `holds_back`
unfoldable pub holds_back : Bool → Option SupplyState → Bool
holds_back quiet last_state = quiet && not (keeps_alive last_state)

-- `start_due`
unfoldable pub start_due : Option ℕ → ℕ → Bool
start_due none now = true
start_due (some sent) now = leb start_interval (now - sent)

-- The line accepts `room` more messages and fails then; the newest message stands first.
pub record Line : Type 0 where
  pub written : List Message
  pub room : ℕ

-- Where the sender stands in its loop.
pub data Phase : Type 0 where
  top starting switching : Phase
  writing : Option Bool → Phase
  noting : Bool → Phase
  asking waiting stopped failed : Phase

pub record World : Type 0 where
  pub hub : PowerSupplyHub
  pub last_heard : ℕ
  pub stop : Bool
  pub parser : TelegramParser
  pub phase : Phase
  pub silent : Bool
  pub holding_back : Bool
  pub start_sent : Option ℕ
  pub version : VersionQuery
  pub line : Line

-- `write_all`, and where the sender goes on: it ends where the line fails.
unfoldable pub write_all : World → Message → Phase → World
write_all w m then_phase = elim w.line.room [
  | zero ↦ record w { phase = failed }
  | suc room ↦ record w {
    phase = then_phase;
    line = record { written = m ∷ w.line.written; room = room };
  }
]

abbrev forget : PowerSupplyStatus → PowerSupplyStatus
forget s = record s { connected = false; firmware_version = none }

-- The supply has just fallen silent.
notice_silence : World → World
notice_silence w = record w { hub = (update w.hub forget).0; version = new_query }

-- From the head of the loop up to `holding_back = hold_back`.
look : World → ℕ → World
look w now =
    let quiet = ltb silence_timeout (now - w.last_heard) in
    let w' = if quiet && not w.silent then notice_silence w else w in
    record w' {
      silent = quiet;
      holding_back = holds_back quiet w'.hub.status.supply_state;
      phase = starting;
    }

-- The bootloader's `Start`; a sender that holds back goes on waiting.
start : World → ℕ → World
start w now =
    let after = if w.holding_back then waiting else switching in
    if not w.silent
    then record w { start_sent = none; phase = after }
    else if start_due w.start_sent now
    then write_all (record w { start_sent = some now }) bootloader_start after
    else record w { phase = after }

switch : World → ℕ → World
switch w now =
    let (hub, sw) = amplifier_switch w.hub now in record w { hub = hub; phase = writing sw }

write : World → Option Bool → World
write w none = write_all w sign_of_life asking
write w (some on) = write_all w (if on then amplifier_on else amplifier_off) (noting on)

note : World → Bool → World
note w on = record w { hub = amplifier_sent w.hub on; phase = asking }

abbrev ask_version : World → VersionStep → World
ask_version w ask = write_all w version_query waiting
ask_version w nothing = record w { phase = waiting }
ask_version w no_answer = record w { phase = waiting }

query : World → ℕ → World
query w now =
    let (version, todo) = next w.version w.hub.status now in
    ask_version (record w { version = version }) todo

section_of : Phase → World → ℕ → World
section_of top w now = if w.stop then record w { phase = stopped } else look w now
section_of starting w now = start w now
section_of switching w now = switch w now
section_of (writing sw) w now = write w sw
section_of (noting on) w now = note w on
section_of asking w now = query w now
section_of waiting w now = record w { phase = top }
section_of stopped w now = w
section_of failed w now = w

-- One section of `send_alive`, at the instant `now`.
pub advance : World → ℕ → World
advance w now = section_of w.phase w now

-- The head of `run_line`, on a line that accepts `room` messages.
unfoldable pub connect : PowerSupplyHub → ℕ → ℕ → World
connect hub now room = record {
  hub = (update (amplifier_unknown hub) (λ s. record s { firmware_version = none })).0;
  last_heard = now;
  stop = false;
  parser = new_parser;
  phase = top;
  silent = false;
  holding_back = false;
  start_sent = none;
  version = new_query;
  line = record { written = []; room = room };
}

-- A text line that is no telegram: the bootloader's answer, the firmware version, or debug output.
hear_text : World → List ℕ → World
hear_text w s = if same s (codes "OK") then w else elim (parse s) [
  | none ↦ w
  | some v ↦ record w { hub = (update w.hub (λ st. record st { firmware_version = some v })).0 }
]

hear_report : World → ℕ → Telegram → World
hear_report w now t = record w { last_heard = now; hub = (update w.hub (λ s. apply s t)).0 }

-- What `read_telegrams` does with one telegram.
pub hear : World → ℕ → Telegram → World
hear w now (text s) = hear_text w s
hear w now (ignition on) = hear_report w now (ignition on)
hear w now (alive n) = hear_report w now (alive n)
hear w now (state s) = hear_report w now (state s)
hear w now (voltage n) = hear_report w now (voltage n)
hear w now (command_result ok) = hear_report w now (command_result ok)

pub hear_all : World → ℕ → List Telegram → World
hear_all w now [] = w
hear_all w now (t ∷ ts) = hear_all (hear w now t) now ts

-- One buffer read off the line; an empty one is its end, and stops the sender.
pub read : World → ℕ → List ℕ → World
read w now [] = record w { stop = true }
read w now (c ∷ buffer) =
    let (parser, telegrams) = feed w.parser (c ∷ buffer) in
    hear_all (record w { parser = parser }) now telegrams
