-- ===== src/PowerSupply/Telegram.antt =====
-- The byte stream of the power supply (src/backend/src/power_supply.rs): `TelegramParser` picks
-- telegrams `STX <id> <payload> ETX` out of it, and what stands between them is debug text.
-- A byte is a number; text is a list of bytes, which the parser keeps printable.
mod Framing
mod Bounds
mod Report
mod Tests
use carnine.Prelude.{
  ℕ, ◌^◌, Bool, true, false, ◌||◌, not, Option, none, some, List, [], ◌∷◌, ◌++◌, ltb, ◌==◌,
  if◌then◌else◌, length, all, min,
}
use carnine.Prelude.Bytes.{is_digit, is_graphic, is_empty, trim, parse_below}
use mathlib.Core.Option

abbrev pub stx : ℕ
stx = 0x02

abbrev pub etx : ℕ
etx = 0x03

abbrev pub ack : ℕ
ack = 0x06

abbrev pub id_kl15 : ℕ
id_kl15 = 0x10

abbrev pub id_alive : ℕ
id_alive = 0x11

abbrev pub id_state : ℕ
id_state = 0x12

abbrev pub id_command_result : ℕ
id_command_result = 0x13

abbrev pub id_voltage : ℕ
id_voltage = 0x14

abbrev pub max_payload : ℕ
max_payload = 8

abbrev pub max_text_line : ℕ
max_text_line = 160

pub data SupplyState : Type 0 where
  idle power_on pi_boot run power_off : SupplyState

-- `SupplyState::from_digit`
pub from_digit : ℕ → Option SupplyState
from_digit digit =
    if digit == b'0'
    then some idle
    else if digit == b'1'
    then some power_on
    else if digit == b'2'
    then some pi_boot
    else if digit == b'3'
    then some run
    else if digit == b'4'
    then some power_off
    else none

pub data Telegram : Type 0 where
  ignition : Bool → Telegram
  alive : ℕ → Telegram
  state : SupplyState → Telegram
  voltage : ℕ → Telegram
  command_result : Bool → Telegram
  text : List ℕ → Telegram

pub record TelegramParser : Type 0 where
  pub frame : Option (List ℕ)
  pub overflow : Bool
  pub text_line : List ℕ

-- `TelegramParser::default`
abbrev pub new_parser : TelegramParser
new_parser = record { frame = none; overflow = false; text_line = [] }

-- `number`: a row of digits that fits a u32.
pub number : List ℕ → Option ℕ
number digits =
    if is_empty digits || not (all is_digit digits) then none else parse_below (2 ^ 32) digits

ignition_of : List ℕ → Option Telegram
ignition_of (c ∷ []) =
    if c == b'0' then some (ignition false) else if c == b'1' then some (ignition true) else none
ignition_of _ = none

state_of : List ℕ → Option Telegram
state_of (digit ∷ []) = Option.map state (from_digit digit)
state_of _ = none

result_of : List ℕ → Option Telegram
result_of (result ∷ []) = some (command_result (result == ack))
result_of _ = none

-- The `match id` at the end of `push`.
pub decode_payload : ℕ → List ℕ → Option Telegram
decode_payload id payload =
    if id == id_kl15
    then ignition_of payload
    else if id == id_alive
    then Option.map (λ count. alive (min count 255)) (number payload)
    else if id == id_state
    then state_of payload
    else if id == id_voltage
    then Option.map (λ tenths. voltage (min tenths 65535)) (number payload)
    else if id == id_command_result
    then result_of payload
    else none

-- `frame.split_first()?`
pub decode : List ℕ → Option Telegram
decode [] = none
decode (id ∷ payload) = decode_payload id payload

-- The line that is due, trimmed; an empty one is none.
pub line_of : List ℕ → Option Telegram
line_of s = let line = trim s in if is_empty line then none else some (text line)

-- `take_text`
pub take_text : TelegramParser → TelegramParser × Option Telegram
take_text p = (record p { text_line = [] }, line_of p.text_line)

-- `push_text`
pub push_text : TelegramParser → ℕ → TelegramParser × Option Telegram
push_text p byte =
    if byte == b'\r' || byte == b'\n'
    then take_text p
    else if is_graphic byte || byte == b' '
    then (
      if ltb (length p.text_line) max_text_line
          then record p { text_line = p.text_line ++ byte ∷ [] }
          else p,
      none,
    )
    else (p, none)

-- A byte within the frame `body`.
push_frame : TelegramParser → List ℕ → ℕ → TelegramParser × Option Telegram
push_frame p body byte =
    if byte == etx
    then (record p { frame = none; overflow = false }, if p.overflow then none else decode body)
    else if ltb max_payload (length body)
    then (record p { overflow = true }, none)
    else (record p { frame = some (body ++ byte ∷ []) }, none)

-- `push`
pub push : TelegramParser → ℕ → TelegramParser × Option Telegram
push p byte =
    if byte == stx
    then take_text (record p { frame = some []; overflow = false })
    else elim p.frame [ none ↦ push_text p byte | some body ↦ push_frame p body byte ]

-- The telegrams that a row of bytes completes, in their order, and the parser after it.
pub feed : TelegramParser → List ℕ → TelegramParser × List Telegram
feed p [] = (p, [])
feed p (byte ∷ bytes) =
    let (p', done) = push p byte in
    let (q, rest) = feed p' bytes in (q, elim done [ none ↦ rest | some t ↦ t ∷ rest ])
