-- ===== src/PowerSupply/Telegram/Report.antt =====
-- The report that the supply sends every second, as the module comment of
-- src/backend/src/power_supply.rs describes it, read back by `TelegramParser`.
use carnine.Prelude.{
  ℕ, ◌^◌, ◌≤◌, ◌<◌, ◌≡◌, refl, Bool, true, false, some, List, [], ◌∷◌, ◌++◌, arith, if◌then◌else◌,
  All, ap, append_assoc, ◌∙◌, to_list,
}
use carnine.Prelude.Bytes.Decimal.{
  decimal, IsDigit, decimal-IsDigit, is_empty-decimal, all-digits, parse_below-decimal,
  length-decimal,
}
use carnine.PowerSupply.Telegram.{
  stx, etx, id_kl15, id_alive, id_state, id_voltage, SupplyState, idle, power_on, pi_boot, run,
  power_off, Telegram, ignition, alive, state, voltage, TelegramParser, new_parser, from_digit,
  ignition_of, state_of, number, decode, decode_payload, line_of, feed,
}
use carnine.PowerSupply.Telegram.Framing.{IsInner, feed-append, feed_frame, frame_telegram}

-- The digit of a state on the wire.
abbrev pub to_digit : SupplyState → ℕ
to_digit idle = b'0'
to_digit power_on = b'1'
to_digit pi_boot = b'2'
to_digit run = b'3'
to_digit power_off = b'4'

abbrev frame_of : List ℕ → List ℕ
frame_of body = stx ∷ body ++ etx ∷ []

-- Ignition, alive counter, state and voltage, each in a frame of its own.
abbrev pub report : Bool → ℕ → SupplyState → ℕ → List ℕ
report on count s tenths =
    frame_of (id_kl15 ∷ (if on then b'1' else b'0') ∷ [])
    ++ (frame_of (id_alive ∷ decimal count)
        ++ (frame_of (id_state ∷ to_digit s ∷ []) ++ frame_of (id_voltage ∷ decimal tenths)))

digits-IsInner : (s : List ℕ) → All IsDigit s → All IsInner s
digits-IsInner [] h = tt
digits-IsInner (c ∷ s) h = (ground (arith, h.0), digits-IsInner s h.1)

number-decimal : (n : ℕ) → n < 2 ^ 32 → number (decimal n) ≡ some n
unfolding number
number-decimal n h =
    rw (is_empty-decimal n, all-digits (decimal n) (decimal-IsDigit n))
      (parse_below-decimal (2 ^ 32) n h)

frame-number : (id n : ℕ) → n ≤ 65535 → frame_telegram (id ∷ decimal n) ≡ decode (id ∷ decimal n)
frame-number id n h = ground (arith, length-decimal 4 n)

-- A frame that says `t`, and more after it.
feed_then :
    (p : TelegramParser) (body rest : List ℕ) (t : Telegram)
    → All IsInner body
    → frame_telegram body ≡ some t
    → feed p (frame_of body ++ rest) ≡ (
      (feed new_parser rest).0,
      (to_list (line_of p.text_line) ++ t ∷ []) ++ (feed new_parser rest).1,
    )
feed_then p body rest t h e = feed-append p (frame_of body) rest ∙ rw (feed_frame p body h, e) refl

feed_last :
    (body : List ℕ) (t : Telegram)
    → All IsInner body
    → frame_telegram body ≡ some t
    → feed new_parser (frame_of body) ≡ (new_parser, t ∷ [])
unfolding line_of
feed_last body t h e = feed_frame new_parser body h ∙ rw e refl

ignition_frame :
    (on : Bool) → frame_telegram (id_kl15 ∷ (if on then b'1' else b'0') ∷ []) ≡ some (ignition on)
unfolding decode decode_payload ignition_of
ignition_frame true = refl
ignition_frame false = refl

state_frame : (s : SupplyState) → frame_telegram (id_state ∷ to_digit s ∷ []) ≡ some (state s)
unfolding decode decode_payload state_of from_digit
state_frame idle = refl
state_frame power_on = refl
state_frame pi_boot = refl
state_frame run = refl
state_frame power_off = refl

alive_frame : (n : ℕ) → n ≤ 255 → frame_telegram (id_alive ∷ decimal n) ≡ some (alive n)
unfolding decode decode_payload
alive_frame n h =
    frame-number id_alive n (omega arith)
    ∙ rw (number-decimal n (omega arith)) (ap (λ k. some (alive k)) (omega arith))

voltage_frame : (n : ℕ) → n ≤ 65535 → frame_telegram (id_voltage ∷ decimal n) ≡ some (voltage n)
unfolding decode decode_payload
voltage_frame n h =
    frame-number id_voltage n h
    ∙ rw (number-decimal n (omega arith)) (ap (λ k. some (voltage k)) (omega arith))

to_digit-IsInner : (s : SupplyState) → IsInner (to_digit s)
to_digit-IsInner s = ground arith

-- From any parser state, also in the middle of a frame, the report of a second gives the pending
-- debug line, if there is one, and then ignition, alive counter, state and voltage as they were
-- sent, for a counter of a byte and a voltage of two.
pub feed-report :
    (p : TelegramParser) (on : Bool) (count : ℕ) (s : SupplyState) (tenths : ℕ)
    → count ≤ 255
    → tenths ≤ 65535
    → feed p (report on count s tenths) ≡ (
      new_parser,
      to_list (line_of p.text_line) ++ ignition on ∷ alive count ∷ state s ∷ voltage tenths ∷ [],
    )
unfolding line_of
feed-report p on count s tenths hc ht =
    feed_then p (id_kl15 ∷ (if on then b'1' else b'0') ∷ []) after_ignition (ignition on)
      (ground arith) (ignition_frame on)
    ∙ rw (rest_read) (ap (λ l. (new_parser, l)) (append_assoc _ (ignition on ∷ []) _))
  where
    digits : (id n : ℕ) → IsInner id → All IsInner (id ∷ decimal n)
    digits id n h = (h, digits-IsInner (decimal n) (decimal-IsDigit n))

    after_state : List ℕ
    after_state = frame_of (id_voltage ∷ decimal tenths)

    after_alive : List ℕ
    after_alive = frame_of (id_state ∷ to_digit s ∷ []) ++ after_state

    after_ignition : List ℕ
    after_ignition = frame_of (id_alive ∷ decimal count) ++ after_alive

    alive_read : feed new_parser after_alive ≡ (new_parser, state s ∷ voltage tenths ∷ [])
    alive_read =
        feed_then new_parser (id_state ∷ to_digit s ∷ []) after_state (state s)
          (ground (arith, to_digit-IsInner s)) (state_frame s)
        ∙ rw
            (feed_last (id_voltage ∷ decimal tenths) (voltage tenths)
              (digits id_voltage tenths (omega arith)) (voltage_frame tenths ht))
            refl

    rest_read :
        feed new_parser after_ignition ≡ (new_parser, alive count ∷ state s ∷ voltage tenths ∷ [])
    rest_read =
        feed_then new_parser (id_alive ∷ decimal count) after_alive (alive count)
          (digits id_alive count (omega arith)) (alive_frame count hc)
        ∙ rw alive_read refl
