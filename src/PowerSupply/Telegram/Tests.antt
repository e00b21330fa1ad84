-- ===== src/PowerSupply/Telegram/Tests.antt =====
-- Runs of the telegram parser on the inputs of its unit tests, and the theorems at such inputs.
use carnine.Prelude.{ℕ, ◌≡◌, refl, true, false, some, List, [], ◌∷◌, ◌++◌, arith}
use carnine.Prelude.Bytes.{codes}
use carnine.PowerSupply.Telegram.{
  stx, etx, id_kl15, id_alive, id_state, id_voltage, Telegram, ignition, alive, state, voltage,
  text, run, pi_boot, TelegramParser, new_parser, number, from_digit, ignition_of, state_of,
  result_of, decode_payload, decode, line_of, take_text, push_text, push_frame, push, feed,
}
use carnine.PowerSupply.Telegram.Framing.{feed_frame}
use carnine.PowerSupply.Telegram.Report.{report, feed-report}

-- The four telegrams that the firmware sends every second.
abbrev status_second : List ℕ
status_second =
    stx ∷ id_kl15 ∷ b'1' ∷ etx ∷ stx ∷ id_alive ∷ b'3' ∷ etx ∷ stx ∷ id_state ∷ b'3' ∷ etx ∷ stx
    ∷ id_voltage ∷ b'1' ∷ b'3' ∷ b'4' ∷ etx ∷ []

-- Runs the parser in a test.
parse : List ℕ → List Telegram
unfolding number from_digit ignition_of state_of result_of decode_payload decode line_of take_text
    push_text push_frame push feed
parse s = (feed new_parser s).1

parse-status_second : parse status_second ≡ ignition true ∷ alive 3 ∷ state run ∷ voltage 134 ∷ []
unfolding parse
parse-status_second = refl

parse_text : parse (codes "Alive time out !" ++ 13 ∷ 10 ∷ []) ≡ text (codes "Alive time out !") ∷ []
unfolding parse
parse_text = refl

-- A frame without an end, an unknown state and a number with a letter say nothing.
parse_torn :
    parse (
      stx ∷ id_kl15 ∷ b'1' ∷ stx ∷ id_state ∷ b'9' ∷ etx ∷ stx ∷ id_voltage ∷ b'1' ∷ b'x' ∷ etx
      ∷ stx ∷ id_state ∷ b'2' ∷ etx ∷ [])
    ≡ state pi_boot ∷ []
unfolding parse
parse_torn = refl

abbrev half_frame : TelegramParser
half_frame = record { frame = some (id_kl15 ∷ []); overflow = false; text_line = codes "OK" }

abbrev volts : List ℕ
volts = id_voltage ∷ b'1' ∷ b'2' ∷ []

feed_frame_example :
    feed half_frame (stx ∷ volts ++ etx ∷ []) ≡ (new_parser, text (codes "OK") ∷ voltage 12 ∷ [])
unfolding line_of decode decode_payload number
feed_frame_example = feed_frame half_frame volts (ground arith)

feed-report_example :
    feed half_frame (report true 3 run 134)
    ≡ (new_parser, text (codes "OK") ∷ ignition true ∷ alive 3 ∷ state run ∷ voltage 134 ∷ [])
unfolding line_of
feed-report_example = feed-report half_frame true 3 run 134 (omega arith) (omega arith)
