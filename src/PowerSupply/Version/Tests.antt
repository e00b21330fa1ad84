-- ===== src/PowerSupply/Version/Tests.antt =====
-- `FirmwareVersion` on lines that the supply may send (src/backend/src/power_supply.rs).
use carnine.Prelude.{◌≡◌, refl, none, some, arith}
use carnine.Prelude.Bytes.{codes}
use carnine.PowerSupply.Version.{FirmwareVersion, parse, display}
use carnine.PowerSupply.Version.Laws.{parse-display}

abbrev v2_4_1 : FirmwareVersion
v2_4_1 = record { major = 2; minor = 4; patch = 1 }

parse_line : parse (codes " V2.4.1 ") ≡ some v2_4_1
unfolding parse
parse_line = refl

parse_too_long : parse (codes "V2.4.1.0") ≡ none
unfolding parse
parse_too_long = refl

parse_too_large : parse (codes "V2.4.65536") ≡ none
unfolding parse
parse_too_large = refl

parse-display_example : parse (display v2_4_1) ≡ some v2_4_1
parse-display_example = parse-display v2_4_1 (omega arith)
