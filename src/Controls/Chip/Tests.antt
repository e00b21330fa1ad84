-- ===== src/Controls/Chip/Tests.antt =====
-- A pin switched on a board that answers, and on one that does not (src/backend/src/controls.rs).
use carnine.Prelude.{◌≡◌, refl, true, false, none}
use carnine.Prelude.Bytes.{codes}
use carnine.Prelude.Bits.{set_bit}
use carnine.Controls.Board.Bench.{bench}
use carnine.Controls.Chip.{
  Mcp23017, call, bus, bus_write, write_latch, put_pin, reset_line, release_reset, write_directions,
  initialise, holds, read_directions, holds_setup, bring_up, recheck, check_setup,
}
use carnine.Controls.Chip.Setup.{Switched, put_pin-Switched}

abbrev expander : Mcp23017
expander = record {
  bus_path = codes "/dev/i2c-1";
  address = 32;
  bus_open = true;
  used_pins = 9;
  latch = 1;
  available = true;
  reset = none;
  reset_open = false;
  missing_reported = false;
}

switched : (put_pin bench (record { chip = expander; board = 1 }) 3 true).0.chip.latch ≡ 9
unfolding put_pin write_latch bus bus_write call set_bit
switched = refl

-- A power cut: the chip answers with its directions lost, and is set up again by two writes.
set_up_again :
    check_setup bench (record { chip = expander; board = 3 })
    ≡ record { chip = expander; board = 0 }
unfolding check_setup recheck holds_setup read_directions holds bus initialise release_reset
    reset_line write_latch write_directions bus_write call
set_up_again = refl

gone : check_setup bench (record { chip = expander; board = 2 }) ≡ record {
  chip = record expander { available = false; missing_reported = true; bus_open = false };
  board = 0;
}
unfolding check_setup recheck holds_setup read_directions holds bus initialise release_reset
    reset_line write_latch write_directions bus_write call
gone = refl

back :
    bring_up bench (record {
      chip = record expander { available = false; bus_open = false; missing_reported = true };
      board = 3;
    })
    ≡ record { chip = expander; board = 0 }
unfolding bring_up bus initialise release_reset reset_line write_latch write_directions bus_write
    call
back = refl

put_pin-Switched_example :
    Switched bench expander 3 true (put_pin bench (record { chip = expander; board = 1 }) 3 true)
put_pin-Switched_example = put_pin-Switched bench (record { chip = expander; board = 1 }) 3 true
