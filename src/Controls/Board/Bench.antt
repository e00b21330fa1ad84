-- ===== src/Controls/Board/Bench.antt =====
-- A board for tests: so many calls succeed, and all later ones fail.
use carnine.Prelude.{ℕ, zero, suc, Bool, true, false, Option, none, some}
use carnine.Controls.Board.{Board}

abbrev take_call : ℕ → ℕ × Bool
take_call zero = (0, false)
take_call (suc n) = (n, true)

abbrev take_read : ℕ → ℕ × Option (ℕ × ℕ)
take_read zero = (0, none)
take_read (suc n) = (n, some (255, 255))

abbrev pub bench : Board
bench = record {
  State = ℕ;
  open_bus = λ path s. take_call s;
  write_bus = λ path address bytes s. take_call s;
  read_bus = λ path address register s. take_read s;
  open_reset = λ chip line s. take_call s;
  set_reset = λ chip line high s. take_call s;
  open_pwm = λ chip channel s. take_call s;
  apply_pwm = λ chip channel period duty s. take_call s;
  disable_pwm = λ chip channel s. take_call s;
  save = λ id value s. s;
}
