-- ===== src/Controls/Chip.antt =====
-- `Mcp23017` of src/backend/src/controls.rs: the driver of one port expander.
mod Setup
mod Tests
use carnine.Prelude.{
  ℕ, ◌+◌, ◌-◌, ◌/◌, ◌%◌, Bool, true, false, ◌&&◌, Option, none, some, List, [], ◌∷◌, ◌==◌,
  if◌then◌else◌,
}
use carnine.Prelude.Bits.{set_bit, clear_bit}
use carnine.Controls.Board.{Board, Io, ok, err, M, ◌>>=◌, ◌>>◌, pure}

pub record Mcp23017 : Type 0 where
  pub bus_path : List ℕ
  pub address : ℕ
  pub bus_open : Bool
  pub used_pins : ℕ
  pub latch : ℕ
  pub available : Bool
  pub reset : Option (List ℕ × ℕ)
  pub reset_open : Bool
  pub missing_reported : Bool

abbrev pub iodira : ℕ
iodira = 0x00

abbrev pub olata : ℕ
olata = 0x14

-- `to_le_bytes` of a u16 behind a register's number.
abbrev pub register_pair : ℕ → ℕ → List ℕ
register_pair register n = register ∷ n % 256 ∷ n / 256 ∷ []

-- `!n` of a u16
abbrev pub not_u16 : ℕ → ℕ
not_u16 n = 65535 - n

module _ (B : Board) where
  open B use {State, open_bus, write_bus, read_bus, open_reset, set_reset}

  -- The driver with the board behind it.
  pub record Wire : Type 0 where
    pub chip : Mcp23017
    pub board : State

  -- A call of the board, and what it makes of the driver where it succeeds.
  unfoldable pub call : (State → State × Bool) → (Mcp23017 → Mcp23017) → M Wire (Unit {0})
  call f change w =
      let (board, done) = f w.board in
      if done
      then ok tt (record { chip = change w.chip; board = board })
      else err (record { chip = w.chip; board = board })

  abbrev pub same_chip : Mcp23017 → Mcp23017
  same_chip c = c

  -- `bus`
  unfoldable pub bus : M Wire (Unit {0})
  bus w =
      if w.chip.bus_open
      then ok tt w
      else call (open_bus w.chip.bus_path) (λ c. record c { bus_open = true }) w

  unfoldable pub bus_write : List ℕ → M Wire (Unit {0})
  bus_write bytes w = call (write_bus w.chip.bus_path w.chip.address bytes) same_chip w

  unfoldable pub reset_line : Option (List ℕ × ℕ) → Bool → M Wire (Unit {0})
  reset_line none is_open = pure tt
  reset_line (some (chip, line)) false =
      call (open_reset chip line) (λ c. record c { reset_open = true })
  reset_line (some (chip, line)) true = do
    call (set_reset chip line false) same_chip
    call (set_reset chip line true) same_chip

  -- `release_reset`; the settling times are left out.
  unfoldable pub release_reset : M Wire (Unit {0})
  release_reset w = reset_line w.chip.reset w.chip.reset_open w

  unfoldable pub write_directions : M Wire (Unit {0})
  write_directions w = bus_write (register_pair iodira (not_u16 w.chip.used_pins)) w

  -- `write_latch`
  unfoldable pub write_latch : M Wire (Unit {0})
  write_latch w = (bus >> bus_write (register_pair olata w.chip.latch)) w

  -- `initialise`: the latch first, then the directions.
  unfoldable pub initialise : M Wire (Unit {0})
  initialise = do release_reset; write_latch; write_directions

  -- What the two bytes that were read say of the setup.
  unfoldable pub holds : Mcp23017 → State × Option (ℕ × ℕ) → Io Wire Bool
  holds c (board, none) = err (record { chip = c; board = board })
  holds c (board, some (low, high)) =
      let expected = not_u16 c.used_pins in
      ok (low == expected % 256 && high == expected / 256) (record { chip = c; board = board })

  unfoldable pub read_directions : M Wire Bool
  read_directions w = holds w.chip (read_bus w.chip.bus_path w.chip.address iodira w.board)

  -- `holds_setup`
  unfoldable pub holds_setup : M Wire Bool
  holds_setup = bus >> read_directions

  abbrev pub lost : Wire → Wire
  lost w = record w {
    chip = record (w.chip) { available = false; missing_reported = true; bus_open = false };
  }

  abbrev pub found : Wire → Wire
  found w = record w { chip = record (w.chip) { available = true; missing_reported = false } }

  -- How a call of the driver leaves the chip: here, or lost.
  abbrev pub outcome : {A : Type 0} → Io Wire A → Wire
  outcome (ok a w) = found w
  outcome (err w) = lost w

  -- `bring_up`
  unfoldable pub bring_up : Wire → Wire
  bring_up w = outcome (initialise w)

  -- A chip that could not be set up again is lost; one that could was there all along.
  abbrev or_lost : Io Wire (Unit {0}) → Wire
  or_lost (ok a w) = w
  or_lost (err w) = lost w

  unfoldable pub recheck : Io Wire Bool → Wire
  recheck (ok true w) = w
  recheck (ok false w) = or_lost (initialise w)
  recheck (err w) = lost w

  -- `check_setup`
  unfoldable pub check_setup : Wire → Wire
  check_setup w = recheck (holds_setup w)

  -- The chip's part of `put_on_hardware`: a pin is switched, or all is as before and the chip lost.
  abbrev pub settle : ℕ → Io Wire (Unit {0}) → Wire × Bool
  settle previous (ok a w) = (found w, true)
  settle previous (err w) = (lost (record w { chip = record (w.chip) { latch = previous } }), false)

  unfoldable pub put_pin : Wire → ℕ → Bool → Wire × Bool
  put_pin w pin on =
      let latch = if on then set_bit w.chip.latch pin else clear_bit w.chip.latch pin in
      let w' = record w { chip = record (w.chip) { latch = latch } } in
      settle w.chip.latch (if w.chip.available then write_latch w' else initialise w')
