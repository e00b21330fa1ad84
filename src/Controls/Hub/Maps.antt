-- ===== src/Controls/Hub/Maps.antt =====
-- The maps of `Inner` (src/backend/src/controls.rs) as lists: chips by bus and address, PWM channels
-- by chip and channel, own values by id.
use carnine.Prelude.{ℕ, Bool, ◌&&◌, Option, none, some, List, [], ◌∷◌, ◌==◌, if◌then◌else◌}
use carnine.Prelude.Bytes.{same}
use carnine.Controls.Types.{Value}
use carnine.Controls.Chip.{Mcp23017}
use carnine.Controls.Output.{PwmOutput}

abbrev pub is_chip : List ℕ → ℕ → Mcp23017 → Bool
is_chip bus address c = same c.bus_path bus && c.address == address

unfoldable pub find_chip : List ℕ → ℕ → List Mcp23017 → Option Mcp23017
find_chip bus address [] = none
find_chip bus address (c ∷ cs) = if is_chip bus address c then some c else find_chip bus address cs

-- The chip takes the place of the one with its key.
unfoldable pub put_chip : Mcp23017 → List Mcp23017 → List Mcp23017
put_chip new [] = []
put_chip new (c ∷ cs) = if is_chip new.bus_path new.address c then new ∷ cs else c ∷ put_chip new cs

abbrev pub is_output : List ℕ → ℕ → PwmOutput → Bool
is_output chip channel o = same o.chip chip && o.channel == channel

unfoldable pub find_output : List ℕ → ℕ → List PwmOutput → Option PwmOutput
find_output chip channel [] = none
find_output chip channel (o ∷ os) =
    if is_output chip channel o then some o else find_output chip channel os

unfoldable pub put_output : PwmOutput → List PwmOutput → List PwmOutput
put_output new [] = []
put_output new (o ∷ os) =
    if is_output new.chip new.channel o then new ∷ os else o ∷ put_output new os

unfoldable pub find_value : List ℕ → List (List ℕ × Value) → Option Value
find_value id [] = none
find_value id ((i, v) ∷ m) = if same i id then some v else find_value id m

unfoldable pub remove_value : List ℕ → List (List ℕ × Value) → List (List ℕ × Value)
remove_value id [] = []
remove_value id ((i, v) ∷ m) = if same i id then remove_value id m else (i, v) ∷ remove_value id m

unfoldable pub insert_value : List ℕ → Value → List (List ℕ × Value) → List (List ℕ × Value)
insert_value id v m = (id, v) ∷ remove_value id m
