-- ===== src/PowerSupply/Sender/Actions.antt =====
-- Every interleaving of the sender, the reader and the callers of the hub
-- (src/backend/src/power_supply.rs), as a list of actions.
use carnine.Prelude.{ℕ, List, [], ◌∷◌}
use carnine.PowerSupply.Hub.{ui_ready, switch_amplifier_off}
use carnine.PowerSupply.Sender.{World, advance, read}

pub data Action : Type 0 where
  sends : ℕ → Action
  reads : ℕ → List ℕ → Action
  reports_ready : ℕ → Action
  switches_off : Action

unfoldable pub act : World → Action → World
act w (sends now) = advance w now
act w (reads now buffer) = read w now buffer
act w (reports_ready now) = record w { hub = ui_ready w.hub now }
act w switches_off = record w { hub = (switch_amplifier_off w.hub).0 }

unfoldable pub act_all : World → List Action → World
act_all w [] = w
act_all w (a ∷ actions) = act_all (act w a) actions
