-- ===== src/PowerSupply/Sender/Tests.antt =====
-- Rounds and interleavings of a connection (src/backend/src/power_supply.rs).
use carnine.Prelude.{◌⊎◌, ◌≤◌, ◌≡◌, refl, true, false, none, some, [], ◌∷◌, arith}
use carnine.PowerSupply.Telegram.{SupplyState, idle, run}
use carnine.PowerSupply.Hub.{PowerSupplyHub, new_hub, amplifier_unknown, update}
use carnine.PowerSupply.Sender.{
  Message, bootloader_start, waiting, writing, World, connect, holds_back,
}
use carnine.PowerSupply.Sender.Actions.{sends, switches_off, act_all}
use carnine.PowerSupply.Sender.Rounds.{IsSign, IsStartDue, started, round_alive, round_held_back}
use carnine.PowerSupply.Sender.Stopping.{ons, act_all-switches_off}

-- A supply that talks, last seen in `st`, on a line that takes ten messages.
abbrev talking : SupplyState → PowerSupplyHub
talking st = record {
  status = record (new_hub true).status { connected = true; supply_state = some st };
  request = record { enabled = true; ready_since = some 1000; stopping = false; sent = none };
}

abbrev connected : SupplyState → World
connected st = connect (talking st) 0 10

-- In IDLE and silent since instant 0.
round_held_back_example :
    let v = act_all (connected idle) (sends 4000 ∷ sends 4001 ∷ []) in
    (v.phase ≡ waiting)
    × ((IsStartDue none 4001 × (v.line.written ≡ bootloader_start ∷ []))
        ⊎ ((¬ IsStartDue none 4001) × (v.line.written ≡ [])))
unfolding connect update amplifier_unknown
round_held_back_example =
    round_held_back (connected idle) 4000 4001 refl refl (omega arith) (omega arith)
      (λ e. ground (arith, e)) (λ e. ground (arith, e))

round_alive_example :
    let v = act_all (connected run) (sends 4000 ∷ sends 4001 ∷ sends 4002 ∷ sends 4003 ∷ []) in
    (m : Message) × IsSign m × (v.line.written ≡ m ∷ started (connected run) 4000 4001)
unfolding connect holds_back update amplifier_unknown
round_alive_example = round_alive (connected run) 4000 4001 4002 4003 refl refl (omega arith) refl

-- The supply talks, and the sender has just decided to switch the amplifier on.
abbrev deciding : World
deciding = record (connected run) { phase = writing (some true) }

act_all-switches_off_example :
    ons (act_all deciding (switches_off ∷ sends 5000 ∷ sends 5001 ∷ [])).line.written ≤ 1
unfolding connect
act_all-switches_off_example = act_all-switches_off deciding (sends 5000 ∷ sends 5001 ∷ [])
