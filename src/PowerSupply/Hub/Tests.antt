-- ===== src/PowerSupply/Hub/Tests.antt =====
-- The hub and the amplifier request at inputs such as those of the unit tests of
-- src/backend/src/power_supply.rs.
use carnine.Prelude.{◌≡◌, ◌≢◌, refl, inr, true, false, none, some}
use carnine.PowerSupply.Telegram.{run, power_off}
use carnine.PowerSupply.Hub.{PowerSupplyHub, new_hub, amplifier_switch}
use carnine.PowerSupply.Hub.Amplifier.{MayPlay, amplifier_switch_on, amplifier_switch_off}

-- The supply runs and talks, and the UI reported ready at 1000 ms.
abbrev running : PowerSupplyHub
running = record {
  status = record (new_hub true).status { connected = true; supply_state = some run };
  request = record { enabled = true; ready_since = some 1000; stopping = false; sent = none };
}

abbrev playing : PowerSupplyHub
playing = record running { request = record running.request { sent = some true } }

too_early : (amplifier_switch running 2999).1 ≡ some false
unfolding amplifier_switch
too_early = refl

amplifier_switch_on_example : MayPlay running 3000 × (running.request.sent ≢ some true)
unfolding amplifier_switch
amplifier_switch_on_example = amplifier_switch_on running 3000 refl

abbrev leaving : PowerSupplyHub
leaving = record playing { status = record playing.status { supply_state = some power_off } }

amplifier_switch_off_example : (amplifier_switch leaving 9000).1 ≡ some false
amplifier_switch_off_example = amplifier_switch_off leaving 9000 refl refl refl (inr (λ e. cc))
