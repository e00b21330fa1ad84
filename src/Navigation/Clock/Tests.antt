-- ===== src/Navigation/Clock/Tests.antt =====
-- A Raspberry Pi that starts with the clock of its last shutdown, and gets a fix
-- (src/backend/src/navigation/clock.rs).
use carnine.Prelude.{◌≡◌, refl, true, false, some, List, [], ◌∷◌}
use carnine.Prelude.Int.{pos, negsuc}
use carnine.Navigation.Clock.{new_setter, Offer, decide, act_on, offer, settings}

abbrev fix : Offer
fix = record {
  gps_ms = pos 1_790_000_000_000;
  now_ms = some 1_780_000_000_000;
  synchronized = false;
}

-- A recording from 2001, and one from before 1970.
abbrev old : Offer
old = record fix { gps_ms = pos 1_000_000_000_000 }

abbrev ancient : Offer
ancient = record fix { gps_ms = negsuc 5 }

abbrev offers : List Offer
offers = old ∷ ancient ∷ fix ∷ fix ∷ []

set_once : settings (new_setter true) offers ≡ fix ∷ []
unfolding settings offer decide act_on
set_once = refl
