-- ===== src/PowerSupply/RetryLog/Tests.antt =====
-- `RetryLog` on the failures of its unit tests (src/backend/src/power_supply.rs).
use Prim.Native.String.{String}
use carnine.Prelude.{◌≡◌, refl, [], ◌∷◌}
use carnine.PowerSupply.RetryLog.{new, repeated, new_log, failed, fail_all}

abbrev missing : String
missing = "opening: missing"

new_kind :
    (fail_all new_log (missing ∷ missing ∷ "setting up: not permitted" ∷ [])).1
    ≡ new ∷ repeated ∷ new ∷ []
unfolding fail_all failed
new_kind = refl
