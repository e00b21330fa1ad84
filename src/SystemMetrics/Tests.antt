-- ===== src/SystemMetrics/Tests.antt =====
-- A CPU that grows hot and cools down (src/backend/src/system_metrics.rs), in whole degrees.
use carnine.Prelude.{ℕ, ◌≡◌, refl, arith, true, false, Option, none, some, List, [], ◌∷◌, leb, map}
use carnine.SystemMetrics.{
  Scale, SamplerSettings, ThermalStatus, new_sampler, tick, update, is_warm,
}
use carnine.SystemMetrics.Hysteresis.{Turn, ticks, decided, Alternates, ticks-decided}

abbrev degrees : Scale
degrees = record { Celsius = ℕ; at_least = λ a b. leb b a }

abbrev settings : SamplerSettings degrees
settings = record {
  cpu_interval = 30000;
  warm_interval = 5000;
  disk_interval = 300000;
  thermal = record { warn_celsius = 80; clear_celsius = 75 };
}

abbrev turn : ℕ → Option ℕ → Turn degrees
turn now t = record { now = now; unix_ms = now; temperature = t }

-- The latest first.
abbrev turns : List (Turn degrees)
turns =
    turn 45000 (some 74)
    ∷ turn 40000 none
    ∷ turn 35000 (some 76)
    ∷ turn 30000 (some 81)
    ∷ turn 0 (some 79)
    ∷ []

warnings :
    map (λ (x : ThermalStatus degrees). x.overheated) (ticks degrees settings 0 turns).statuses
    ≡ false ∷ true ∷ false ∷ []
unfolding new_sampler tick update
warnings = refl

one_disk_sample : (ticks degrees settings 0 turns).disk_samples ≡ 0 ∷ []
unfolding new_sampler tick update
one_disk_sample = refl

cool_again : (ticks degrees settings 0 turns).next_tick ≡ 75000
unfolding new_sampler tick update is_warm
cool_again = refl

thresholds : (t : ℕ) → leb 80 t ≡ true → leb 75 t ≡ true
thresholds t e = ground (arith, e)

ticks-decided_example :
    let s = ticks degrees settings 0 turns in
    (s.guard.overheated ≡ decided degrees settings.thermal turns)
    × Alternates degrees s.guard.overheated s.statuses
ticks-decided_example = ticks-decided degrees settings 0 turns thresholds
