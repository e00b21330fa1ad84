-- ===== src/SystemMetrics.antt =====
-- The overheat warning and the timing of the sampler (src/backend/src/system_metrics.rs). What is
-- sampled is an argument; an instant is a number of milliseconds.
pub mod Hysteresis
mod Tests
use carnine.Prelude.{
  ℕ, ◌+◌, Bool, true, false, ◌||◌, Option, none, some, List, [], ◌∷◌, min, leb, if◌then◌else◌,
}

-- `f64` as far as it is compared: `at_least a b` is `a >= b`.
pub record Scale : Type 1 where
  pub Celsius : Type 0
  pub at_least : Celsius → Celsius → Bool

abbrev pub same_bool : Bool → Bool → Bool
same_bool true b = b
same_bool false true = false
same_bool false false = true

abbrev pub is_due : Option ℕ → ℕ → Bool
is_due none now = true
is_due (some due) now = leb due now

module _ (C : Scale) where
  open C use {Celsius, at_least}

  pub record ThermalThresholds : Type 0 where
    pub warn_celsius : Celsius
    pub clear_celsius : Celsius

  pub record ThermalGuard : Type 0 where
    pub thresholds : ThermalThresholds
    pub overheated : Bool

  abbrev pub new_guard : ThermalThresholds → ThermalGuard
  new_guard thresholds = record { thresholds = thresholds; overheated = false }

  -- Whether a temperature counts as overheated.
  abbrev pub overheats : ThermalGuard → Celsius → Bool
  overheats g t =
      if g.overheated
      then at_least t g.thresholds.clear_celsius
      else at_least t g.thresholds.warn_celsius

  abbrev pub changed_to : Bool → ThermalGuard → ThermalGuard × Option Bool
  changed_to overheated g =
      if same_bool overheated g.overheated
      then (g, none)
      else (record g { overheated = overheated }, some overheated)

  -- The new state, if the reading changes it.
  unfoldable pub update : Option Celsius → ThermalGuard → ThermalGuard × Option Bool
  update none g = (g, none)
  update (some t) g = changed_to (overheats g t) g

  abbrev pub reaches : Option Celsius → Celsius → Bool
  reaches none c = false
  reaches (some t) c = at_least t c

  unfoldable pub is_warm : Option Celsius → ThermalGuard → Bool
  is_warm t g = g.overheated || reaches t g.thresholds.clear_celsius

  pub record ThermalStatus : Type 0 where
    pub overheated : Bool
    pub cpu_temperature_celsius : Option Celsius
    pub warn_celsius : Celsius
    pub clear_celsius : Celsius
    pub changed_at_unix_ms : ℕ

  abbrev pub status : Option Celsius → ℕ → ThermalGuard → ThermalStatus
  status t changed_at g = record {
    overheated = g.overheated;
    cpu_temperature_celsius = t;
    warn_celsius = g.thresholds.warn_celsius;
    clear_celsius = g.thresholds.clear_celsius;
    changed_at_unix_ms = changed_at;
  }

  pub record SamplerSettings : Type 0 where
    pub cpu_interval : ℕ
    pub warm_interval : ℕ
    pub disk_interval : ℕ
    pub thermal : ThermalThresholds

  -- The variables of `run`, what the handle was sent, and when the disks were sampled, the latest
  -- first.
  pub record Sampler : Type 0 where
    pub guard : ThermalGuard
    pub next_tick : ℕ
    pub disks_due_at : Option ℕ
    pub statuses : List ThermalStatus
    pub disk_samples : List ℕ

  unfoldable pub new_sampler : SamplerSettings → ℕ → Sampler
  new_sampler settings now =
      let guard = new_guard settings.thermal in
      record {
        guard = guard;
        next_tick = now;
        disks_due_at = none;
        statuses = status none 0 guard ∷ [];
        disk_samples = [];
      }

  abbrev pub sampled_disks : SamplerSettings → ℕ → Sampler → Sampler
  sampled_disks settings now s =
      if is_due s.disks_due_at now
      then record s {
        disks_due_at = some (now + settings.disk_interval);
        disk_samples = now ∷ s.disk_samples;
      }
      else s

  abbrev pub guarded : Option Celsius → ℕ → Sampler → ThermalGuard × Option Bool → Sampler
  guarded t unix_ms s (g, none) = record s { guard = g }
  guarded t unix_ms s (g, some overheated) = record s {
    guard = g;
    statuses = status t unix_ms g ∷ s.statuses;
  }

  abbrev pub timed : SamplerSettings → Option Celsius → ℕ → Sampler → Sampler
  timed settings t now s = record s {
    next_tick =
        now
        + (if is_warm t s.guard
            then min settings.warm_interval settings.cpu_interval
            else settings.cpu_interval);
  }

  -- A turn of the loop, at `now`, with the temperature that was read and the time of day.
  unfoldable pub tick : SamplerSettings → ℕ → ℕ → Option Celsius → Sampler → Sampler
  unfolding is_warm
  tick settings now unix_ms t s =
      let d = sampled_disks settings now s in
      timed settings t now (guarded t unix_ms d (update t d.guard))
