-- ===== src/SystemMetrics/Hysteresis.antt =====
-- When the CPU counts as overheated (src/backend/src/system_metrics.rs).
use carnine.Prelude.{
  ℕ, ◌+◌, ◌≡◌, refl, subst, ap, ◌∙◌, arith, Bool, true, false, not, Option, none, some, List, [],
  ◌∷◌, if◌then◌else◌,
}
use carnine.MediaPlayer.Queue.Slots.{if_then_else_lem}
use carnine.SystemMetrics.{
  Scale, same_bool, is_due, ThermalThresholds, ThermalGuard, ThermalStatus, SamplerSettings,
  Sampler, new_sampler, guarded, update, tick, overheats, changed_to,
}

same_bool_eq : (b c : Bool) → same_bool b c ≡ true → c ≡ b
same_bool_eq b c e = ground (arith, e)

same_bool-not : (b c : Bool) → same_bool b c ≡ false → c ≡ not b
same_bool-not b c e = ground (arith, e)

module _ (C : Scale) where
  open C use {Celsius, at_least}

  -- A turn of the sampler.
  pub record Turn : Type 0 where
    pub now : ℕ
    pub unix_ms : ℕ
    pub temperature : Option Celsius

  -- The turns, the latest first.
  abbrev pub ticks : SamplerSettings C → ℕ → List Turn → Sampler C
  ticks settings start [] = new_sampler C settings start
  ticks settings start (x ∷ turns) =
      tick C settings x.now x.unix_ms x.temperature (ticks settings start turns)

  -- A reading decides if it is at or above the higher threshold, or below the lower one.
  abbrev pub decide : ThermalThresholds C → Option Celsius → Bool → Bool
  decide h none before = before
  decide h (some t) before =
      if at_least t h.warn_celsius
      then true
      else if at_least t h.clear_celsius
      then before
      else false

  -- What the latest reading that decides says.
  abbrev pub decided : ThermalThresholds C → List Turn → Bool
  decided h [] = false
  decided h (x ∷ turns) = decide h x.temperature (decided h turns)

  -- Each status says something else than the one before, and the first that there is no warning.
  abbrev pub Alternates : Bool → List (ThermalStatus C) → Type 0
  Alternates b [] = b ≡ true
  Alternates b (x ∷ statuses) = (x.overheated ≡ b) × Alternates (not b) statuses

  guard-thresholds :
      (settings : SamplerSettings C) (start : ℕ) (turns : List Turn)
      → (ticks settings start turns).guard.thresholds ≡ settings.thermal
  unfolding new_sampler tick update
  guard-thresholds settings start [] = refl
  guard-thresholds settings start (x ∷ turns) =
      ground (arith, guard-thresholds settings start turns)

  changed_to-Alternates :
      (b : Bool) (t : Option Celsius) (unix_ms : ℕ) (s : Sampler C)
      → Alternates s.guard.overheated s.statuses
      → let w = guarded C t unix_ms s (changed_to C b s.guard) in
        (w.guard.overheated ≡ b) × Alternates w.guard.overheated w.statuses
  changed_to-Alternates b t unix_ms s alternates =
      if_then_else_lem
        (λ (r : ThermalGuard C × Option Bool).
          let w = guarded C t unix_ms s r in
          (w.guard.overheated ≡ b) × Alternates w.guard.overheated w.statuses)
        (same_bool b s.guard.overheated) (λ e. (same_bool_eq b s.guard.overheated e, alternates))
        (λ e. (
          refl,
          (
            refl,
            subst (λ o. Alternates o s.statuses) (same_bool-not b s.guard.overheated e) alternates,
          ),
        ))

  guarded-decided :
      (h : ThermalThresholds C) (t : Option Celsius) (unix_ms : ℕ) (s : Sampler C)
      → s.guard.thresholds ≡ h
      → ((t : Celsius) → at_least t h.warn_celsius ≡ true → at_least t h.clear_celsius ≡ true)
      → Alternates s.guard.overheated s.statuses
      → let w = guarded C t unix_ms s (update C t s.guard) in
        (w.guard.overheated ≡ decide h t s.guard.overheated)
        × Alternates w.guard.overheated w.statuses
  unfolding update
  guarded-decided h none unix_ms s same order alternates = (refl, alternates)
  guarded-decided h (some t) unix_ms s same order alternates =
      let changed = changed_to-Alternates (overheats C s.guard t) (some t) unix_ms s alternates in
      let agrees : overheats C s.guard t ≡ decide h (some t) s.guard.overheated =
        rw same (ground (arith, order t)) in
      (changed.0 ∙ agrees, changed.1)

  -- For thresholds where a temperature that reaches the higher one reaches the lower one too: after
  -- any row of readings, some of which may be missing, the CPU counts as overheated exactly if the
  -- latest reading that was at or above the higher threshold, or below the lower one, was the former.
  -- The last status that was sent says so, and each status says something else than the one before.
  pub ticks-decided :
      (settings : SamplerSettings C) (start : ℕ) (turns : List Turn)
      → ((t : Celsius)
          → at_least t settings.thermal.warn_celsius ≡ true
          → at_least t settings.thermal.clear_celsius ≡ true)
      → let s = ticks settings start turns in
        (s.guard.overheated ≡ decided settings.thermal turns)
        × Alternates s.guard.overheated s.statuses
  unfolding new_sampler tick
  ticks-decided settings start [] order = (refl, (refl, refl))
  ticks-decided settings start (x ∷ turns) order =
      let s = ticks settings start turns in
      let h = settings.thermal in
      let before = ticks-decided settings start turns order in
      let same = guard-thresholds settings start turns in
      let after =
        if_then_else_lem
          (λ (d : Sampler C).
            let w = guarded C x.temperature x.unix_ms d (update C x.temperature d.guard) in
            (w.guard.overheated ≡ decide h x.temperature s.guard.overheated)
            × Alternates w.guard.overheated w.statuses)
          (is_due s.disks_due_at x.now)
          (λ _.
            guarded-decided h x.temperature x.unix_ms
              (record s {
                disks_due_at = some (x.now + settings.disk_interval);
                disk_samples = x.now ∷ s.disk_samples;
              })
              same order before.1)
          (λ _. guarded-decided h x.temperature x.unix_ms s same order before.1) in
      (after.0 ∙ ap (decide h x.temperature) before.0, after.1)
