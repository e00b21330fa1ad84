-- ===== src/Navigation/Clock/Once.antt =====
-- When the system clock is set from GPS time (src/backend/src/navigation/clock.rs).
use carnine.Prelude.{
  ℕ, ◌≤◌, ◌<◌, ◌≡◌, refl, ◌↔◌, true, false, none, some, List, [], ◌∷◌, length, arith, All,
  Option-cases, inl, inr,
}
use carnine.Prelude.Int.{ℤ, pos}
use carnine.Navigation.Clock.{
  tolerance_ms, earliest_clock_ms, distance, decide, ClockSetter, Offer, act_on, offer, settings,
}

-- The clock is known, not kept by NTP, and further off than the tolerance from a plausible time.
abbrev pub IsDue : Offer → Type 0
IsDue o =
    (o.synchronized ≡ false)
    × (gps : ℕ) × (now : ℕ) × (o.gps_ms ≡ pos gps)
    × (o.now_ms ≡ some now)
    × (earliest_clock_ms ≤ gps)
    × (tolerance_ms < distance gps now)

offer_done : (c : ClockSetter) (o : Offer) → c.done ≡ true → offer c o ≡ (c, none)
unfolding offer decide act_on
offer_done c o d = ground arith

settings_done : (c : ClockSetter) (os : List Offer) → c.done ≡ true → settings c os ≡ []
unfolding settings
settings_done c [] d = refl
settings_done c (o ∷ os) d = rw (offer_done c o d, settings) (settings_done c os d)

offer_sets :
    (c : ClockSetter) (o : Offer) (t : ℤ)
    → (offer c o).1 ≡ some t
    → IsDue o × ((offer c o).0.done ≡ true)
unfolding offer decide act_on
offer_sets c o t h = ground arith

-- However many GPS times are offered, the clock is set once at most, and only from a plausible time
-- that the clock is off from by more than the tolerance, while the kernel does not call it
-- synchronized.
pub settings-IsDue :
    (c : ClockSetter) (os : List Offer) → (length (settings c os) ≤ 1) × All IsDue (settings c os)
unfolding settings
settings-IsDue c [] = (omega arith, tt)
settings-IsDue c (o ∷ os) = elim (Option-cases (offer c o).1) [
  | inl quiet ↦ rw (settings, quiet) (settings-IsDue (offer c o).0 os)
  | inr (t, set_to) ↦
      let h = offer_sets c o t set_to in
      rw (settings, set_to, settings_done (offer c o).0 os h.1) (omega arith, (h.0, tt))
]

-- An enabled setter decides at the first plausible time that it is offered while the clock can be
-- read: it is done from then on, and it has set the clock if that was due.
pub offer_plausible :
    (c : ClockSetter) (o : Offer) (gps now : ℕ)
    → c.enabled ≡ true
    → c.done ≡ false
    → o.gps_ms ≡ pos gps
    → o.now_ms ≡ some now
    → earliest_clock_ms ≤ gps
    → ((offer c o).0.done ≡ true)
      × (((offer c o).1 ≡ some (pos gps))
          ↔ ((o.synchronized ≡ false) × (tolerance_ms < distance gps now)))
unfolding offer decide act_on
offer_plausible c o gps now e d g n plausible = ground arith
