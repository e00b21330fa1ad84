-- ===== src/Navigation/Clock.antt =====
-- `ClockSetter` of src/backend/src/navigation/clock.rs, which sets the system clock from GPS time.
-- The kernel's clock and its state of synchronization are part of an offer.
mod Once
mod Tests
use carnine.Prelude.{
  ℕ, ◌+◌, ◌-◌, Bool, true, false, ◌||◌, not, Option, none, some, List, [], ◌∷◌, ltb, leb,
  if◌then◌else◌,
}
use carnine.Prelude.Int.{ℤ, pos, negsuc}

abbrev pub tolerance_ms : ℕ
tolerance_ms = 2000

abbrev pub earliest_clock_ms : ℕ
earliest_clock_ms = 1_767_225_600_000

pub data Decision : Type 0 where
  nothing leave_to_ntp already_right sets : Decision

-- `(a - b).abs()`
abbrev pub distance : ℕ → ℕ → ℕ
distance a b = (a - b) + (b - a)

-- `decide`; the clock is never before 1970, see `now_unix_ms`.
unfoldable pub decide : Bool → Bool → Bool → ℤ → ℕ → Decision
decide enabled done synchronized (negsuc n) now = nothing
decide enabled done synchronized (pos gps) now =
    if not enabled || (done || ltb gps earliest_clock_ms)
    then nothing
    else if synchronized
    then leave_to_ntp
    else if leb (distance gps now) tolerance_ms
    then already_right
    else sets

pub record ClockSetter : Type 0 where
  pub enabled : Bool
  pub done : Bool

-- `ClockSetter::new`
abbrev pub new_setter : Bool → ClockSetter
new_setter enabled = record { enabled = enabled; done = false }

-- A GPS time in milliseconds since 1970, what the clock says, if it can be read, and whether the kernel calls it synchronized.
pub record Offer : Type 0 where
  pub gps_ms : ℤ
  pub now_ms : Option ℕ
  pub synchronized : Bool

unfoldable pub act_on : ClockSetter → ℤ → Decision → ClockSetter × Option ℤ
act_on c gps nothing = (c, none)
act_on c gps leave_to_ntp = (record c { done = true }, none)
act_on c gps already_right = (record c { done = true }, none)
act_on c gps sets = (record c { done = true }, some gps)

-- `offer`, and the time that it has the system clock set to.
unfoldable pub offer : ClockSetter → Offer → ClockSetter × Option ℤ
unfolding decide act_on
offer c o = elim o.now_ms [
  | none ↦ (c, none)
  | some now ↦ act_on c o.gps_ms (decide c.enabled c.done o.synchronized o.gps_ms now)
]

abbrev pub with_setting : Offer → Option ℤ → List Offer → List Offer
with_setting o none os = os
with_setting o (some t) os = o ∷ os

-- The offers of a row that set the clock.
unfoldable pub settings : ClockSetter → List Offer → List Offer
settings c [] = []
settings c (o ∷ os) = with_setting o (offer c o).1 (settings (offer c o).0 os)
