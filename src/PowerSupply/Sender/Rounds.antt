-- ===== src/PowerSupply/Sender/Rounds.antt =====
-- One round of `send_alive` (src/backend/src/power_supply.rs): what goes out, and what is held back.
use carnine.Prelude.{
  ℕ, suc, ◌-◌, ◌≤◌, ◌<◌, ◌≡◌, ◌≢◌, refl, Bool, true, false, ◌&&◌, Option, none, some, List, [], ◌∷◌,
  arith, if◌then◌else◌, ltb, ap, ◌∙◌, ◌⊎◌, inl, inr,
}
use carnine.PowerSupply.Telegram.{SupplyState, idle, power_on, pi_boot, run, power_off}
use carnine.PowerSupply.Hub.{amplifier_switch, update}
use carnine.PowerSupply.Sender.{
  Message, sign_of_life, amplifier_on, amplifier_off, version_query, bootloader_start, top,
  switching, waiting, World, write_all, notice_silence, look, start, switch, write, section_of,
  advance, holds_back, keeps_alive, start_due, silence_timeout,
}
use carnine.PowerSupply.Sender.Actions.{sends, act, act_all}

-- The firmware counts each of these as a sign of life.
abbrev pub IsSign : Message → Type 0
IsSign sign_of_life = Unit
IsSign amplifier_on = Unit
IsSign amplifier_off = Unit
IsSign version_query = ⊥
IsSign bootloader_start = ⊥

-- No telegram for more than three seconds.
abbrev pub is_quiet : World → ℕ → Bool
is_quiet w now = ltb silence_timeout (now - w.last_heard)

-- What is out once the bootloader has been asked, if that is due.
abbrev pub started : World → ℕ → ℕ → List Message
started w looked now =
    if is_quiet w looked && start_due w.start_sent now
    then bootloader_start ∷ w.line.written
    else w.line.written

-- The message that the outcome of `amplifier_switch` leads to.
abbrev pub message_of : Option Bool → Message
message_of none = sign_of_life
message_of (some true) = amplifier_on
message_of (some false) = amplifier_off

message_of-IsSign : (sw : Option Bool) → IsSign (message_of sw)
message_of-IsSign sw = ground arith

-- Whether the sender at the head of its loop holds back.
abbrev pub quiet_hold : World → ℕ → Bool
quiet_hold w now = holds_back (is_quiet w now) w.hub.status.supply_state

-- The first two sections of a round.
first_half :
    (w : World) (looked asked : ℕ)
    → w.phase ≡ top
    → w.stop ≡ false
    → w.line.room ≢ 0
    → let v = act_all w (sends looked ∷ sends asked ∷ []) in
      (v.line.written ≡ started w looked asked)
      × (v.phase ≡ (if quiet_hold w looked then waiting else switching))
      × (w.line.room ≤ suc v.line.room)
unfolding act_all act advance section_of look notice_silence start write_all update
first_half w looked asked p s r = ground arith

-- The two after it, where the sender does not hold back.
second_half :
    (w : World) (switched sent : ℕ)
    → w.phase ≡ switching
    → w.line.room ≢ 0
    → (act_all w (sends switched ∷ sends sent ∷ [])).line.written
      ≡ message_of (amplifier_switch w.hub switched).1 ∷ w.line.written
unfolding act_all act advance section_of switch write write_all
second_half w switched sent p r = ground arith

-- The bootloader was never asked, or five seconds ago at least.
abbrev pub IsStartDue : Option ℕ → ℕ → Type 0
IsStartDue none now = Unit
IsStartDue (some asked_at) now = 5_000 ≤ now - asked_at

start_due-IsStartDue :
    (asked : Option ℕ) (now : ℕ)
    → (IsStartDue asked now × (start_due asked now ≡ true))
      ⊎ ((¬ IsStartDue asked now) × (start_due asked now ≡ false))
unfolding start_due
start_due-IsStartDue none now = inl (tt, refl)
start_due-IsStartDue (some asked_at) now = ground arith

keeps_alive-false :
    (s : Option SupplyState) → s ≢ some pi_boot → s ≢ some run → keeps_alive s ≡ false
keeps_alive-false none b r = refl
keeps_alive-false (some idle) b r = refl
keeps_alive-false (some power_on) b r = refl
keeps_alive-false (some pi_boot) b r = absurd (b refl)
keeps_alive-false (some run) b r = absurd (r refl)
keeps_alive-false (some power_off) b r = refl

holds_back-silent :
    (w : World) (now : ℕ)
    → 3_000 < now - w.last_heard
    → w.hub.status.supply_state ≢ some pi_boot
    → w.hub.status.supply_state ≢ some run
    → (is_quiet w now ≡ true) × (quiet_hold w now ≡ true)
unfolding holds_back
holds_back-silent w now silent b r =
    ground (arith, silent, keeps_alive-false w.hub.status.supply_state b r)

-- On a supply that has been silent for over three seconds and was last seen neither in PIBOOT nor in
-- RUN, or in no state at all, and on a line that takes a message: a sender that is not told to stop
-- sends no sign of life and no switch in its round and goes on waiting; it sends the bootloader's
-- `Start` exactly if it never did, or five seconds ago at least.
pub round_held_back :
    (w : World) (looked asked : ℕ)
    → w.phase ≡ top
    → w.stop ≡ false
    → w.line.room ≢ 0
    → 3_000 < looked - w.last_heard
    → w.hub.status.supply_state ≢ some pi_boot
    → w.hub.status.supply_state ≢ some run
    → let v = act_all w (sends looked ∷ sends asked ∷ []) in
      (v.phase ≡ waiting)
      × ((IsStartDue w.start_sent asked × (v.line.written ≡ bootloader_start ∷ w.line.written))
          ⊎ ((¬ IsStartDue w.start_sent asked) × (v.line.written ≡ w.line.written)))
round_held_back w looked asked p s r silent other_boot other_run =
    let (out, phase, _) = first_half w looked asked p s r in
    let (quiet, hold) = holds_back-silent w looked silent other_boot other_run in
    (
      phase ∙ rw hold refl,
      elim (start_due-IsStartDue w.start_sent asked) [
        | inl (due, e) ↦ inl (due, out ∙ rw (quiet, e) refl)
        | inr (not_due, e) ↦ inr (not_due, out ∙ rw (quiet, e) refl)
      ],
    )

-- A sender that does not hold back and is not told to stop, on a line that takes two messages, sends
-- in its round, up to the question for the version, exactly one message that counts as a sign of
-- life, the switch of the amplifier or `+`, after `Start` where that is due.
pub round_alive :
    (w : World) (looked asked switched sent : ℕ)
    → w.phase ≡ top
    → w.stop ≡ false
    → 1 < w.line.room
    → holds_back (is_quiet w looked) w.hub.status.supply_state ≡ false
    → let v = act_all w (sends looked ∷ sends asked ∷ sends switched ∷ sends sent ∷ []) in
      (m : Message) × IsSign m × (v.line.written ≡ m ∷ started w looked asked)
unfolding act_all
round_alive w looked asked switched sent p s r h =
    let v = act_all w (sends looked ∷ sends asked ∷ []) in
    let (out, phase, room) = first_half w looked asked p s (omega arith) in
    (
      message_of (amplifier_switch v.hub switched).1,
      message_of-IsSign (amplifier_switch v.hub switched).1,
      second_half v switched sent (phase ∙ rw h refl) (omega arith)
          ∙ ap (λ ms. message_of (amplifier_switch v.hub switched).1 ∷ ms) out,
    )
