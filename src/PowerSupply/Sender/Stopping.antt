-- ===== src/PowerSupply/Sender/Stopping.antt =====
-- The amplifier when the backend stops (src/backend/src/power_supply.rs): after
-- `switch_amplifier_off` the sender never switches it on, but for a switch that it had already
-- decided on.
use carnine.Prelude.{
  ℕ, suc, ◌+◌, ◌≤◌, ◌≡◌, ◌≢◌, refl, Bool, true, false, Option, none, some, List, [], ◌∷◌, arith,
}
use carnine.PowerSupply.Telegram.{Telegram, text, feed}
use carnine.PowerSupply.Hub.{
  amplifier_switch, amplifier_sent, switch_amplifier_off, ui_ready, update, returns,
}
use carnine.PowerSupply.Sender.{
  Message, sign_of_life, amplifier_on, amplifier_off, version_query, bootloader_start, Phase, top,
  starting, switching, writing, noting, asking, waiting, stopped, failed, World, write_all,
  notice_silence, look, start, switch, write, note, query, section_of, advance, hear, hear_text,
  hear_report, hear_all, read, next,
}
use carnine.PowerSupply.Sender.Actions.{
  Action, sends, reads, reports_ready, switches_off, act, act_all,
}

-- How often the amplifier was switched on.
abbrev pub ons : List Message → ℕ
ons [] = 0
ons (amplifier_on ∷ ms) = suc (ons ms)
ons (_ ∷ ms) = ons ms

-- One more where the switch is decided on, but not yet out.
abbrev pub due : Phase → ℕ
due (writing (some true)) = 1
due _ = 0

-- The backend is stopping, and at most `n` switches on are out or decided on.
pub record Bounded (n : ℕ) (w : World) : Type 0 where
  pub stopping : w.hub.request.stopping ≡ true
  pub bounded : ons w.line.written + due w.phase ≤ n

write_all-Bounded :
    (n : ℕ) (w : World) (m : Message) (p : Phase)
    → w.hub.request.stopping ≡ true
    → ons (m ∷ w.line.written) + due p ≤ n
    → Bounded n (write_all w m p)
unfolding write_all
write_all-Bounded n w sign_of_life p s h = ground arith
write_all-Bounded n w amplifier_on p s h = ground arith
write_all-Bounded n w _ p s h = ground arith

look-Bounded : (n : ℕ) (w : World) (now : ℕ) → w.phase ≡ top → Bounded n w → Bounded n (look w now)
unfolding look notice_silence update
look-Bounded n w now e b = ground arith

start-Bounded :
    (n : ℕ) (w : World) (now : ℕ) → w.phase ≡ starting → Bounded n w → Bounded n (start w now)
unfolding start
start-Bounded n w now e b =
    let sent = record w { start_sent = some now } in
    ground (
      arith,
      write_all-Bounded n sent bootloader_start waiting b.stopping,
      write_all-Bounded n sent bootloader_start switching b.stopping,
    )

-- Once the backend stops, nothing but a switch off is decided on.
switch-Bounded :
    (n : ℕ) (w : World) (now : ℕ) → w.phase ≡ switching → Bounded n w → Bounded n (switch w now)
unfolding switch amplifier_switch
switch-Bounded n w now e b = ground arith

write-Bounded :
    (n : ℕ) (w : World) (sw : Option Bool)
    → w.phase ≡ writing sw
    → Bounded n w
    → Bounded n (write w sw)
unfolding write
write-Bounded n w none e b = write_all-Bounded n w sign_of_life asking b.stopping (ground arith)
write-Bounded n w (some true) e b =
    write_all-Bounded n w amplifier_on (noting true) b.stopping (ground arith)
write-Bounded n w (some false) e b =
    write_all-Bounded n w amplifier_off (noting false) b.stopping (ground arith)

query-Bounded :
    (n : ℕ) (w : World) (now : ℕ) → w.phase ≡ asking → Bounded n w → Bounded n (query w now)
unfolding query
query-Bounded n w now e b =
    let asked = record w { version = (next w.version w.hub.status now).0 } in
    ground (arith, write_all-Bounded n asked version_query waiting b.stopping)

section_of-Bounded :
    (n : ℕ) (p : Phase) (w : World) (now : ℕ)
    → w.phase ≡ p
    → Bounded n w
    → Bounded n (section_of p w now)
unfolding section_of note amplifier_sent
section_of-Bounded n top w now e b = ground (arith, look-Bounded n w now e b)
section_of-Bounded n starting w now e b = start-Bounded n w now e b
section_of-Bounded n switching w now e b = switch-Bounded n w now e b
section_of-Bounded n (writing sw) w now e b = write-Bounded n w sw e b
section_of-Bounded n (noting on) w now e b = ground arith
section_of-Bounded n asking w now e b = query-Bounded n w now e b
section_of-Bounded n waiting w now e b = ground arith
section_of-Bounded n stopped w now e b = b
section_of-Bounded n failed w now e b = b

hear-Bounded : (n : ℕ) (w : World) (now : ℕ) (t : Telegram) → Bounded n w → Bounded n (hear w now t)
unfolding hear hear_text hear_report update
hear-Bounded n w now (text s) b = ground arith
hear-Bounded n w now _ b = record { stopping = b.stopping; bounded = b.bounded }

hear_all-Bounded :
    (n : ℕ) (w : World) (now : ℕ) (ts : List Telegram) → Bounded n w → Bounded n (hear_all w now ts)
unfolding hear_all
hear_all-Bounded n w now [] b = b
hear_all-Bounded n w now (t ∷ ts) b =
    hear_all-Bounded n (hear w now t) now ts (hear-Bounded n w now t b)

read-Bounded :
    (n : ℕ) (w : World) (now : ℕ) (buffer : List ℕ) → Bounded n w → Bounded n (read w now buffer)
unfolding read
read-Bounded n w now [] b = record { stopping = b.stopping; bounded = b.bounded }
read-Bounded n w now (c ∷ buffer) b =
    hear_all-Bounded n (record w { parser = (feed w.parser (c ∷ buffer)).0 }) now _
      (record { stopping = b.stopping; bounded = b.bounded })

act-Bounded : (n : ℕ) (w : World) (a : Action) → Bounded n w → Bounded n (act w a)
unfolding act advance ui_ready switch_amplifier_off
act-Bounded n w (sends now) b = section_of-Bounded n w.phase w now refl b
act-Bounded n w (reads now buffer) b = read-Bounded n w now buffer b
act-Bounded n w (reports_ready now) b = ground arith
act-Bounded n w switches_off b = ground arith

act_all-Bounded :
    (n : ℕ) (w : World) (actions : List Action) → Bounded n w → Bounded n (act_all w actions)
unfolding act_all
act_all-Bounded n w [] b = b
act_all-Bounded n w (a ∷ actions) b = act_all-Bounded n (act w a) actions (act-Bounded n w a b)

-- However the threads go on after `switch_amplifier_off`: `3` goes out no more, but for one that the
-- sender had decided on before.
pub act_all-switches_off :
    (w : World) (actions : List Action)
    → ons (act_all w (switches_off ∷ actions)).line.written ≤ ons w.line.written + due w.phase
unfolding act_all act switch_amplifier_off
act_all-switches_off w actions =
    let after =
      act_all-Bounded (ons w.line.written + due w.phase) (act w switches_off) actions
        (record { stopping = ground arith; bounded = ground arith }) in
    omega (arith, after.bounded)

-- A `3` can follow a stop: where the sender has decided to switch on while the relay is not noted as
-- on, `switch_amplifier_off` returns without waiting, and a line that takes the message
-- gets `3` after it.
pub switches_off_too_early :
    (w : World) (now : ℕ)
    → w.phase ≡ writing (some true)
    → w.hub.request.sent ≢ some true
    → w.line.room ≢ 0
    → ((switch_amplifier_off w.hub).1 ≡ returns)
      × ((act_all w (switches_off ∷ sends now ∷ [])).line.written ≡ amplifier_on ∷ w.line.written)
unfolding act_all act switch_amplifier_off advance section_of write write_all
switches_off_too_early w now p s r = ground arith
