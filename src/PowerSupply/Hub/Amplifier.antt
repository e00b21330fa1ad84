-- ===== src/PowerSupply/Hub/Amplifier.antt =====
-- When the amplifier relay is switched, and who is told of a status: properties of
-- `AmplifierRequest` and `PowerSupplyHub` of src/backend/src/power_supply.rs.
use carnine.Prelude.{
  ℕ, ◌-◌, ◌≤◌, ◌≡◌, ◌≢◌, refl, ◌⊎◌, inl, inr, true, false, Option, none, some, arith,
}
use carnine.PowerSupply.Telegram.{SupplyState, run, alive}
use carnine.PowerSupply.Hub.{
  PowerSupplyHub, Watched, Watched-discrete, watched, apply, amplifier_switch, is_run, ready_for,
  update, amplifier_on_delay,
}

-- Everything that has to hold before `3` goes out.
pub record MayPlay (h : PowerSupplyHub) (now : ℕ) : Type 0 where
  pub enabled : h.request.enabled ≡ true
  pub running_on : h.request.stopping ≡ false
  pub connected : h.status.connected ≡ true
  pub in_run : h.status.supply_state ≡ some run
  pub ready_at : ℕ
  pub ready : h.request.ready_since ≡ some ready_at
  pub delayed : amplifier_on_delay ≤ now - ready_at

is_run→run : (s : Option SupplyState) → is_run s ≡ true → s ≡ some run
is_run→run s h = ground arith

ready_for→since :
    (r : Option ℕ) (now : ℕ)
    → ready_for r now ≡ true
    → (t : ℕ) × (r ≡ some t) × (amplifier_on_delay ≤ now - t)
ready_for→since none now h = cc
ready_for→since (some t) now h = (t, refl, ground arith)

-- The amplifier is switched on only if the relay is enabled, the backend is not stopping, the
-- supply is talking and in RUN, and the UI reported ready at least two seconds ago; the relay was
-- not on already.
pub amplifier_switch_on :
    (h : PowerSupplyHub) (now : ℕ)
    → (amplifier_switch h now).1 ≡ some true
    → MayPlay h now × (h.request.sent ≢ some true)
unfolding amplifier_switch
amplifier_switch_on h now e =
    let (t, since, late) = ready_for→since h.request.ready_since now (ground arith) in
    (
      record {
        enabled = ground arith;
        running_on = ground arith;
        connected = ground arith;
        in_run = is_run→run h.status.supply_state (ground arith);
        ready_at = t;
        ready = since;
        delayed = late;
      },
      ground arith,
    )

-- With the relay enabled and noted as on, and while the supply talks: once it is not in RUN, or the
-- backend stops, the amplifier is switched off at the next turn of the sender.
pub amplifier_switch_off :
    (h : PowerSupplyHub) (now : ℕ)
    → h.request.enabled ≡ true
    → h.status.connected ≡ true
    → h.request.sent ≡ some true
    → (h.request.stopping ≡ true) ⊎ (h.status.supply_state ≢ some run)
    → (amplifier_switch h now).1 ≡ some false
unfolding amplifier_switch
amplifier_switch_off h now e c s (inl stop) = ground arith
amplifier_switch_off h now e c s (inr other) =
    ground (
      arith,
      λ (p : is_run h.status.supply_state ≡ true). other (is_run→run h.status.supply_state p),
    )

quiet_where_same :
    {a b : Watched} (d : Dec (a ≡ b)) → a ≡ b → elim d [ yes e ↦ false | no n ↦ true ] ≡ false
quiet_where_same (yes e) h = refl
quiet_where_same (no n) h = absurd (n h)

-- While the supply talks, a new alive counter is kept and wakes nobody.
pub update-alive :
    (h : PowerSupplyHub) (n : ℕ)
    → h.status.connected ≡ true
    → update h (λ s. apply s (alive n))
      ≡ (record h { status = record (h.status) { alive_count = some n } }, false)
unfolding update apply
update-alive h n c =
    let st = h.status in
    rw
      (quiet_where_same (Watched-discrete (watched (apply st (alive n))) (watched st))
        (unfold watched in ground arith))
      (ground arith)
