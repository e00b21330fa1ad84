-- ===== src/Controls/Hub/Operations/Setting.antt =====
-- What `ControlHub::set` changes of the values, and what it leaves (src/backend/src/controls.rs).
use carnine.Prelude.{
  ◌⊎◌, ◌≤◌, ℕ, zero, suc, ◌≡◌, refl, ap, Bool, true, false, Option, none, some, List, [], ◌∷◌, map,
  arith, set,
}
use carnine.Controls.Types.{
  Kind, switch, slider, on, level, Binding, demo, mcp23017, pwm, Output, Control, ControlState,
  Value, invalid_value,
}
use carnine.Controls.Board.{Board}
use carnine.Controls.Chip.{Mcp23017}
use carnine.Controls.Output.{PwmOutput}
use carnine.Controls.Hub.{
  Hub, refused, refresh, conclude, put_chip_value, put_output_value, put_on_hardware,
}
use carnine.Controls.Hub.Maps.{find_chip, find_output}
use carnine.Controls.Hub.Operations.{Reply, replies, fails}

abbrev pub value_of : ControlState → List ℕ × Value
value_of s = (s.id, s.value)

-- Ids and values, without who is available.
abbrev pub values : List ControlState → List (List ℕ × Value)
values = map value_of

pub values-refresh :
    (chips : List Mcp23017) (outputs : List PwmOutput) (cs : List Control) (ss : List ControlState)
    → values (refresh chips outputs cs ss).0 ≡ values ss
unfolding refresh
values-refresh chips outputs [] ss = refl
values-refresh chips outputs (c ∷ cs) [] = refl
values-refresh chips outputs (c ∷ cs) (s ∷ ss) =
    ap (λ l. (s.id, s.value) ∷ l) (values-refresh chips outputs cs ss)

pub map-set {ℓ κ} :
    {A : Type ℓ} {B : Type κ} (f : A → B) (l : List A) (i : ℕ) (a : A)
    → map f (set l i a) ≡ set (map f l) i (f a)
map-set f [] i a = refl
map-set f (x ∷ l) zero a = refl
map-set f (x ∷ l) (suc i) a = ap (λ r. f x ∷ r) (map-set f l i a)

-- A value of the control's kind, a level of 100 at most.
abbrev pub IsValue : Kind → Value → Type 0
IsValue switch (on b) = Unit
IsValue slider (level n) = n ≤ 100
IsValue switch (level n) = ⊥
IsValue slider (on b) = ⊥

module _ (B : Board) where
  -- What `put_on_hardware` leaves as it was: all but the drivers and who is available.
  abbrev pub SameValues : Hub B → Hub B → Type 0
  SameValues h q =
      (values q.states ≡ values h.states)
      × (q.controls ≡ h.controls)
      × (q.normal ≡ h.normal)
      × (q.boosting ≡ h.boosting)
      × (q.shutting_down ≡ h.shutting_down)

  conclude-SameValues :
      (h : Hub B) (id : List ℕ) (done : Bool) → SameValues h (conclude B h id done).0
  unfolding conclude
  conclude-SameValues h id true =
      ground (arith, values-refresh h.chips h.outputs h.controls h.states)
  conclude-SameValues h id false =
      ground (arith, values-refresh h.chips h.outputs h.controls h.states)

  put_chip_value-SameValues :
      (h : Hub B) (id : List ℕ) (pin : ℕ) (value : Value) (o : Option Mcp23017)
      → SameValues h (put_chip_value B h id pin value o).0
  unfolding put_chip_value
  put_chip_value-SameValues h id pin value none = (refl, refl, refl, refl, refl)
  put_chip_value-SameValues h id pin value (some c) = conclude-SameValues _ id _

  put_output_value-SameValues :
      (h : Hub B) (id : List ℕ) (o : Output) (previous value : Value) (out : Option PwmOutput)
      → SameValues h (put_output_value B h id o previous value out).0
  unfolding put_output_value
  put_output_value-SameValues h id o previous value none = (refl, refl, refl, refl, refl)
  put_output_value-SameValues h id o previous value (some out) = conclude-SameValues _ id _

  -- Driving the hardware, with success or not, changes no value of the hub's.
  pub put_on_hardware-SameValues :
      (h : Hub B) (c : Control) (previous value : Value)
      → SameValues h (put_on_hardware B h c previous value).0
  unfolding put_on_hardware
  put_on_hardware-SameValues h c previous value = by_binding c.binding refl
    where
      by_binding :
          (b : Binding) → c.binding ≡ b → SameValues h (put_on_hardware B h c previous value).0
      by_binding demo e = rw (e, put_on_hardware) (refl, refl, refl, refl, refl)
      by_binding (mcp23017 p) e =
          rw (e, put_on_hardware)
            (put_chip_value-SameValues h c.id p.pin value (find_chip p.bus p.address h.chips))
      by_binding (pwm o) e =
          rw (e, put_on_hardware)
            (put_output_value-SameValues h c.id o previous value
              (find_output o.chip o.channel h.outputs))

  -- What a setting says, where from, and what it makes of the values.
  abbrev pub Answers : Hub B → ℕ → Control → Value → Value → Hub B × Reply → Type 0
  Answers h index c previous value (q, replies s) =
      IsValue c.kind value
      × ((put_on_hardware B h c previous value).1 ≡ none)
      × (s ≡ record { id = c.id; value = value; available = true })
      × (values q.states ≡ set (values h.states) index (c.id, value))
      × (q.normal ≡ h.normal)
  Answers h index c previous value (q, fails f) =
      ((¬ IsValue c.kind value) × (q ≡ h) × (f ≡ refused (invalid_value value)))
      ⊎ (IsValue c.kind value
          × ((put_on_hardware B h c previous value).1 ≡ some f)
          × (values q.states ≡ values h.states)
          × (q.normal ≡ h.normal))
