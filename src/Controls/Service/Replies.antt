-- ===== src/Controls/Service/Replies.antt =====
-- Which status a client gets for a setting (src/backend/src/controls.rs).
use carnine.Prelude.{
  ℕ, ◌≡◌, ◌≢◌, ◌↔◌, refl, Bool, true, false, Option, none, some, List, arith, get_elem?,
  Option-cases, inl, inr,
}
use carnine.Controls.Types.{Output, Binding, demo, mcp23017, pwm, Control, ControlState, Value}
use carnine.Controls.Board.{Board}
use carnine.Controls.Chip.{Mcp23017}
use carnine.Controls.Output.{PwmOutput}
use carnine.Controls.Hub.{Hub, Failure, put_on_hardware, put_chip_value, put_output_value, conclude}
use carnine.Controls.Hub.Maps.{find_chip, find_output}
use carnine.Controls.Hub.Operations.{
  Reply, position, reply_plain, set_plain, set_known, set_boosted, set_value,
}
use carnine.Controls.Service.{not_found, status_of, err, respond, set_control_state}

abbrev IsKnown : Option Failure → Type 0
IsKnown none = Unit
IsKnown (some f) = status_of f ≢ not_found

module _ (B : Board) where
  conclude-IsKnown : (h : Hub B) (id : List ℕ) (b : Bool) → IsKnown (conclude B h id b).1
  unfolding conclude status_of
  conclude-IsKnown h id true = tt
  conclude-IsKnown h id false = ground arith

  put_on_hardware-IsKnown :
      (h : Hub B) (c : Control) (previous value : Value)
      → IsKnown (put_on_hardware B h c previous value).1
  unfolding put_on_hardware put_chip_value put_output_value status_of
  put_on_hardware-IsKnown h c previous value = by_binding c.binding refl
    where
      by_chip : (pin : ℕ) (o : Option Mcp23017) → IsKnown (put_chip_value B h c.id pin value o).1
      by_chip pin none = ground arith
      by_chip pin (some x) = conclude-IsKnown _ c.id _

      by_output :
          (o : Output) (out : Option PwmOutput)
          → IsKnown (put_output_value B h c.id o previous value out).1
      by_output o none = ground arith
      by_output o (some x) = conclude-IsKnown _ c.id _

      by_binding : (b : Binding) → c.binding ≡ b → IsKnown (put_on_hardware B h c previous value).1
      by_binding demo e = rw (e, put_on_hardware) tt
      by_binding (mcp23017 p) e =
          rw (e, put_on_hardware) (by_chip p.pin (find_chip p.bus p.address h.chips))
      by_binding (pwm o) e =
          rw (e, put_on_hardware) (by_output o (find_output o.chip o.channel h.outputs))

  -- A reply that is not `not_found`.
  abbrev Found : Reply → Type 0
  Found r = respond r ≢ err not_found

  reply_plain-Found :
      (q : Hub B) (index : ℕ) (c : Control) (value : Value) (f : Option Failure)
      → IsKnown f
      → Found (reply_plain B q index c value f).1
  unfolding reply_plain respond
  reply_plain-Found q index c value none k = ground arith
  reply_plain-Found q index c value (some f) k = ground arith

  set_known-Found :
      (h : Hub B) (index : ℕ) (c : Option Control) (s : Option ControlState) (value : Value)
      → Found (set_known B h index c s value).1
  unfolding set_known respond status_of set_plain set_boosted
  set_known-Found h index none s value = ground arith
  set_known-Found h index (some c) none value = ground arith
  set_known-Found h index (some c) (some s) value = ground (
    arith,
    reply_plain-Found (put_on_hardware B h c s.value value).0 index c value
        (put_on_hardware B h c s.value value).1 (put_on_hardware-IsKnown h c s.value value),
  )

  -- While the hub runs, a client gets `not_found` for a setting exactly if no control has the id.
  pub set_control_state-not_found :
      (h : Hub B) (id : List ℕ) (value : Value)
      → h.shutting_down ≡ false
      → ((set_control_state B h id (some value)).1 ≡ err not_found)
        ↔ (position id h.controls 0 ≡ none)
  unfolding set_control_state set_value respond status_of
  set_control_state-not_found h id value running = elim (Option-cases (position id h.controls 0)) [
    | inl unknown ↦ rw (unknown, running) (ground arith)
    | inr (index, known) ↦ ground (
      arith,
      known,
      running,
      set_known-Found h index (get_elem? h.controls index) (get_elem? h.states index) value,
    )
  ]
