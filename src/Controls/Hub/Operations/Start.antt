-- ===== src/Controls/Hub/Operations/Start.antt =====
-- How a hub starts (src/backend/src/controls.rs): which entries become controls, and with which
-- values.
use carnine.Prelude.Bytes.Texts.{same_sym}
use carnine.Prelude.{
  ℕ, ◌≡◌, refl, ◌∙◌, sym, Bool, true, false, ◌||◌, Option, some, List, [], ◌∷◌, ◌++◌, All,
  All-append, arith, inl, inr, Bool-cases,
}
use carnine.Prelude.Bytes.{same}
use carnine.Controls.Types.{
  Kind, switch, slider, Binding, demo, mcp23017, pwm, Control, ControlState, Value, off_value,
}
use carnine.Controls.Config.{ControlConfig, Result, ok, err, from_config}
use carnine.Controls.Config.Sound.{IsValid, from_config-IsValid}
use carnine.Controls.Board.{Board}
use mathlib.Core.Path.{subst₂}
use carnine.Controls.Chip.{Mcp23017}
use carnine.Controls.Chip
use carnine.Controls.Output.{PwmOutput}
use carnine.Controls.Hub.{Hub, refresh}
use carnine.Controls.Hub.Operations.{fits, through, bring_up_pwm, bring_up_control, bring_up_output}
use carnine.Controls.Hub.Operations.Build.{
  is_known, push_new, admit, Saved, restored, first_state, first_states, bring_up_all, unbuilt,
  with_pwm,
}

-- No two controls share an id.
abbrev pub Unique : List Control → Type 0
Unique [] = Unit
Unique (c ∷ cs) = (is_known c.id cs ≡ false) × Unique cs

is_known-append :
    (id : List ℕ) (cs : List Control) (c : Control)
    → is_known id (cs ++ c ∷ []) ≡ (is_known id cs || same c.id id)
unfolding is_known
is_known-append id [] c = ground arith
is_known-append id (x ∷ cs) c = ground (arith, is_known-append id cs c)

Unique-append :
    (cs : List Control) (c : Control) → Unique cs → is_known c.id cs ≡ false → Unique (cs ++ c ∷ [])
unfolding is_known
Unique-append [] c u k = (refl, tt)
Unique-append (x ∷ cs) c u k = (
  ground (arith, is_known-append x.id cs c, same_sym x.id c.id),
  Unique-append cs c u.1 (ground arith),
)

abbrev Sound : List Control → Type 0
Sound cs = Unique cs × All IsValid cs

push_new-Sound :
    (known : List Control) (r : Result Control)
    → ((c : Control) → r ≡ ok c → IsValid c)
    → Sound known
    → Sound (push_new known r)
unfolding push_new
push_new-Sound known (err e) valid s = s
push_new-Sound known (ok c) valid s = elim (Bool-cases (is_known c.id known)) [
  | inl taken ↦ rw taken s
  | inr free ↦
      rw free
        (Unique-append known c s.0 free, All-append IsValid known (c ∷ []) s.1 (valid c refl, tt))
]

admit-Sound :
    (known : List Control) (entries : List ControlConfig)
    → Sound known
    → Sound (admit known entries)
unfolding admit
admit-Sound known [] s = s
admit-Sound known (e ∷ entries) s =
    admit-Sound (push_new known (from_config e)) entries
      (push_new-Sound known (from_config e) (λ c. from_config-IsValid e c) s)

-- Each state is its control's, with a value of the control's kind and a level of 100 at most.
abbrev pub Typed : List Control → List ControlState → Type 0
Typed [] [] = Unit
Typed [] (s ∷ ss) = ⊥
Typed (c ∷ cs) [] = ⊥
Typed (c ∷ cs) (s ∷ ss) = (s.id ≡ c.id) × (fits c.kind s.value ≡ true) × Typed cs ss

fits-off_value : (c : Control) → fits c.kind (off_value c) ≡ true
unfolding fits off_value
fits-off_value c = ground arith

fits-restored :
    (restore : Bool) (kind : Kind) (saved : Option (Option Bool × Option ℕ)) (off : Value)
    → fits kind off ≡ true
    → fits kind (restored restore kind saved off) ≡ true
unfolding fits restored
fits-restored true switch (some (some b, l)) off h = refl
fits-restored true slider (some (b, some l)) off h = ground arith
fits-restored _ _ _ off h = h

first_states-Typed : (saved : Saved) (cs : List Control) → Typed cs (first_states saved cs)
unfolding first_states first_state
first_states-Typed saved [] = tt
first_states-Typed saved (c ∷ cs) = (
  refl,
  fits-restored c.restore c.kind (saved c.id) (off_value c) (fits-off_value c),
  first_states-Typed saved cs,
)

refresh-Typed :
    (chips : List Mcp23017) (outs : List PwmOutput) (cs : List Control) (ss : List ControlState)
    → Typed cs ss
    → Typed cs (refresh chips outs cs ss).0
unfolding refresh
refresh-Typed chips outs [] [] t = tt
refresh-Typed chips outs [] (s ∷ ss) t = t
refresh-Typed chips outs (c ∷ cs) [] t = t
refresh-Typed chips outs (c ∷ cs) (s ∷ ss) t = (t.0, t.1, refresh-Typed chips outs cs ss t.2)

module _ (B : Board) where
  abbrev pub SameControls : Hub B → Hub B → Type 0
  SameControls h q = (q.controls ≡ h.controls) × (q.states ≡ h.states)

  bring_up_control-SameControls :
      (h : Hub B) (c : Control) (s : ControlState) (b : Binding)
      → SameControls h (bring_up_control B h c s b)
  unfolding bring_up_control bring_up_output
  bring_up_control-SameControls h c s demo = (refl, refl)
  bring_up_control-SameControls h c s (mcp23017 p) = (refl, refl)
  bring_up_control-SameControls h c s (pwm o) = ground arith

  pub bring_up_pwm-SameControls :
      (h : Hub B) (cs : List Control) (ss : List ControlState)
      → SameControls h (bring_up_pwm B h cs ss)
  unfolding bring_up_pwm
  bring_up_pwm-SameControls h (c ∷ cs) (s ∷ ss) =
      let one = bring_up_control-SameControls h c s c.binding in
      let rest = bring_up_pwm-SameControls (bring_up_control B h c s c.binding) cs ss in
      (rest.0 ∙ one.0, rest.1 ∙ one.1)
  bring_up_pwm-SameControls h [] ss = (refl, refl)
  bring_up_pwm-SameControls h (c ∷ cs) [] = (refl, refl)

  abbrev Started : List Control → List ControlState → Type 0
  Started cs ss = Unique cs × All IsValid cs × Typed cs ss

  Started-refreshed :
      (q : Hub B)
      → Started q.controls q.states
      → Started q.controls (refresh q.chips q.outputs q.controls q.states).0
  Started-refreshed q (u, v, t) = (u, v, refresh-Typed q.chips q.outputs q.controls q.states t)

  Started-driven :
      (h : Hub B)
      → Started h.controls h.states
      → let q = bring_up_pwm B h h.controls h.states in Started q.controls q.states
  Started-driven h t =
      let e = bring_up_pwm-SameControls h h.controls h.states in
      subst₂ Started (sym e.0) (sym e.1) t

  Started-up :
      (h : Hub B)
      → Started h.controls h.states
      → let q = bring_up_all B h in Started q.controls q.states
  unfolding bring_up_all
  Started-up h t =
      let chips = through B (λ _. true) (Chip.bring_up B) h.chips h.board in
      let v : Hub B = record h { chips = chips.0; board = chips.1 } in
      Started-refreshed (bring_up_pwm B v v.controls v.states) (Started-driven v t)

  -- Whatever the configuration, the database and the hardware are: the hub starts with controls of
  -- different ids, each of them valid, and with a state for each control in their order, of the
  -- control's id and kind and no level beyond 100.
  pub with_pwm-Typed :
      (entries : List ControlConfig) (saved : Saved) (board : B.State)
      → let h = with_pwm B entries saved board in
        Unique h.controls × All IsValid h.controls × Typed h.controls h.states
  unfolding with_pwm unbuilt
  with_pwm-Typed entries saved board =
      let controls = admit [] entries in
      let admitted = admit-Sound [] entries (tt, tt) in
      Started-up (unbuilt B controls (first_states saved controls) board)
        (admitted.0, admitted.1, first_states-Typed saved controls)
