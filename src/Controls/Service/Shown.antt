-- ===== src/Controls/Service/Shown.antt =====
-- Which controls and states clients see (src/backend/src/controls.rs).
use carnine.Prelude.Bytes.Texts.{same_refl, same_sym}
use carnine.Prelude.{
  ℕ, ◌≡◌, refl, ap, ◌∙◌, sym, subst, if◌then◌else◌, Bool, true, false, List, [], ◌∷◌, map, All,
  arith, Bool-cases, inl, inr,
}
use carnine.Controls.Types.{Control, ControlState}
use carnine.Controls.Config.{ControlConfig}
use carnine.Controls.Board.{Board}
use carnine.Controls.Hub.Operations.Build.{is_known, Saved, with_pwm}
use carnine.Controls.Hub.Operations.Start.{Unique, Typed, with_pwm-Typed}
use carnine.Controls.Service.{
  SentState, ListedControl, listed, shown_controls, hidden_ids, contains, shown_states,
  state_to_proto, get_controls, stream_of, stream_control_states,
}

-- The set of hidden ids tells of each of these controls whether it is hidden.
abbrev Tells : List (List ℕ) → List Control → Type 0
Tells hidden cs = All (λ c. contains c.id hidden ≡ c.hidden) cs

contains-hidden_ids :
    (id : List ℕ) (cs : List Control) → is_known id cs ≡ false → contains id (hidden_ids cs) ≡ false
unfolding contains hidden_ids is_known
contains-hidden_ids id [] h = refl
contains-hidden_ids id (c ∷ cs) h = ground (arith, contains-hidden_ids id cs)

Tells-other :
    (id : List ℕ) (hidden : List (List ℕ)) (cs : List Control)
    → is_known id cs ≡ false
    → Tells hidden cs
    → Tells (id ∷ hidden) cs
unfolding contains is_known
Tells-other id hidden [] h t = tt
Tells-other id hidden (c ∷ cs) h t =
    (ground (arith, same_sym c.id id, t.0), Tells-other id hidden cs (ground arith) t.1)

hidden_ids_with :
    (c : Control) (cs : List Control)
    → hidden_ids (c ∷ cs) ≡ (if c.hidden then c.id ∷ hidden_ids cs else hidden_ids cs)
unfolding hidden_ids
hidden_ids_with c cs = refl

hidden_ids-Tells : (cs : List Control) → Unique cs → Tells (hidden_ids cs) cs
unfolding contains
hidden_ids-Tells [] u = tt
hidden_ids-Tells (c ∷ cs) u =
    subst (λ ids. Tells ids (c ∷ cs)) (sym (hidden_ids_with c cs))
      (by_hidden c.hidden refl (hidden_ids-Tells cs u.1))
  where
    by_hidden :
        (b : Bool)
        → c.hidden ≡ b
        → Tells (hidden_ids cs) cs
        → Tells (if b then c.id ∷ hidden_ids cs else hidden_ids cs) (c ∷ cs)
    by_hidden true h rest =
        (ground (arith, same_refl c.id), Tells-other c.id (hidden_ids cs) cs u.0 rest)
    by_hidden false h rest = (contains-hidden_ids c.id cs u.0 ∙ sym h, rest)

shown_same :
    (hidden : List (List ℕ)) (cs : List Control) (ss : List ControlState)
    → Tells hidden cs
    → Typed cs ss
    → map (λ (s : SentState). s.id) (map state_to_proto (shown_states hidden ss))
      ≡ map (λ (c : ListedControl). c.id) (map listed (shown_controls cs))
unfolding shown_states shown_controls state_to_proto
shown_same hidden [] [] t y = refl
shown_same hidden [] (s ∷ ss) t y = elim y [ ]
shown_same hidden (c ∷ cs) [] t y = elim y [ ]
shown_same hidden (c ∷ cs) (s ∷ ss) t y = elim (Bool-cases c.hidden) [
  | inl h ↦ rw (y.0, t.0, h) (shown_same hidden cs ss t.1 y.2)
  | inr h ↦ rw (y.0, t.0, h) (ap (λ l. c.id ∷ l) (shown_same hidden cs ss t.1 y.2))
]

-- Whatever the configuration, the database and the hardware are: the stream that a client opens on
-- the hub as it starts begins with a state of exactly the controls that the client is listed, in
-- their order, so no hidden one and none twice.
pub stream-get_controls :
    (B : Board) (entries : List ControlConfig) (saved : Saved) (board : B.State)
    → let h = with_pwm B entries saved board in
      map (λ (s : SentState). s.id) (stream_control_states B h)
      ≡ map (λ (c : ListedControl). c.id) (get_controls B h)
unfolding stream_control_states stream_of get_controls
stream-get_controls B entries saved board =
    let h = with_pwm B entries saved board in
    let good = with_pwm-Typed B entries saved board in
    shown_same (hidden_ids h.controls) h.controls h.states (hidden_ids-Tells h.controls good.0)
      good.2
