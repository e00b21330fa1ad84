-- ===== src/Controls/Hub/Operations/Overheat.antt =====
-- The overheat boost of `ControlHub` (src/backend/src/controls.rs): what a boosted control gets, and
-- what becomes of its own value.
use carnine.Prelude.Bytes.Texts.{same_refl}
use carnine.Prelude.{
  ℕ, zero, suc, ◌≡◌, refl, ap, ◌∙◌, Bool, true, false, Option, none, some, List, [], ◌∷◌, arith,
  get_elem?, set, length,
}
use carnine.Controls.Types.{Control, ControlState, Value}
use carnine.Controls.Board.{Board}
use carnine.Controls.Hub.{Hub, Failure, put_on_hardware}
use carnine.Controls.Hub.Maps.{find_value, remove_value, insert_value}
use carnine.Controls.Hub.Operations.{full, target_of, follow, boost_apply, boost_one}
use carnine.Controls.Hub.Operations.Setting.{values, value_of, map-set, put_on_hardware-SameValues}

pub find_value-remove_value :
    (id : List ℕ) (m : List (List ℕ × Value)) → find_value id (remove_value id m) ≡ none
unfolding find_value remove_value
find_value-remove_value id [] = refl
find_value-remove_value id ((i, v) ∷ m) = ground (arith, find_value-remove_value id m)

pub find_value-insert_value :
    (id : List ℕ) (v : Value) (m : List (List ℕ × Value))
    → find_value id (insert_value id v m) ≡ some v
unfolding find_value insert_value
find_value-insert_value id v m = rw (same_refl id)

length-map : (ss : List ControlState) → length (values ss) ≡ length ss
length-map [] = refl
length-map (s ∷ ss) = ap suc (length-map ss)

-- The state at an index keeps its value where all values are kept.
value_at :
    (ss ts : List ControlState) (i : ℕ) (s : ControlState)
    → values ts ≡ values ss
    → get_elem? ss i ≡ some s
    → (t : ControlState) × (get_elem? ts i ≡ some t) × (t.id ≡ s.id) × (t.value ≡ s.value)
value_at [] ts i s e h = cc
value_at (x ∷ ss) [] i s e h = cc
value_at (x ∷ ss) (y ∷ ts) zero s e h = (y, refl, ground arith, ground arith)
value_at (x ∷ ss) (y ∷ ts) (suc i) s e h = value_at ss ts i s (ground arith) h

module _ (B : Board) where
  follow_lem :
      (h q : Hub B) (index : ℕ) (s : ControlState) (target : Value)
      → values q.states ≡ values h.states
      → get_elem? h.states index ≡ some s
      → values (follow B q index target none (get_elem? q.states index)).states
        ≡ set (values h.states) index (s.id, target)
  unfolding follow
  follow_lem h q index s target e at =
      let (t, found, id, _) = value_at h.states q.states index s e at in
      rw (found, follow)
        (map-set value_of q.states index _
          ∙ ap (λ l. set l index (t.id, target)) e
          ∙ ap (λ i. set (values h.states) index (i, target)) id)

  follow-normal :
      (q : Hub B) (index : ℕ) (target : Value) (f : Option Failure) (s : Option ControlState)
      → (follow B q index target f s).normal ≡ q.normal
  unfolding follow
  follow-normal q index target (some f) s = refl
  follow-normal q index target none none = refl
  follow-normal q index target none (some s) = refl

  -- The hardware takes the value: it stands in the control's place, and nothing else changes.
  boost_apply_works :
      (h : Hub B) (index : ℕ) (c : Control) (s : ControlState) (target : Value)
      → get_elem? h.states index ≡ some s
      → (put_on_hardware B h c s.value target).1 ≡ none
      → (values (boost_apply B h index c s.value target).states
          ≡ set (values h.states) index (s.id, target))
        × ((boost_apply B h index c s.value target).normal ≡ h.normal)
  unfolding boost_apply
  boost_apply_works h index c s target at works =
      let kept = put_on_hardware-SameValues B h c s.value target in
      let q = (put_on_hardware B h c s.value target).0 in
      rw works (
        follow_lem h q index s target kept.0 at,
        follow-normal q index target none (get_elem? q.states index) ∙ kept.2,
      )

  boost_apply_fails :
      (h : Hub B) (index : ℕ) (c : Control) (s : ControlState) (target : Value) (f : Failure)
      → (put_on_hardware B h c s.value target).1 ≡ some f
      → (values (boost_apply B h index c s.value target).states ≡ values h.states)
        × ((boost_apply B h index c s.value target).normal ≡ h.normal)
  unfolding boost_apply follow
  boost_apply_fails h index c s target f fails =
      let kept = put_on_hardware-SameValues B h c s.value target in rw fails (kept.0, kept.2)

  -- The state of the hub in which a boosted control's turn drives the hardware, and the value.
  abbrev pub Takes : Hub B → Bool → Control → ControlState → Option Failure → Type 0
  Takes h overheated c s f =
      let (target, h') = target_of B h overheated c s in
      (put_on_hardware B h' c s.value target).1 ≡ f

  boost_one_up :
      (h : Hub B) (index : ℕ) (c : Control) (s : ControlState)
      → get_elem? h.states index ≡ some s
      → Takes h true c s none
      → (values (boost_one B h true index c (some s)).states
          ≡ set (values h.states) index (s.id, full c.kind))
        × ((boost_one B h true index c (some s)).normal ≡ insert_value c.id s.value h.normal)
  unfolding boost_one target_of
  boost_one_up h index c s at up = boost_apply_works _ index c s _ at up

  boost_one_down :
      (h : Hub B) (index : ℕ) (c : Control) (s : ControlState) (own : Value)
      → get_elem? h.states index ≡ some s
      → find_value c.id h.normal ≡ some own
      → Takes h false c s none
      → (values (boost_one B h false index c (some s)).states
          ≡ set (values h.states) index (s.id, own))
        × ((boost_one B h false index c (some s)).normal ≡ remove_value c.id h.normal)
  unfolding boost_one target_of
  boost_one_down h index c s own at kept down =
      let e = boost_apply_works _ index c s _ at down in
      (
        e.0
            ∙ ap
                (λ (o : Option Value).
                  let v : Value = elim o [ none ↦ s.value | some v ↦ v ] in
                  set (values h.states) index (s.id, v))
                kept,
        e.1,
      )

  -- When the CPU overheats, a boosted control whose hardware answers goes to full, and its own value
  -- is kept aside; when it cools down and the hardware answers again, the own value stands in its
  -- place again, and nothing is kept aside for it any more.
  pub boost_one_there_and_back :
      (h : Hub B) (index : ℕ) (c : Control) (s : ControlState) (t : ControlState)
      → get_elem? h.states index ≡ some s
      → Takes h true c s none
      → get_elem? (boost_one B h true index c (some s)).states index ≡ some t
      → Takes (boost_one B h true index c (some s)) false c t none
      → let q = boost_one B h true index c (some s) in
        (values q.states ≡ set (values h.states) index (s.id, full c.kind))
        × (find_value c.id q.normal ≡ some s.value)
        × (values (boost_one B q false index c (some t)).states
            ≡ set (values q.states) index (t.id, s.value))
        × (find_value c.id (boost_one B q false index c (some t)).normal ≡ none)
  boost_one_there_and_back h index c s t at up at' down =
      let q = boost_one B h true index c (some s) in
      let went = boost_one_up h index c s at up in
      let kept : find_value c.id q.normal ≡ some s.value =
        ap (find_value c.id) went.1 ∙ find_value-insert_value c.id s.value h.normal in
      let back = boost_one_down q index c t s.value at' kept down in
      (went.0, kept, back.0, ap (find_value c.id) back.1 ∙ find_value-remove_value c.id q.normal)

  -- When it cools down and the hardware does not answer in the control's turn, the value that the
  -- boost left stays in its place, and nothing is kept aside for it any more: its own value is lost.
  pub boost_one_forgets :
      (h : Hub B) (index : ℕ) (c : Control) (s : ControlState) (f : Failure)
      → Takes h false c s (some f)
      → (values (boost_one B h false index c (some s)).states ≡ values h.states)
        × (find_value c.id (boost_one B h false index c (some s)).normal ≡ none)
  unfolding boost_one target_of
  boost_one_forgets h index c s f fails =
      let e = boost_apply_fails _ index c s _ f fails in
      (e.0, ap (find_value c.id) e.1 ∙ find_value-remove_value c.id h.normal)
