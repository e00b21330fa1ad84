-- ===== src/Voice/Order.antt =====
-- The order in which announcements come out (src/backend/src/voice.rs).
pub mod Row
pub mod Turns
use carnine.Prelude.{
  ℕ, zero, suc, ◌+◌, ◌-◌, ◌<◌, ◌≤◌, ◌≡◌, ◌≢◌, ◌⊎◌, inl, inr, refl, sym, ap, subst, ◌∙◌, Bool, true,
  false, ◌||◌, ◌&&◌, not, Option, none, some, List, [], ◌∷◌, ◌++◌, max, arith, All, ltb, leb,
  if◌then◌else◌, Bool-cases, Option-cases,
}
use carnine.Prelude.Bytes.{is_empty, trim}
use carnine.MediaPlayer.Player.{Priority, info, maneuver, outranks}
use carnine.MediaPlayer.Queue.Slots.{if_then_else_lem}
use carnine.Voice.Synthesizer.{Synthesizer}
use carnine.Voice.Cache.{Store, speech_file, find_file}
use carnine.Voice.Worker.{
  Voice, Announcement, Command, to_prepare, to_fix, to_speak, was_spoken, Phase, loading, failed,
  idle, Played, at_least, is_newer, receive, newer, overtaken, take_command, drain, begin, sink,
  finish, prepare_next, drop_through, turn, load, fixed_due,
}
use carnine.Voice.Caller.{
  Action, announces, prepares, sets_enabled, loads, turns, act, act_all, start, announce, ask, send,
  prepare, set_enabled, send_fixed_texts,
}
use carnine.Voice.Order.Row.{
  Rising, is_other, Rising-send, Rising-ask, Rising-direct, direct_number, IsOf, waiting, Timely,
  direct_before, Falling, Falling-le, at_least_refl, at_least_same,
}
use carnine.Voice.Order.Turns.{IsTimely, turn_in, load-IsTimely}

module _ (p : Priority) (S : Synthesizer) where
  waiting-send :
      (phase : Phase) (commands : List Command) (c : Command)
      → waiting p phase (commands ++ c ∷ []) ≡ waiting p phase commands ++ c ∷ []
  waiting-send loading commands c = refl
  waiting-send failed commands c = refl
  waiting-send idle commands c = refl
  waiting-send (Phase.speaking a) commands c = refl

  send-IsTimely :
      (c : Command) (v : Voice S) → is_other p c ≡ true → IsTimely p S v → IsTimely p S (send S c v)
  send-IsTimely c v o (w, t) =
      let r =
        Rising-send p (direct_number p v.played_direct) v.announced w (waiting p v.phase v.commands)
          c o t.0 in
      (w, (rw (waiting-send v.phase v.commands c) r, t.1, t.2, t.3, t.4))

  set_enabled-IsTimely :
      (b : Bool) (v : Voice S) → IsTimely p S v → IsTimely p S (set_enabled S b v)
  unfolding set_enabled send_fixed_texts
  set_enabled-IsTimely b v t =
      let w = record v { enabled = b } in
      if_then_else_lem (IsTimely p S) (b && not v.enabled)
        (λ _.
          if_then_else_lem (IsTimely p S) (is_empty v.fixed_texts) (λ _. t)
            λ _. send-IsTimely (to_fix v.fixed_texts) w refl t)
        (λ _. t)

  prepare-IsTimely :
      (texts : List (List ℕ)) (v : Voice S) → IsTimely p S v → IsTimely p S (prepare S texts v)
  unfolding prepare
  prepare-IsTimely texts v t =
      if_then_else_lem (IsTimely p S) v.enabled (λ _. send-IsTimely (to_prepare texts) v refl t)
        (λ _. t)

  ask-IsTimely :
      (a : Announcement) (v : Voice S)
      → a.number ≡ suc v.announced
      → a.priority ≡ p
      → IsTimely p S v
      → IsTimely p S (ask S a (record v { announced = suc v.announced }))
  unfolding ask
  ask-IsTimely a v n q (w, t) = elim (Option-cases (find_file a.text v.store.cache.files)) [
    | inl e ↦
        let r =
          Rising-ask p (direct_number p v.played_direct) v.announced w
            (waiting p v.phase v.commands) a n q t.2 t.3 t.0 in
        rw (ask, e)
          (
            w,
            (
              rw (waiting-send v.phase v.commands (to_speak a)) r,
              t.1,
              omega (arith, t.2),
              omega (arith, t.3),
              t.4,
            ),
          )
    | inr (file, e) ↦
        let d = direct_number p v.played_direct in
        let r =
          Rising-send p a.number (suc v.announced) w (waiting p v.phase v.commands)
            (was_spoken a.text) refl
            (Rising-direct p d v.announced w a.number (waiting p v.phase v.commands) n t.0) in
        rw (ask, e)
          (
            w,
            (
              rw (waiting-send v.phase v.commands (was_spoken a.text)) r,
              q,
              omega (arith, n),
              omega (arith, t.3),
              (
                omega arith,
                Falling-le (suc (max d w)) a.number v.played (omega (arith, n, t.2, t.3)) t.4,
              ),
            ),
          )
  ]

  announce-IsTimely :
      (text : List ℕ) (v : Voice S) → IsTimely p S v → IsTimely p S (announce S text p v)
  unfolding announce
  announce-IsTimely text v t =
      if_then_else_lem (IsTimely p S) (not v.enabled || is_empty (trim text)) (λ _. t)
        λ _.
          ask-IsTimely (record { text = text; priority = p; number = suc v.announced }) v refl refl
            t

  -- An action that is no announcement of another priority than `p`.
  abbrev pub IsOfPriority : Action → Type 0
  IsOfPriority (announces text q) = q ≡ p
  IsOfPriority _ = Unit

  act-IsTimely :
      (v : Voice S) (a : Action) → IsOfPriority a → IsTimely p S v → IsTimely p S (act S v a)
  unfolding act
  act-IsTimely v (announces text q) o t = rw o (announce-IsTimely text v t)
  act-IsTimely v (prepares texts) o t = prepare-IsTimely texts v t
  act-IsTimely v (sets_enabled b) o t = set_enabled-IsTimely b v t
  act-IsTimely v (loads works now) o t = load-IsTimely p S works now v t
  act-IsTimely v (turns now) o t = turn_in p S v.phase now v refl t

  act_all-IsTimely :
      (actions : List Action) (v : Voice S)
      → All IsOfPriority actions
      → IsTimely p S v
      → IsTimely p S (act_all S v actions)
  unfolding act_all
  act_all-IsTimely [] v o t = t
  act_all-IsTimely (a ∷ actions) v o t =
      act_all-IsTimely actions (act S v a) o.1 (act-IsTimely v a o.0 t)

  start-IsTimely :
      (state : S.State) (enabled : Bool) (fixed_texts : List (List ℕ))
      → IsTimely p S (start S state enabled fixed_texts)
  unfolding start send_fixed_texts
  start-IsTimely state false fixed_texts = (0, (tt, tt, omega arith, omega arith, tt))
  start-IsTimely state true [] = (0, (tt, tt, omega arith, omega arith, tt))
  start-IsTimely state true (text ∷ fixed_texts) = (0, (tt, tt, omega arith, omega arith, tt))

  -- Where all announcements have the same priority, they come out in the order in which they were
  -- asked for, each at most once, whatever the synthesizer does and in whatever order the callers
  -- and the voice thread take their turns: none follows one that is newer.
  pub act_all-Falling :
      (state : S.State) (enabled : Bool) (fixed_texts : List (List ℕ)) (actions : List Action)
      → All IsOfPriority actions
      → let v = act_all S (start S state enabled fixed_texts) actions in
        Falling (suc v.announced) v.played
  act_all-Falling state enabled fixed_texts actions o =
      let v = act_all S (start S state enabled fixed_texts) actions in
      let (w, t) =
        act_all-IsTimely actions (start S state enabled fixed_texts) o
          (start-IsTimely state enabled fixed_texts) in
      Falling-le (suc (max (direct_number p v.played_direct) w)) (suc v.announced) v.played
        (omega (arith, t.2, t.3)) t.4
