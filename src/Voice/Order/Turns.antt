-- ===== src/Voice/Order/Turns.antt =====
-- What a turn of the voice thread (src/backend/src/voice.rs) does to the order.
use carnine.Prelude.{
  ℕ, suc, ◌<◌, ◌≡◌, refl, subst, Bool, true, Option, none, some, List, [], ◌∷◌, max, arith,
}
use carnine.MediaPlayer.Player.{Priority}
use carnine.MediaPlayer.Queue.Slots.{if_then_else_lem}
use carnine.Voice.Synthesizer.{Synthesizer}
use carnine.Voice.Cache.{speech_file}
use carnine.Voice.Worker.{
  Voice, Announcement, Command, to_prepare, to_fix, to_speak, was_spoken, Phase, loading, failed,
  idle, receive, newer, overtaken, take_command, drain, begin, sink, finish, prepare_next,
  drop_through, turn, load,
}
use carnine.Voice.Order.Row.{
  Rising, direct_number, waiting, Timely, direct_before, Falling, Falling-le, at_least_refl,
}

module _ (p : Priority) (S : Synthesizer) where
  abbrev pub IsTimely : Voice S → Type 0
  IsTimely v =
      (w : ℕ) × Timely p w v.played_direct v.announced (waiting p v.phase v.commands) v.played

  -- Where all that counts stays the same.
  kept :
      (v w : Voice S)
      → waiting p w.phase w.commands ≡ waiting p v.phase v.commands
      → w.played_direct ≡ v.played_direct
      → w.announced ≡ v.announced
      → w.played ≡ v.played
      → IsTimely v
      → IsTimely w
  kept v v' same direct top played (w, t) = (w, rw (same, direct, top, played) t)

  pub load-IsTimely : (b : Bool) (now : ℕ) (v : Voice S) → IsTimely v → IsTimely (load S b now v)
  unfolding load
  load-IsTimely b now v t =
      kept v (load S b now v) (ground arith) (ground arith) (ground arith) (ground arith) t

  drain_keeps :
      (now : ℕ) (commands : List Command) (a : Announcement) (v : Voice S)
      → let w = (drain S now commands a v).0 in
        (w.commands ≡ [])
        × (w.phase ≡ v.phase)
        × (w.played_direct ≡ v.played_direct)
        × (w.announced ≡ v.announced)
        × (w.played ≡ v.played)
  unfolding drain take_command
  drain_keeps now [] a v = (refl, refl, refl, refl, refl)
  drain_keeps now (to_speak b ∷ commands) a v = drain_keeps now commands (newer S a b) v
  drain_keeps now (to_prepare texts ∷ commands) a v =
      drain_keeps now commands a (record v { pending = texts; route_prepared = true })
  drain_keeps now (to_fix texts ∷ commands) a v =
      drain_keeps now commands a (record v { fixed = texts; fixed_since = now })
  drain_keeps now (was_spoken text ∷ commands) a v =
      drain_keeps now commands a (record v { pending = drop_through text v.pending })

  drain-Rising :
      (now d top w : ℕ) (commands : List Command) (a : Announcement) (v : Voice S)
      → Rising p d top w (to_speak a ∷ commands)
      → Rising p d top w (to_speak (drain S now commands a v).1 ∷ [])
  unfolding drain take_command
  drain-Rising now d top w [] a v r = (r.0, r.1, r.2, r.3, tt)
  drain-Rising now d top w (to_speak b ∷ commands) a v r =
      let latest : newer S a b ≡ b = rw (r.3, r.4.3, at_least_refl p) refl in
      rw (drain, latest)
        (drain-Rising now d top w commands b v
          (omega (arith, r.0, r.4.0), r.4.1, r.4.2, r.4.3, r.4.4))
  drain-Rising now d top w (to_prepare texts ∷ commands) a v r =
      drain-Rising now d top w commands a (record v { pending = texts; route_prepared = true }) r
  drain-Rising now d top w (to_fix texts ∷ commands) a v r =
      drain-Rising now d top w commands a (record v { fixed = texts; fixed_since = now }) r
  drain-Rising now d top w (was_spoken text ∷ commands) a v r =
      drain-Rising now d top w commands a (record v { pending = drop_through text v.pending }) r

  begin-IsTimely :
      (v : Voice S) (a : Announcement) (w : ℕ)
      → v.commands ≡ []
      → waiting p v.phase [] ≡ []
      → Timely p w v.played_direct v.announced (to_speak a ∷ []) v.played
      → IsTimely (begin S (v, a))
  unfolding begin
  begin-IsTimely v a w none_left free t =
      let x = record v { pending = drop_through a.text v.pending } in
      if_then_else_lem IsTimely (overtaken S x a)
        (λ _. (w, (rw (none_left, free) tt, t.1, t.2, t.3, t.4))) (λ _. (w, rw none_left t))

  sink-IsTimely :
      (a : Announcement) (file : Option ℕ) (v : Voice S)
      → direct_number p v.played_direct < a.number
      → (w : ℕ) × (w < a.number) × Falling (suc (max (direct_number p v.played_direct) w)) v.played
      → Timely p a.number v.played_direct v.announced (waiting p v.phase v.commands) v.played
      → IsTimely (sink S a file v)
  sink-IsTimely a none v late falling t = (a.number, t)
  sink-IsTimely a (some file) v late (w, low, falling) t =
      let d = direct_number p v.played_direct in
      (
        a.number,
        (
          t.0,
          t.1,
          t.2,
          t.3,
          (
            omega arith,
            Falling-le (suc (max d w)) a.number v.played (omega (arith, late, low)) falling,
          ),
        ),
      )

  -- An announcement that has come out, or is given up.
  finish-IsTimely :
      (v : Voice S) (a : Announcement) (w : ℕ)
      → Timely p w v.played_direct v.announced (to_speak a ∷ v.commands) v.played
      → IsTimely (finish S a v)
  unfolding finish overtaken
  finish-IsTimely v a w t =
      let (s, file) = speech_file S a.text v.store in
      let x = record v { store = s; phase = idle } in
      let d = direct_number p v.played_direct in
      let falling =
        Falling-le (suc (max d w)) (suc (max d a.number)) v.played (omega (arith, t.0.0)) t.4 in
      if_then_else_lem IsTimely (overtaken S x a)
        (λ _. (a.number, (t.0.4, t.1, t.2, t.0.2, falling)))
        (λ free.
          sink-IsTimely a file x
            (direct_before p v.played_direct a free t.1 t.0.3 (omega (arith, t.0.0)) t.0.1)
            (w, t.0.0, t.4) (t.0.4, t.1, t.2, t.0.2, falling))

  prepare_next-IsTimely : (now : ℕ) (v : Voice S) → IsTimely v → IsTimely (prepare_next S now v)
  unfolding prepare_next
  prepare_next-IsTimely now v t =
      kept v (prepare_next S now v) (ground arith) (ground arith) (ground arith) (ground arith) t

  receive-IsTimely :
      (now w : ℕ) (commands : List Command) (v : Voice S)
      → v.commands ≡ commands
      → v.phase ≡ idle
      → Timely p w v.played_direct v.announced commands v.played
      → IsTimely (receive S now commands v)
  unfolding take_command
  receive-IsTimely now w [] v e free t = prepare_next-IsTimely now v (w, rw (free, e) t)
  receive-IsTimely now w (to_speak a ∷ commands) v e free t =
      let (x, b) = drain S now commands a v in
      let k = drain_keeps now commands a v in
      let r = drain-Rising now (direct_number p v.played_direct) v.announced w commands a v t.0 in
      begin-IsTimely x b w k.0 (rw (k.1, free) refl) (rw (k.2, k.3, k.4) (r, t.1, t.2, t.3, t.4))
  receive-IsTimely now w (to_prepare texts ∷ commands) v e free t = (w, rw free t)
  receive-IsTimely now w (to_fix texts ∷ commands) v e free t = (w, rw free t)
  receive-IsTimely now w (was_spoken text ∷ commands) v e free t = (w, rw free t)

  pub turn_in :
      (phase : Phase) (now : ℕ) (v : Voice S)
      → v.phase ≡ phase
      → IsTimely v
      → IsTimely (turn S now v)
  unfolding turn
  turn_in loading now v e t = rw (turn, e) t
  turn_in failed now v e (w, t) = rw (turn, e) (w, (rw e tt, t.1, t.2, t.3, t.4))
  turn_in idle now v e (w, t) =
      rw (turn, e)
        (receive-IsTimely now w v.commands v refl e (
          subst (λ ph. Timely p w v.played_direct v.announced (waiting p ph v.commands) v.played) e
            t))
  turn_in (Phase.speaking a) now v e (w, t) =
      rw (turn, e)
        (finish-IsTimely v a w (
          subst (λ ph. Timely p w v.played_direct v.announced (waiting p ph v.commands) v.played) e
            t))
