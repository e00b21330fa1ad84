-- ===== src/Voice/Files/Untouched.antt =====
-- The calls of the voice (src/backend/src/voice.rs) that leave its files alone.
use carnine.Prelude.{ℕ, ◌≡◌, refl, Bool, true, List, [], ◌∷◌, arith}
use carnine.MediaPlayer.Player.{Priority}
use carnine.Voice.Synthesizer.{Synthesizer}
use carnine.Voice.Worker.{
  Voice, Announcement, newer, drop_through, Command, to_speak, to_prepare, to_fix, was_spoken,
  drain, begin, take_command, load,
}
use carnine.Voice.Caller.{announce, ask, prepare, set_enabled, send_fixed_texts}

module _ (S : Synthesizer) where
  pub drain-store :
      (now : ℕ) (commands : List Command) (a : Announcement) (v : Voice S)
      → (drain S now commands a v).0.store ≡ v.store
  unfolding drain take_command
  drain-store now [] a v = refl
  drain-store now (to_speak b ∷ commands) a v = drain-store now commands (newer S a b) v
  drain-store now (to_prepare texts ∷ commands) a v =
      drain-store now commands a (record v { pending = texts; route_prepared = true })
  drain-store now (to_fix texts ∷ commands) a v =
      drain-store now commands a (record v { fixed = texts; fixed_since = now })
  drain-store now (was_spoken text ∷ commands) a v =
      drain-store now commands a (record v { pending = drop_through text v.pending })

  pub begin-store :
      (now : ℕ) (commands : List Command) (a : Announcement) (v : Voice S)
      → (begin S (drain S now commands a v)).store ≡ v.store
  unfolding begin
  begin-store now commands a v = ground (arith, drain-store now commands a v)

  pub announce-store :
      (text : List ℕ) (q : Priority) (v : Voice S) → (announce S text q v).store ≡ v.store
  unfolding announce ask
  announce-store text q v = ground arith

  pub prepare-store : (texts : List (List ℕ)) (v : Voice S) → (prepare S texts v).store ≡ v.store
  unfolding prepare
  prepare-store texts v = ground arith

  pub set_enabled-store : (b : Bool) (v : Voice S) → (set_enabled S b v).store ≡ v.store
  unfolding set_enabled send_fixed_texts
  set_enabled-store b v = ground arith

  pub load-store : (b : Bool) (now : ℕ) (v : Voice S) → (load S b now v).store ≡ v.store
  unfolding load
  load-store b now v = ground arith
