-- ===== src/Voice/Files.antt =====
-- The files behind the voice's cache (src/backend/src/voice.rs).
pub mod Cover
pub mod There
pub mod Untouched
pub mod Kept
use carnine.Prelude.Bytes.Texts.{same_refl, same_sym, contains-append}
use carnine.Prelude.{
  ℕ, zero, suc, ◌+◌, ◌<◌, ◌≤◌, ◌≡◌, ◌≢◌, ◌⊎◌, inl, inr, refl, sym, ap, subst, ◌∙◌, Bool, true,
  false, ◌||◌, ◌&&◌, Option, none, some, List, [], ◌∷◌, ◌++◌, arith, length, length-append, ltb,
  leb, ◌==◌, if◌then◌else◌, Option-cases, Bool-cases, All,
}
use carnine.Prelude.Bytes.{contains, same}
use carnine.MediaPlayer.Queue.Slots.{if_then_else_lem}
use carnine.MediaPlayer.Player.{Priority}
use carnine.Voice.Synthesizer.{Synthesizer}
use carnine.Voice.Cache.{
  Cache, Store, cache_entries, find_file, without_file, evict, keep, written, synthesized,
  speech_file, drop_oldest, with_order, remove_old,
}
use carnine.Voice.Worker.{
  Voice, Announcement, newer, drop_through, Command, Phase, loading, failed, idle, to_speak,
  to_prepare, to_fix, was_spoken, finish, prepare_next, prepare_fixed, turn, receive, drain, begin,
  fixed_due, take_command, overtaken, load, sink,
}
use carnine.Voice.Caller.{
  Action, announces, prepares, sets_enabled, loads, turns, act, act_all, start, announce, ask,
  prepare, set_enabled, send_fixed_texts,
}
use carnine.Voice.Files.Cover.{IsCovered, without_file-IsCovered, grown-IsCovered, List-cases}
use carnine.Voice.Files.There.{
  Disk, AreThere, AreThere-le, AreThere-after, AreThere-without_file, find_file-lt,
  remove_old_apart, AreThere-remove_old,
}
use carnine.Voice.Files.Untouched.{
  drain-store, begin-store, announce-store, prepare-store, set_enabled-store, load-store,
}
use carnine.Voice.Files.Kept.{IsKept, speech_file-IsKept}

module _ (S : Synthesizer) (disk : Disk S) where
  start-IsKept :
      (state : S.State) (enabled : Bool) (fixed_texts : List (List ℕ))
      → IsKept S disk (start S state enabled fixed_texts).store
  unfolding start send_fixed_texts
  start-IsKept state false fixed_texts = ((tt, tt), omega arith)
  start-IsKept state true [] = ((tt, tt), omega arith)
  start-IsKept state true (text ∷ fixed_texts) = ((tt, tt), omega arith)

  finish-IsKept :
      (a : Announcement) (v : Voice S) → IsKept S disk v.store → IsKept S disk (finish S a v).store
  unfolding finish
  finish-IsKept a v k =
      subst (IsKept S disk) (ground arith) (speech_file-IsKept S disk a.text v.store k)

  prepare_fixed-IsKept :
      (now : ℕ) (fixed : List (List ℕ)) (v : Voice S)
      → IsKept S disk v.store
      → IsKept S disk (prepare_fixed S now fixed v).store
  prepare_fixed-IsKept now [] v k = k
  prepare_fixed-IsKept now (text ∷ fixed) v k =
      if_then_else_lem (λ (w : Voice S). IsKept S disk w.store) (fixed_due S now v)
        (λ _. speech_file-IsKept S disk text v.store k) (λ _. k)

  prepare_next-IsKept :
      (now : ℕ) (v : Voice S) → IsKept S disk v.store → IsKept S disk (prepare_next S now v).store
  unfolding prepare_next
  prepare_next-IsKept now v k = elim (List-cases v.pending) [
    | inl e ↦ rw (prepare_next, e) (prepare_fixed-IsKept now v.fixed v k)
    | inr (text, pending, e) ↦ rw (prepare_next, e) (speech_file-IsKept S disk text v.store k)
  ]

  receive-IsKept :
      (now : ℕ) (commands : List Command) (v : Voice S)
      → IsKept S disk v.store
      → IsKept S disk (receive S now commands v).store
  unfolding take_command begin
  receive-IsKept now [] v k = prepare_next-IsKept now v k
  receive-IsKept now (to_speak a ∷ commands) v k =
      subst (IsKept S disk) (sym (begin-store S now commands a v)) k
  receive-IsKept now (to_prepare texts ∷ commands) v k = k
  receive-IsKept now (to_fix texts ∷ commands) v k = k
  receive-IsKept now (was_spoken text ∷ commands) v k = k

  turn_in :
      (phase : Phase) (now : ℕ) (v : Voice S)
      → v.phase ≡ phase
      → IsKept S disk v.store
      → IsKept S disk (turn S now v).store
  unfolding turn
  turn_in loading now v e k = rw (turn, e) k
  turn_in failed now v e k = rw (turn, e) k
  turn_in idle now v e k = rw (turn, e) (receive-IsKept now v.commands v k)
  turn_in (Phase.speaking a) now v e k = rw (turn, e) (finish-IsKept a v k)

  act-IsKept : (v : Voice S) (a : Action) → IsKept S disk v.store → IsKept S disk (act S v a).store
  unfolding act
  act-IsKept v (announces text q) k = subst (IsKept S disk) (sym (announce-store S text q v)) k
  act-IsKept v (prepares texts) k = subst (IsKept S disk) (sym (prepare-store S texts v)) k
  act-IsKept v (sets_enabled b) k = subst (IsKept S disk) (sym (set_enabled-store S b v)) k
  act-IsKept v (loads works now) k = subst (IsKept S disk) (sym (load-store S works now v)) k
  act-IsKept v (turns now) k = turn_in v.phase now v refl k

  act_all-store :
      (actions : List Action) (v : Voice S)
      → IsKept S disk v.store
      → IsKept S disk (act_all S v actions).store
  unfolding act_all
  act_all-store [] v k = k
  act_all-store (a ∷ actions) v k = act_all-store actions (act S v a) (act-IsKept v a k)

  -- In a directory where files come and go only as the voice writes and removes them, whatever the
  -- callers and the voice thread do: each text of the cache has a file that is there, a newer text
  -- a file of a higher number; it is a fixed text or one of the order, which has at most 200.
  pub act_all-IsKept :
      (state : S.State) (enabled : Bool) (fixed_texts : List (List ℕ)) (actions : List Action)
      → IsKept S disk (act_all S (start S state enabled fixed_texts) actions).store
  act_all-IsKept state enabled fixed_texts actions =
      act_all-store actions (start S state enabled fixed_texts)
        (start-IsKept state enabled fixed_texts)
