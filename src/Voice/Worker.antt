-- ===== src/Voice/Worker.antt =====
-- The voice thread of src/backend/src/voice.rs, `Worker::run`. An iteration of its loop is a turn; an
-- announcement that has to be synthesized takes a second turn, so callers may come in between.
use carnine.Prelude.{
  ℕ, ◌-◌, Bool, true, false, ◌||◌, ◌&&◌, not, Option, none, some, List, [], ◌∷◌, leb, ltb,
  if◌then◌else◌,
}
use carnine.Prelude.Bytes.{same}
use carnine.MediaPlayer.Player.{Priority, outranks}
use carnine.MediaPlayer.Queue.{or_else}
use carnine.Voice.Synthesizer.{Synthesizer}
use carnine.Voice.Cache.{Store, speech_file}

-- `FIXED_TEXTS_WAIT` in milliseconds.
abbrev pub fixed_texts_wait : ℕ
fixed_texts_wait = 20_000

-- An announcement, with its number among all.
pub record Announcement : Type 0 where
  pub text : List ℕ
  pub priority : Priority
  pub number : ℕ

pub data Command : Type 0 where
  to_prepare to_fix : List (List ℕ) → Command
  to_speak : Announcement → Command
  was_spoken : List ℕ → Command

pub data Phase : Type 0 where
  -- The factory runs, or has failed.
  loading failed : Phase
  -- Between two iterations, and with an announcement that has no file yet.
  idle : Phase
  speaking : Announcement → Phase

-- What the sink was given, and for which announcement.
pub record Played : Type 0 where
  pub file : ℕ
  pub announcement : Announcement

-- `a >= b`
abbrev pub at_least : Priority → Priority → Bool
at_least a b = not (outranks b a)

-- What is queued behind `text`, if it is queued.
abbrev pub behind : List ℕ → List (List ℕ) → Option (List (List ℕ))
behind text [] = none
behind text (queued ∷ pending) = if same queued text then some pending else behind text pending

unfoldable pub drop_through : List ℕ → List (List ℕ) → List (List ℕ)
drop_through text pending = or_else (behind text pending) pending

-- Whether the announcement played directly makes `a` out of date.
abbrev pub is_newer : Option (ℕ × Priority) → Announcement → Bool
is_newer none a = false
is_newer (some direct) a = ltb a.number direct.0 && at_least direct.1 a.priority

module _ (S : Synthesizer) where
  pub record Voice : Type 0 where
    pub store : Store S
    pub phase : Phase
    pub enabled : Bool
    pub announced : ℕ
    pub fixed_texts : List (List ℕ)
    pub played_direct : Option (ℕ × Priority)
    pub commands : List Command
    pub pending : List (List ℕ)
    pub fixed : List (List ℕ)
    pub route_prepared : Bool
    pub fixed_since : ℕ
    -- The latest first.
    pub played : List Played

  unfoldable pub overtaken : Voice → Announcement → Bool
  overtaken v a = is_newer v.played_direct a

  -- A command other than `to_speak`.
  unfoldable pub take_command : ℕ → Command → Voice → Voice
  take_command now (to_prepare texts) v = record v { pending = texts; route_prepared = true }
  take_command now (to_fix texts) v = record v { fixed = texts; fixed_since = now }
  take_command now (was_spoken text) v = record v { pending = drop_through text v.pending }
  take_command now (to_speak a) v = v

  -- The more urgent of two announcements, the newer one of the same priority.
  abbrev pub newer : Announcement → Announcement → Announcement
  newer newest a = if at_least a.priority newest.priority then a else newest

  -- The inner loop: everything that is queued by now.
  unfoldable pub drain : ℕ → List Command → Announcement → Voice → Voice × Announcement
  drain now [] newest v = (record v { commands = [] }, newest)
  drain now (to_speak a ∷ commands) newest v = drain now commands (newer newest a) v
  drain now (to_prepare texts ∷ commands) newest v =
      drain now commands newest (take_command now (to_prepare texts) v)
  drain now (to_fix texts ∷ commands) newest v =
      drain now commands newest (take_command now (to_fix texts) v)
  drain now (was_spoken text ∷ commands) newest v =
      drain now commands newest (take_command now (was_spoken text) v)

  unfoldable pub begin : Voice × Announcement → Voice
  begin (v, a) =
      let w = record v { pending = drop_through a.text v.pending } in
      if overtaken w a then w else record w { phase = speaking a }

  abbrev pub sink : Announcement → Option ℕ → Voice → Voice
  sink a none v = v
  sink a (some file) v = record v { played = record { file = file; announcement = a } ∷ v.played }

  abbrev spoken_with : Announcement → Voice → Store S × Option ℕ → Voice
  spoken_with a v (s, file) =
      let w = record v { store = s; phase = idle } in if overtaken w a then w else sink a file w

  unfoldable pub finish : Announcement → Voice → Voice
  finish a v = spoken_with a v (speech_file S a.text v.store)

  unfoldable pub fixed_due : ℕ → Voice → Bool
  fixed_due now v = v.route_prepared || leb fixed_texts_wait (now - v.fixed_since)

  abbrev prepare_one : List ℕ → Voice → Voice
  prepare_one text v = record v { store = (speech_file S text v.store).0 }

  abbrev pub prepare_fixed : ℕ → List (List ℕ) → Voice → Voice
  prepare_fixed now [] v = v
  prepare_fixed now (text ∷ fixed) v =
      if fixed_due now v then prepare_one text (record v { fixed = fixed }) else v

  -- An iteration that finds no command; it waits where there is nothing to prepare.
  unfoldable pub prepare_next : ℕ → Voice → Voice
  prepare_next now v = elim v.pending [
    | [] ↦ prepare_fixed now v.fixed v
    | text ∷ pending ↦ prepare_one text (record v { pending = pending })
  ]

  abbrev pub receive : ℕ → List Command → Voice → Voice
  receive now [] v = prepare_next now v
  receive now (to_speak a ∷ commands) v = begin (drain now commands a v)
  receive now (to_prepare texts ∷ commands) v =
      take_command now (to_prepare texts) (record v { commands = commands })
  receive now (to_fix texts ∷ commands) v =
      take_command now (to_fix texts) (record v { commands = commands })
  receive now (was_spoken text ∷ commands) v =
      take_command now (was_spoken text) (record v { commands = commands })

  unfoldable pub turn : ℕ → Voice → Voice
  turn now v = elim v.phase [
    | loading ↦ v
    | failed ↦ record v { commands = [] }
    | idle ↦ receive now v.commands v
    | speaking a ↦ finish a v
  ]

  -- The end of the factory.
  unfoldable pub load : Bool → ℕ → Voice → Voice
  load works now v = elim v.phase [
    | loading ↦ record v { phase = if works then idle else failed; fixed_since = now }
    | _ ↦ v
  ]
