-- ===== src/MediaPlayer/Seek.antt =====
-- Seeking, stopping, and a lost output, of `MediaPlayer` (src/backend/src/media_player.rs).
use carnine.Prelude.{
  ℕ, Bool, true, false, ◌||◌, not, Option, none, some, List, ◌==◌, if◌then◌else◌, min,
}
use carnine.Prelude.Bytes.{is_empty}
use carnine.Prelude.Int.{ℤ, moved_by}
use carnine.MediaPlayer.Engine.{Engine}
use carnine.MediaPlayer.Queue.{Shuffler}
use carnine.MediaPlayer.Player.{
  Player, PlaybackState, stopped, paused, is_playing, engine_failed, no_seek, Outcome, and_then,
  path_of, position, duration_ms, cache_after, publish, publish_audio, report_output_availability,
  start_engine, drop_playback, saturate, player_position_changed, player_paused, player_stopped,
  audio_source_stop_requested, audio_decoder_stopped, audio_source_removed,
}

abbrev pub is_stopped : PlaybackState → Bool
is_stopped stopped = true
is_stopped _ = false

-- `target_ms.min(duration_ms)` for a duration that is known.
abbrev pub cut_to : ℕ → ℕ → ℕ
cut_to duration target = if duration == 0 then target else min target duration

module _ (E : Engine) (R : Shuffler) where
  -- Where a seek goes.
  unfoldable pub target_of : Player E R → ℕ → ℤ → ℕ
  target_of p now delta =
      cut_to (duration_ms E R p) (saturate (moved_by (position E R p now) delta))

  unfoldable pub sought : ℕ → Player E R → Player E R
  sought now p = publish E R p now player_position_changed

  unfoldable pub restarted : ℕ → Player E R × Option E.Playback → Outcome E R
  unfolding sought
  restarted now (p, none) = (record p { state = paused }, some engine_failed)
  restarted now (p, some h) =
      (sought now (record p { playback = some h; started_at = some now }), none)

  -- The part of `seek` after the old playback was stopped.
  unfoldable pub seek_to : List ℕ → ℕ → ℕ → Player E R → Outcome E R
  unfolding restarted sought
  seek_to path target now p =
      let q = record p { position_ms = target; started_at = none } in
      if is_playing p.state
      then restarted now (start_engine E R q path (some target))
      else (sought now q, none)

  unfoldable pub seek : ℤ → ℕ → Player E R → Outcome E R
  unfolding seek_to target_of
  seek delta now p =
      let path = path_of E R p.media_path in
      if is_stopped p.state || is_empty path
      then (p, some no_seek)
      else and_then E R (drop_playback E R (record p { duration_cache = cache_after E R p }))
          (seek_to path (target_of p now delta) now)

  -- The end of `stop`, at the position where it began.
  unfoldable pub stopped_at : ℕ → ℕ → Player E R → Player E R
  stopped_at position_ms now p =
      publish E R
        (record p {
          media_path = none;
          position_ms = position_ms;
          started_at = none;
          state = stopped;
        })
        now player_stopped

  unfoldable pub stopped_with : ℕ → Player E R → E.State × Bool → Outcome E R
  unfolding stopped_at
  stopped_with now p (s, done) =
      let q =
        publish_audio E R (record p { playback = none; engine = s }) audio_source_stop_requested in
      if done
      then (
        stopped_at (position E R p now) now
            (publish_audio E R (publish_audio E R q audio_decoder_stopped) audio_source_removed),
        none,
      )
      else (q, some engine_failed)

  -- `stop`
  unfoldable pub stop_playback : ℕ → Player E R → Outcome E R
  unfolding stopped_with stopped_at
  stop_playback now p = elim p.playback [
    | none ↦ (stopped_at (position E R p now) now p, none)
    | some h ↦ stopped_with now p (E.stop h p.engine)
  ]

  -- `handle_output_lost`
  unfoldable pub handle_output_lost : ℕ → Player E R → Player E R
  handle_output_lost now p =
      if not (is_playing p.state) || E.output_available p.engine
      then p
      else publish E R
          (report_output_availability E R
            (record p { state = paused; position_ms = position E R p now; started_at = none }))
          now player_paused
