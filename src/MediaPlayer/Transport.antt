-- ===== src/MediaPlayer/Transport.antt =====
-- Starting, switching, pausing, stopping and seeking: the transport of `MediaPlayer`
-- (src/backend/src/media_player.rs). `now` is the instant of the call.
use carnine.Prelude.{
  ℕ, Bool, true, false, Option, none, some, List, leb, if◌then◌else◌, length, get_elem?,
}
use carnine.Prelude.Bytes.{is_empty}
use carnine.MediaPlayer.Engine.{Engine}
use carnine.MediaPlayer.Queue.{Shuffler, Queue, Direction, forward, resolve_next_index, loose}
use carnine.MediaPlayer.Player.{
  Player, stopped, playing, paused, is_playing, engine_failed, missing_file, no_path, no_media,
  no_adjacent_track, out_of_range, no_playback, Outcome, and_then, path_of, position, publish,
  publish_audio, start_engine, drop_playback, stop_active_playback, player_track_changed,
  player_playback_started, player_resumed, player_paused, player_queue_finished, player_error,
  audio_source_started, audio_source_pause_requested, audio_source_resume_requested,
}

module _ (E : Engine) (R : Shuffler) where
  open E use {Playback, pause, resume, is_finished, output_available, is_file}

  abbrev Call : Type 0
  Call = ℕ → Player E R → Outcome E R

  -- The end of `start_path_at`, for a playback that has started or not.
  unfoldable pub started_at_path : ℕ → List ℕ → ℕ → Player E R × Option Playback → Outcome E R
  started_at_path now path position_ms (p, none) = (p, some engine_failed)
  started_at_path now path position_ms (p, some h) =
      let q = record p {
        playback = some h;
        media_path = some path;
        state = playing;
        position_ms = position_ms;
        started_at = some now;
      } in
      (publish E R (publish_audio E R q audio_source_started) now player_playback_started, none)

  unfoldable pub start_path_at : List ℕ → ℕ → Call
  unfolding started_at_path
  start_path_at path position_ms now p =
      started_at_path now path position_ms (start_engine E R p path (some position_ms))

  unfoldable pub start_current_path : Call
  unfolding start_path_at
  start_current_path now p =
      if is_empty (path_of E R p.media_path)
      then (p, some no_media)
      else start_path_at (path_of E R p.media_path) (position E R p now) now p

  unfoldable pub started_at_index : ℕ → ℕ → List ℕ → Player E R × Option Playback → Outcome E R
  started_at_index now i path (p, none) = (p, some engine_failed)
  started_at_index now i path (p, some h) = (
    publish E R
        (record p {
          playback = some h;
          queue = record (p.queue) { index = some i };
          media_path = some path;
          state = playing;
          position_ms = 0;
          started_at = some now;
        })
        now player_track_changed,
    none,
  )

  unfoldable pub start_at_index : ℕ → Call
  unfolding started_at_index
  start_at_index i now p = elim (get_elem? p.queue.tracks i) [
    | none ↦ (p, some out_of_range)
    | some path ↦ started_at_index now i path (start_engine E R p path none)
  ]

  unfoldable pub switch_to_index : ℕ → Call
  unfolding start_at_index
  switch_to_index i now p =
      if leb (length p.queue.tracks) i
      then (p, some out_of_range)
      else and_then E R (drop_playback E R p) (start_at_index i now)

  abbrev with_queue : Player E R → Queue R → Player E R
  with_queue p q = record p { queue = q }

  abbrev pub to_target : Option ℕ → Call
  to_target none now p = (p, some no_adjacent_track)
  to_target (some i) now p = switch_to_index i now p

  unfoldable pub switch_track : Direction → Call
  switch_track d now p =
      let (q, target) = resolve_next_index R p.queue d in to_target target now (with_queue p q)

  -- `is_active_track_finished`
  unfoldable pub is_active_track_finished : Player E R → Bool
  is_active_track_finished p =
      if is_playing p.state
      then elim p.playback [ none ↦ false | some h ↦ is_finished h p.engine ]
      else false

  abbrev queue_finished : ℕ → Player E R → Player E R
  queue_finished now p =
      publish E R (record p { position_ms = 0; started_at = none; state = stopped }) now
        player_queue_finished

  -- A call whose error is only published.
  abbrev pub or_publish : ℕ → Outcome E R → Player E R
  or_publish now (p, none) = p
  or_publish now (p, some e) = publish E R p now player_error

  abbrev pub go_on : Option ℕ → ℕ → Player E R → Player E R
  go_on none now p = queue_finished now p
  go_on (some i) now p = or_publish now (start_at_index i now p)

  abbrev pub after_track : ℕ → Outcome E R → Player E R
  after_track now (p, some e) = publish E R p now player_error
  after_track now (p, none) =
      let (q, next) = resolve_next_index R p.queue forward in go_on next now (with_queue p q)

  unfoldable pub handle_track_finished : ℕ → Player E R → Player E R
  handle_track_finished now p = after_track now (drop_playback E R p)

  abbrev restart_silently : Player E R → Player E R
  restart_silently p = (drop_playback E R p).0

  -- A playback that does not stop is only logged.
  unfoldable pub restart_at_current_position : Call
  unfolding start_path_at
  restart_at_current_position now p =
      start_path_at (path_of E R p.media_path) (position E R p now) now (restart_silently p)

  unfoldable pub resumed_with : ℕ → Player E R → E.State × Bool → Outcome E R
  resumed_with now p (s, false) = restart_at_current_position now (record p { engine = s })
  resumed_with now p (s, true) =
      let q = record p { engine = s; state = playing; started_at = some now } in
      (publish E R (publish_audio E R q audio_source_resume_requested) now player_resumed, none)

  -- `play` without a path.
  unfoldable pub play_loaded : Call
  unfolding resumed_with start_current_path
  play_loaded now p = elim p.playback [
    | some h ↦ resumed_with now p (resume h p.engine)
    | none ↦
        if is_empty (path_of E R p.media_path) then (p, some no_path) else start_current_path now p
  ]

  unfoldable pub play_loose : List ℕ → Call
  unfolding start_path_at
  play_loose path now p =
      start_path_at path 0 now
        (record p { queue = loose R p.queue path; playlist_id = none; position_ms = 0 })

  unfoldable pub play_path : List ℕ → Call
  unfolding play_loose
  play_path path now p =
      if is_file path p.engine
      then and_then E R (stop_active_playback E R p) (play_loose path now)
      else (p, some missing_file)

  unfoldable pub play : List ℕ → Call
  unfolding play_path play_loaded
  play path now p = if is_empty path then play_loaded now p else play_path path now p

  unfoldable pub paused_with : ℕ → Player E R → E.State × Bool → Outcome E R
  paused_with now p (s, false) = (record p { engine = s }, some engine_failed)
  paused_with now p (s, true) =
      let q = record p {
        engine = s;
        state = paused;
        position_ms = position E R p now;
        started_at = none;
      } in
      (publish E R (publish_audio E R q audio_source_pause_requested) now player_paused, none)

  -- `pause`
  unfoldable pub pause_playback : Call
  unfolding paused_with
  pause_playback now p = elim p.playback [
    | none ↦ (p, some no_playback)
    | some h ↦ paused_with now p (pause h p.engine)
  ]
