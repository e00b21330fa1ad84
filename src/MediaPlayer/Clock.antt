-- ===== src/MediaPlayer/Clock.antt =====
-- The position clock of the media player (src/backend/src/media_player.rs).
use carnine.Prelude.{ℕ, ◌+◌, List, ◌-◌, ◌^◌, ◌≡◌, ◌≢◌, ◌⊎◌, none, some, arith, true, false, min}
use carnine.Prelude.Bytes.{is_empty}
use carnine.Prelude.Int.{ℤ, moved_by}
use carnine.MediaPlayer.Engine.{Engine}
use carnine.MediaPlayer.Queue.{Shuffler}
use carnine.MediaPlayer.Player.{
  elapsed, Player, stopped, playing, paused, position, publish, publish_audio, duration_ms,
  engine_failed, start_engine, report_output_availability, drop_playback,
}
use carnine.MediaPlayer.Transport.{
  restart_at_current_position, start_path_at, started_at_path, pause_playback, paused_with,
  play_loaded, resumed_with,
}
use carnine.MediaPlayer.Seek.{handle_output_lost, seek, seek_to, target_of, restarted, sought}

module _ (E : Engine) (R : Shuffler) where
  -- A pause that works keeps the position where it was, however long it lasts; a resume that works
  -- lets it run on from there.
  pub pause_then_play :
      (p : Player E R) (h : E.Playback) (paused_at resumed_at later : ℕ) (s s' : E.State)
      → p.playback ≡ some h
      → E.pause h p.engine ≡ (s, true)
      → E.resume h s ≡ (s', true)
      → let q = (pause_playback E R paused_at p).0 in
        let r = (play_loaded E R resumed_at q).0 in
        (q.state ≡ paused)
        × (position E R q later ≡ position E R p paused_at)
        × (r.state ≡ playing)
        × (position E R r later
            ≡ min (position E R p paused_at + (later - resumed_at)) (2 ^ 63 - 1))
  unfolding pause_playback paused_with play_loaded resumed_with publish publish_audio position
  pause_then_play p h paused_at resumed_at later s s' at pauses resumes =
      ground (arith, at, pauses, resumes)

  -- A seek in a track that plays or is paused, whose old playback stops: the position is the old one
  -- moved by the delta, cut to the start and, where it is known, to the duration; the queue and the
  -- track stay. A track that plays is started again at that position, and the position runs on from
  -- there; where the engine does not start it, it is paused there. A paused track stays paused there.
  pub seek-target_of :
      (p : Player E R) (path : List ℕ) (delta : ℤ) (now later : ℕ)
      → p.state ≢ stopped
      → p.media_path ≡ some path
      → is_empty path ≡ false
      → (drop_playback E R p).1 ≡ none
      → let (q, failure) = seek E R delta now p in
        let moved = min (moved_by (position E R p now) delta) (2 ^ 63 - 1) in
        let started = (E.start_at path q.position_ms (drop_playback E R p).0.engine).1 in
        (((duration_ms E R p ≡ 0) × (q.position_ms ≡ moved))
          ⊎ ((duration_ms E R p ≢ 0) × (q.position_ms ≡ min moved (duration_ms E R p))))
        × (q.queue ≡ p.queue)
        × (q.media_path ≡ p.media_path)
        × (((p.state ≡ playing)
              × (failure ≡ none)
              × (q.state ≡ playing)
              × (q.playback ≡ started)
              × (started ≢ none)
              × (position E R q later ≡ min (q.position_ms + (later - now)) (2 ^ 63 - 1)))
            ⊎ ((p.state ≡ playing)
                × (failure ≡ some engine_failed)
                × (q.state ≡ paused)
                × (q.playback ≡ none)
                × (started ≡ none)
                × (position E R q later ≡ q.position_ms))
            ⊎ ((p.state ≡ paused)
                × (failure ≡ none)
                × (q.state ≡ paused)
                × (q.playback ≡ none)
                × (position E R q later ≡ q.position_ms)))
  unfolding seek seek_to target_of restarted sought publish drop_playback start_engine
      report_output_availability publish_audio position
  seek-target_of p path delta now later s at full stops = ground (arith, s, at, full, stops)

  saturated_twice : (n : ℕ) → min (min n (2 ^ 63 - 1) + 0) (2 ^ 63 - 1) ≡ min n (2 ^ 63 - 1)
  saturated_twice n = omega arith

  -- An output that is lost while a track plays pauses it where it is. A later resume, which the old
  -- playback refuses, has the engine start the track again at that position: what it starts is the
  -- new playback, and the position runs on from where the output was lost, in the same queue. Where
  -- the engine starts nothing, the track stays paused there.
  pub handle_output_lost-play_loaded :
      (p : Player E R) (h : E.Playback) (path : List ℕ) (lost_at resumed_at later : ℕ) (s : E.State)
      → p.state ≡ playing
      → p.playback ≡ some h
      → p.media_path ≡ some path
      → E.output_available p.engine ≡ false
      → E.resume h p.engine ≡ (s, false)
      → let q = handle_output_lost E R lost_at p in
        let (r, failure) = play_loaded E R resumed_at q in
        let started = (E.start_at path (position E R p lost_at) (E.stop h s).0).1 in
        (q.state ≡ paused)
        × (position E R q later ≡ position E R p lost_at)
        × (r.queue ≡ p.queue)
        × (r.media_path ≡ some path)
        × (((failure ≡ none)
              × (r.state ≡ playing)
              × (r.playback ≡ started)
              × (started ≢ none)
              × (position E R r later
                  ≡ min (position E R p lost_at + (later - resumed_at)) (2 ^ 63 - 1)))
            ⊎ ((failure ≡ some engine_failed)
                × (r.state ≡ paused)
                × (r.playback ≡ none)
                × (started ≡ none)
                × (position E R r later ≡ position E R p lost_at)))
  unfolding handle_output_lost play_loaded resumed_with restart_at_current_position drop_playback
      start_path_at started_at_path start_engine report_output_availability publish publish_audio
      position
  handle_output_lost-play_loaded p h path lost_at resumed_at later s plays at loaded gone refuses =
      let again = saturated_twice (p.position_ms + elapsed E R p.started_at lost_at) in
      ground (arith, plays, at, loaded, gone, refuses, again)
