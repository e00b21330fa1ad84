-- ===== src/MediaPlayer/Untouched.antt =====
-- The calls of the media player (src/backend/src/media_player.rs) that leave its queue alone.
use carnine.Prelude.{ℕ, ◌≡◌, refl, Option, some, arith, List}
use carnine.Prelude.Int.{ℤ}
use carnine.MediaPlayer.Engine.{Engine}
use carnine.MediaPlayer.Queue.{Shuffler}
use carnine.MediaPlayer.Player.{
  Player, Priority, position, publish, publish_audio, start_engine, drop_playback,
  stop_active_playback, report_output_availability, path_of, PlayerEventType,
}
use carnine.MediaPlayer.Transport.{
  start_path_at, started_at_path, start_current_path, play_loaded, resumed_with,
  restart_at_current_position, pause_playback, paused_with,
}
use carnine.MediaPlayer.Seek.{
  seek, seek_to, restarted, sought, stop_playback, stopped_with, stopped_at, handle_output_lost,
}
use carnine.MediaPlayer.Announce.{
  play_announcement, started_announcement, announced, end_announcement, lower_music, set_music_gain,
  hold_music, release_music, follow_announcement,
}
use carnine.MediaPlayer.Commands.{shutdown_output}

module _ (E : Engine) (R : Shuffler) where
  pub publish-queue :
      (p : Player E R) (now : ℕ) (event : PlayerEventType)
      → (publish E R p now event).queue ≡ p.queue
  unfolding publish
  publish-queue p now event = refl

  pub report_output_availability-queue :
      (p : Player E R) → (report_output_availability E R p).queue ≡ p.queue
  unfolding report_output_availability publish_audio
  report_output_availability-queue p = ground arith

  pub drop_playback-queue : (p : Player E R) → (drop_playback E R p).0.queue ≡ p.queue
  unfolding drop_playback
  drop_playback-queue p = ground arith

  pub stop_active_playback-queue : (p : Player E R) → (stop_active_playback E R p).0.queue ≡ p.queue
  unfolding stop_active_playback drop_playback
  stop_active_playback-queue p = ground arith

  pub start_engine-queue :
      (p : Player E R) (path : List ℕ) (position_ms : Option ℕ)
      → (start_engine E R p path position_ms).0.queue ≡ p.queue
  unfolding start_engine report_output_availability publish_audio
  start_engine-queue p path position_ms = ground arith

  pub start_path_at-queue :
      (p : Player E R) (path : List ℕ) (position_ms now : ℕ)
      → (start_path_at E R path position_ms now p).0.queue ≡ p.queue
  unfolding start_path_at started_at_path publish publish_audio
  start_path_at-queue p path position_ms now =
      ground (arith, start_engine-queue p path (some position_ms))

  pub start_current_path-queue :
      (p : Player E R) (now : ℕ) → (start_current_path E R now p).0.queue ≡ p.queue
  unfolding start_current_path
  start_current_path-queue p now =
      ground (arith, start_path_at-queue p (path_of E R p.media_path) (position E R p now) now)

  pub play_loaded-queue : (p : Player E R) (now : ℕ) → (play_loaded E R now p).0.queue ≡ p.queue
  unfolding play_loaded resumed_with restart_at_current_position start_current_path start_path_at
      started_at_path start_engine report_output_availability drop_playback publish publish_audio
  play_loaded-queue p now = ground arith

  pub pause_playback-queue :
      (p : Player E R) (now : ℕ) → (pause_playback E R now p).0.queue ≡ p.queue
  unfolding pause_playback paused_with publish publish_audio
  pause_playback-queue p now = ground arith

  pub seek-queue : (p : Player E R) (delta : ℤ) (now : ℕ) → (seek E R delta now p).0.queue ≡ p.queue
  unfolding seek seek_to restarted sought publish drop_playback start_engine
      report_output_availability publish_audio
  seek-queue p delta now = ground arith

  pub stop_playback-queue : (p : Player E R) (now : ℕ) → (stop_playback E R now p).0.queue ≡ p.queue
  unfolding stop_playback stopped_with stopped_at publish publish_audio
  stop_playback-queue p now = ground arith

  pub handle_output_lost-queue :
      (p : Player E R) (now : ℕ) → (handle_output_lost E R now p).queue ≡ p.queue
  unfolding handle_output_lost publish report_output_availability publish_audio
  handle_output_lost-queue p now = ground arith

  pub play_announcement-queue :
      (p : Player E R) (path : List ℕ) (priority : Priority) (now : ℕ)
      → (play_announcement E R path priority now p).0.queue ≡ p.queue
  unfolding play_announcement started_announcement announced end_announcement lower_music
      set_music_gain hold_music
  play_announcement-queue p path priority now = ground arith

  pub follow_announcement-queue :
      (p : Player E R) (now : ℕ) → (follow_announcement E R now p).queue ≡ p.queue
  unfolding follow_announcement end_announcement release_music set_music_gain
  follow_announcement-queue p now = ground arith

  pub shutdown_output-queue : (p : Player E R) → (shutdown_output E R p).0.queue ≡ p.queue
  unfolding shutdown_output
  shutdown_output-queue p = refl
