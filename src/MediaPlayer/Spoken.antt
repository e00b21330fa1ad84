-- ===== src/MediaPlayer/Spoken.antt =====
-- The music under a spoken announcement (src/backend/src/media_player.rs).
use carnine.Prelude.{ℕ, ◌≡◌, none, some}
use carnine.MediaPlayer.Engine.{Engine}
use carnine.MediaPlayer.Queue.{Shuffler}
use carnine.MediaPlayer.Player.{Player, Priority, playing}

module _ (E : Engine) (R : Shuffler) where
  -- The music `m` is held at `position_ms` under the announcement `h`.
  abbrev IsHeld : E.Playback → E.Playback → Priority → ℕ → Player E R → Type 0
  IsHeld m h priority position_ms q =
      (q.state ≡ playing)
      × (q.playback ≡ some m)
      × (q.music_held ≡ some q.playback_starts)
      × (q.started_at ≡ none)
      × (q.position_ms ≡ position_ms)
      × (q.announcement ≡ some (record { playback = h; priority = priority }))
