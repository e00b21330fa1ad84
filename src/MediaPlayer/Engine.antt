-- ===== src/MediaPlayer/Engine.antt =====
-- What the media player (src/backend/src/media_player.rs) calls: `AudioEngine` and `Playback` of
-- src/backend/src/audio_engine.rs, the files and the durations of the library. Each call may change
-- the world outside and may fail; nothing is assumed of them.
use carnine.Prelude.{ℕ, Bool, Option, List}

pub record Engine : Type 1 where
  pub State : Type 0
  -- `Box<dyn Playback>`
  pub Playback : Type 0
  -- A level from 0 to 1, an `f32`.
  pub Gain : Type 0
  pub full_gain : Gain
  pub no_gain : Gain
  -- 0.3, the level of the music where none is configured.
  pub default_music_under : Gain
  -- `level == 0.0`
  pub is_silent : Gain → Bool
  -- path
  pub start : List ℕ → State → State × Option Playback
  -- path, position
  pub start_at : List ℕ → ℕ → State → State × Option Playback
  pub pause : Playback → State → State × Bool
  pub resume : Playback → State → State × Bool
  pub stop : Playback → State → State × Bool
  pub is_finished : Playback → State → Bool
  -- front, rear
  pub set_levels : Playback → Gain → Gain → State → State × Bool
  pub shutdown : State → State × Bool
  pub output_available : State → Bool
  pub has_rear_speakers : State → Bool
  -- `Path::is_file`
  pub is_file : List ℕ → State → Bool
  -- The duration lookup; unknown is none.
  pub duration : List ℕ → State → Option ℕ
