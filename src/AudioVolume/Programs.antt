-- ===== src/AudioVolume/Programs.antt =====
-- What the audio volume (src/backend/src/audio_volume.rs) calls: the programs `amixer` and `pactl`,
-- and the state file. Nothing is assumed of them.
use carnine.Prelude.{ℕ, Bool, Option, List}

-- How a program ended.
pub record Output : Type 0 where
  pub success : Bool
  pub stdout : List ℕ

pub record Tools : Type 1 where
  pub State : Type 0
  -- The program and its arguments; none if it does not start.
  pub run : List ℕ → List (List ℕ) → State → State × Option Output
  pub read_file : State → Option (List ℕ)
  pub write_file : List ℕ → State → State × Bool
