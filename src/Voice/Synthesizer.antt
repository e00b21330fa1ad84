-- ===== src/Voice/Synthesizer.antt =====
-- What the voice (src/backend/src/voice.rs) calls: the synthesizer, and the files of its cache
-- directory. The file `speech-<n>.wav` is its number `n`. Nothing is assumed of them.
use carnine.Prelude.{ℕ, Bool, Option, List}

pub record Synthesizer : Type 1 where
  pub State : Type 0
  -- The samples of a text, at the level they are written with.
  pub Speech : Type 0
  pub synthesize : List ℕ → State → State × Option Speech
  pub write_wav : ℕ → Speech → State → State × Bool
  pub remove_file : ℕ → State → State
