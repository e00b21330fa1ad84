-- ===== src/MediaPlayer/Bench.antt =====
-- An engine and a queue of three tracks, for the tests of the media player
-- (src/backend/src/media_player.rs).
use carnine.Prelude.{
  ℕ, suc, Bool, true, false, none, some, List, [], ◌∷◌, not, ◌==◌, refl, arith, if◌then◌else◌,
}
use carnine.Prelude.Bytes.{codes, same, is_empty}
use carnine.MediaPlayer.Engine.{Engine}
use carnine.MediaPlayer.Queue.{Shuffler, repeat_off, Queue}
use carnine.MediaPlayer.Queue.Order.{Fair}
use carnine.MediaPlayer.Player.{Player, playing}
use carnine.MediaPlayer.Advance.{Works}

-- The engine starts the files that pass the test; the output of what plays is there or lost; the
-- state counts the calls.
abbrev pub engine_for : (List ℕ → Bool) → Bool → Engine
engine_for can_start is_there = record {
  State = ℕ;
  Playback = List ℕ;
  Gain = ℕ;
  full_gain = 100;
  no_gain = 0;
  default_music_under = 30;
  is_silent = λ gain. gain == 0;
  start = λ path n. (suc n, if can_start path then some path else none);
  start_at = λ path position n. (suc n, if can_start path then some path else none);
  pause = λ h n. (suc n, true);
  resume = λ h n. (suc n, is_there);
  stop = λ h n. (suc n, true);
  is_finished = λ h n. same h (codes "turn left");
  set_levels = λ h front rear n. (suc n, true);
  shutdown = λ n. (suc n, true);
  output_available = λ n. is_there;
  has_rear_speakers = λ n. false;
  is_file = λ path n. not (is_empty path);
  duration = λ path n. some 180000;
}

abbrev pub bench : Engine
bench = engine_for (λ path. true) true

-- An engine that starts nothing.
abbrev pub broken : Engine
broken = engine_for (λ path. false) true

-- An engine whose output is lost, until it starts again.
abbrev pub lost : Engine
lost = engine_for (λ path. true) false

-- The order stays as it is.
abbrev pub in_order : Shuffler
in_order = record { Rng = ℕ; shuffle = λ l n. (l, suc n) }

pub in_order-Fair : Fair in_order
in_order-Fair = record { keeps = λ l rng a. refl; keeps_length = λ l rng. refl }

pub bench-Works : Works bench in_order
bench-Works = record { starts = λ path s e. ground (arith, e); stops = λ h s. refl }

abbrev pub three : List (List ℕ)
three = codes "one" ∷ codes "two" ∷ codes "three" ∷ []

abbrev pub queue_at : ℕ → Queue in_order
queue_at i = record {
  tracks = three;
  entry_ids = 11 ∷ 12 ∷ 13 ∷ [];
  index = some i;
  repeat_mode = repeat_off;
  shuffle_enabled = false;
  shuffle_order = [];
  shuffle_position = 0;
  rng = 0;
}

-- The first track, playing since 1000 from 5000.
abbrev pub player_for :
    (can_start : List ℕ → Bool) (is_there : Bool) → Player (engine_for can_start is_there) in_order
player_for can_start is_there = record {
  engine = 0;
  playback = some (codes "one");
  state = playing;
  queue = queue_at 0;
  playlist_id = some 1;
  media_path = some (codes "one");
  position_ms = 5000;
  started_at = some 1000;
  events = [];
  audio_events = [];
  output_reported = some true;
  duration_cache = none;
  announcement = none;
  announcement_levels = record { volume = 80; music_under = 0 };
  playback_starts = 1;
  music_held = none;
}

abbrev pub player : Player bench in_order
player = player_for (λ path. true) true

abbrev pub player_broken : Player broken in_order
player_broken = player_for (λ path. false) true

abbrev pub player_lost : Player lost in_order
player_lost = player_for (λ path. true) false
