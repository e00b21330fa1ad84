-- ===== src/Voice/Control.antt =====
-- The voice with its settings: `VoiceControl` of src/backend/src/voice.rs. The levels that the media
-- player is given stand in percent.
pub mod Kept
mod Tests
use carnine.Prelude.{
  ℕ, ◌≡◌, Bool, true, false, ◌||◌, Option, none, some, List, ltb, if◌then◌else◌, min,
}
use carnine.MediaPlayer.Queue.{or_else}
use carnine.Voice.Synthesizer.{Synthesizer}
use carnine.Voice.Worker.{Voice}
use carnine.Voice.Caller.{available, set_enabled}

-- `SavedVoiceSettings` (src/backend/src/database.rs)
pub record SavedVoiceSettings : Type 0 where
  pub enabled : Option Bool
  pub volume_percent : Option ℕ
  pub music_under_percent : Option ℕ

pub record VoiceConfig : Type 0 where
  pub enabled : Bool
  pub voice : List ℕ
  pub volume_percent : ℕ
  pub music_under_percent : ℕ

-- `save_voice_settings` of a database, with whether that worked.
pub record Settings : Type 1 where
  pub State : Type 0
  pub save : Bool → ℕ → ℕ → State → State × Bool
  pub load : State → SavedVoiceSettings

pub record Levels : Type 0 where
  pub volume : ℕ
  pub music_under : ℕ

pub record VoiceState : Type 0 where
  pub available : Bool
  pub enabled : Bool
  pub volume_percent : ℕ
  pub music_under_percent : ℕ
  pub voice : List ℕ

-- How an update ends.
pub data Updated : Type 0 where
  volume_above music_above : ℕ → Updated
  now_is : VoiceState → Updated

abbrev pub is_some {ℓ} : {A : Type ℓ} → Option A → Bool
is_some none = false
is_some (some x) = true

-- A given level above 100.
abbrev pub above : Option ℕ → Option ℕ
above none = none
above (some level) = if ltb 100 level then some level else none

-- What is documented of a database: what was saved is loaded.
pub record KeepsSettings (D : Settings) : Type 0 where
  pub loads :
      (enabled : Bool) (volume music : ℕ) (s : D.State)
      → (D.save enabled volume music s).1 ≡ true
      → D.load (D.save enabled volume music s).0 ≡ record {
        enabled = some enabled;
        volume_percent = some volume;
        music_under_percent = some music;
      }

module _ (S : Synthesizer) (D : Settings) where
  pub record VoiceControl : Type 0 where
    pub voice : Voice S
    pub voice_name : List ℕ
    pub volume_percent : ℕ
    pub music_under_percent : ℕ
    -- What `set_levels` was called with last.
    pub levels : Levels
    pub database : Option D.State

  abbrev pub apply_levels : VoiceControl → VoiceControl
  apply_levels c = record c {
    levels = record { volume = c.volume_percent; music_under = c.music_under_percent };
  }

  unfoldable pub new_control :
      Voice S → VoiceConfig → SavedVoiceSettings → Option D.State → VoiceControl
  new_control voice config saved database =
      let volume = min (or_else saved.volume_percent config.volume_percent) 100 in
      let music = min (or_else saved.music_under_percent config.music_under_percent) 100 in
      record {
        voice = set_enabled S (or_else saved.enabled config.enabled) voice;
        voice_name = config.voice;
        volume_percent = volume;
        music_under_percent = music;
        levels = record { volume = volume; music_under = music };
        database = database;
      }

  unfoldable pub state_of : VoiceControl → VoiceState
  unfolding available
  state_of c = record {
    available = available S c.voice;
    enabled = c.voice.enabled;
    volume_percent = c.volume_percent;
    music_under_percent = c.music_under_percent;
    voice = c.voice_name;
  }

  abbrev pub switched : Option Bool → VoiceControl → VoiceControl
  switched none c = c
  switched (some enabled) c = record c { voice = set_enabled S enabled c.voice }

  abbrev pub save_of : VoiceControl → D.State → D.State × Bool
  save_of c d = D.save c.voice.enabled c.volume_percent c.music_under_percent d

  abbrev pub saved_in : VoiceControl → Option D.State → Option D.State
  saved_in c none = none
  saved_in c (some d) = some (save_of c d).0

  unfoldable pub changed : Option Bool → Option ℕ → Option ℕ → VoiceControl → VoiceControl
  changed enabled volume music c =
      let stored = record c {
        volume_percent = or_else volume c.volume_percent;
        music_under_percent = or_else music c.music_under_percent;
      } in
      let leveled = if is_some volume || is_some music then apply_levels stored else stored in
      let done = switched enabled leveled in record done { database = saved_in done done.database }

  unfoldable pub update : Option Bool → Option ℕ → Option ℕ → VoiceControl → VoiceControl × Updated
  unfolding changed state_of
  update enabled volume music c = elim (above volume) [
    | some level ↦ (c, volume_above level)
    | none ↦ elim (above music) [
      | some level ↦ (c, music_above level)
      | none ↦ let d = changed enabled volume music c in (d, now_is (state_of d))
    ]
  ]
