-- ===== src/Voice/Control/Tests.antt =====
-- The voice's settings (src/backend/src/voice.rs) over a database that keeps one row.
use carnine.Prelude.{◌≡◌, refl, arith, true, false, none, some, []}
use carnine.Prelude.Bytes.{codes}
use carnine.Voice.Synthesizer.{Synthesizer}
use carnine.Voice.Worker.{Voice}
use carnine.Voice.Caller.{start}
use carnine.Voice.Control.{
  Settings, KeepsSettings, SavedVoiceSettings, VoiceConfig, VoiceControl, Updated, new_control,
  update, save_of,
}
use carnine.Voice.Control.Kept.{IsSettled, Answers, update-IsSettled, update-new_control}

abbrev mute : Synthesizer
mute = record {
  State = Unit;
  Speech = Unit;
  synthesize = λ text s. (s, none);
  write_wav = λ n speech s. (s, false);
  remove_file = λ n s. s;
}

abbrev row : Settings
row = record {
  State = SavedVoiceSettings;
  save = λ enabled volume music s. (
    record {
      enabled = some enabled;
      volume_percent = some volume;
      music_under_percent = some music;
    },
    true,
  );
  load = λ s. s;
}

row-KeepsSettings : KeepsSettings row
row-KeepsSettings = record { loads = λ enabled volume music s e. refl }

abbrev nothing : SavedVoiceSettings
nothing = record { enabled = none; volume_percent = none; music_under_percent = none }

abbrev config : VoiceConfig
config = record {
  enabled = false;
  voice = codes "thorsten";
  volume_percent = 120;
  music_under_percent = 30;
}

abbrev voice : Voice mute
voice = start mute tt false []

abbrev control : VoiceControl mute row
control = new_control mute row voice config nothing (some nothing)

control_levels : control.volume_percent ≡ 100
unfolding new_control
control_levels = refl

control-IsSettled : IsSettled mute row control
unfolding new_control
control-IsSettled = (omega arith, omega arith, refl, refl)

too_loud : (update mute row (some true) (some 80) (some 101) control).1 ≡ Updated.music_above 101
unfolding update
too_loud = refl

update-IsSettled_example :
    let (d, answer) = update mute row (some true) (some 80) none control in
    Answers mute row (some true) (some 80) none control d answer × IsSettled mute row d
update-IsSettled_example =
    update-IsSettled mute row (some true) (some 80) none control control-IsSettled

abbrev louder : VoiceControl mute row
louder = (update mute row (some true) (some 80) none control).0

database : control.database ≡ some nothing
unfolding new_control
database = refl

update-new_control_example :
    let n =
      new_control mute row voice config
        (row.load (save_of mute row louder nothing).0)
        louder.database in
    (louder.database ≡ some (save_of mute row louder nothing).0)
    × (n.voice.enabled ≡ louder.voice.enabled)
    × (n.volume_percent ≡ louder.volume_percent)
    × (n.music_under_percent ≡ louder.music_under_percent)
    × (n.levels ≡ louder.levels)
update-new_control_example =
    update-new_control mute row (some true) (some 80) none control nothing voice config
      row-KeepsSettings control-IsSettled refl refl database refl
