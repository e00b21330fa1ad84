-- ===== src/AudioVolume/Tests.antt =====
-- The audio volume over a mixer that knows the new scale only (src/backend/src/audio_volume.rs).
use carnine.Prelude.{ℕ, ◌≡◌, refl, arith, Bool, true, false, Option, none, some, List, [], ◌∷◌}
use carnine.Prelude.Bytes.{codes, same}
use carnine.Prelude.Bytes.Decimal.{decimal, decimal_digits}
use carnine.AudioVolume.Programs.{Tools}
use carnine.AudioVolume.Text.{raw, parse_state, parse_first_percent, percent_from, amixer_args}
use carnine.AudioVolume.{
  Volume, amixer, new_volume, set_volume, shutdown, start, apply, apply_amixer, write_state,
  convert_raw_to_mapped, probed, read_state, read_amixer_percent, read_pactl_percent,
}
use carnine.AudioVolume.Restart.{KeepsFile, shutdown-new_volume, start-shutdown_forgets}

abbrev starts_with : List (List ℕ) → List ℕ → Bool
starts_with [] word = false
starts_with (w ∷ ws) word = same w word

-- The state is the file.
abbrev mixer : Tools
mixer = record {
  State = Option (List ℕ);
  run = λ program args file. (
    file,
    some (record { success = starts_with args (codes "-M"); stdout = codes "200 [78%] [on]" }),
  );
  read_file = λ file. file;
  write_file = λ text file. (some text, true);
}

mixer-KeepsFile : KeepsFile mixer
mixer-KeepsFile = record { reads_back = λ text s e. refl; runs_apart = λ program args s. refl }

abbrev volume : Volume mixer
volume = record { tools = none; backend = amixer; percent = 65; migrate_raw = none }

abbrev old_volume : Volume mixer
old_volume = record {
  tools = some (codes "65");
  backend = amixer;
  percent = 65;
  migrate_raw = some 65;
}

old_state : parse_state (codes "65\n") ≡ some (raw 65)
unfolding parse_state
old_state = refl

too_loud : parse_state (codes "101 mapped") ≡ none
unfolding parse_state
too_loud = refl

first_percent : parse_first_percent (codes "300% [78%] [-4.50dB]") ≡ some 78
unfolding parse_first_percent percent_from
first_percent = refl

set_args :
    amixer_args true (codes "set") (some 42)
    ≡ codes "-M" ∷ codes "-c" ∷ codes "0" ∷ codes "set" ∷ codes "PCM" ∷ codes "42%" ∷ []
unfolding amixer_args decimal decimal_digits
set_args = refl

new_from_old : (new_volume mixer (some (codes "65"))).migrate_raw ≡ some 65
unfolding new_volume probed read_state read_amixer_percent read_pactl_percent parse_state
new_from_old = refl

was_set : (set_volume mixer 30 volume).1 ≡ none
unfolding set_volume apply apply_amixer amixer_args write_state
was_set = refl

was_written : (write_state mixer 65 volume.tools).1 ≡ true
unfolding write_state
was_written = refl

not_converted : (convert_raw_to_mapped mixer 65 old_volume.tools).1 ≡ none
unfolding convert_raw_to_mapped apply_amixer amixer_args
not_converted = refl

was_written_later : (write_state mixer 65 (start mixer old_volume).tools).1 ≡ true
unfolding write_state
was_written_later = refl

shutdown-new_volume_example :
    let w = new_volume mixer (shutdown mixer volume).tools in
    (w.percent ≡ 65) × (w.migrate_raw ≡ none)
shutdown-new_volume_example =
    shutdown-new_volume mixer mixer-KeepsFile volume (omega arith) was_written

start-shutdown_forgets_example :
    let w = new_volume mixer (shutdown mixer (start mixer old_volume)).tools in
    (w.percent ≡ 65) × (w.migrate_raw ≡ none)
start-shutdown_forgets_example =
    start-shutdown_forgets mixer mixer-KeepsFile old_volume 65 refl refl refl (omega arith)
      not_converted was_written_later
