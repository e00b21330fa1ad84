-- ===== src/AudioVolume.antt =====
-- `AudioVolume` (src/backend/src/audio_volume.rs): the loudness of the output, kept in a file over
-- restarts. The programs and the file are a parameter; each call is one step.
pub mod Programs
pub mod Text
pub mod Restart
mod Tests
use carnine.Prelude.{
  ℕ, Bool, true, false, ◌&&◌, not, Option, none, some, List, [], ◌∷◌, ◌++◌, leb, if◌then◌else◌,
}
use carnine.Prelude.Bytes.{codes}
use carnine.Prelude.Bytes.Decimal.{decimal}
use carnine.AudioVolume.Programs.{Tools, Output}
use carnine.AudioVolume.Text.{
  SavedVolume, raw, mapped, parse_state, format_state, initial_percent, parse_first_percent,
  amixer_args,
}

pub data VolumeBackend : Type 0 where
  amixer pactl unavailable_backend : VolumeBackend

unfoldable pub select_backend : Bool → Bool → VolumeBackend
select_backend true pactl_ok = amixer
select_backend false true = pactl
select_backend false false = unavailable_backend

pub data VolumeError : Type 0 where
  over_100 tool_failed not_written : VolumeError

abbrev pub is_ok {ℓ} : {A : Type ℓ} → Option A → Bool
is_ok none = false
is_ok (some a) = true

module _ (T : Tools) where
  open T use {State, run, read_file, write_file}

  pub record Volume : Type 0 where
    pub tools : State
    pub backend : VolumeBackend
    pub percent : ℕ
    -- A value of the old scale that `start` has to convert.
    pub migrate_raw : Option ℕ

  -- `check_tool`, and a program that does not start.
  abbrev succeeded : State × Option Output → State × Bool
  succeeded (s, none) = (s, false)
  succeeded (s, some out) = (s, out.success)

  -- The percentage that a program reports.
  abbrev percent_in : State × Option Output → State × Option ℕ
  percent_in (s, none) = (s, none)
  percent_in (s, some out) = (s, if out.success then parse_first_percent out.stdout else none)

  unfoldable pub apply_amixer : Bool → ℕ → State → State × Bool
  apply_amixer is_mapped percent s =
      succeeded (run (codes "amixer") (amixer_args is_mapped (codes "set") (some percent)) s)

  unfoldable pub read_amixer_percent : State → State × Option ℕ
  read_amixer_percent s = percent_in (run (codes "amixer") (amixer_args true (codes "get") none) s)

  unfoldable pub apply_pactl : ℕ → State → State × Bool
  apply_pactl percent s = succeeded (
      run (codes "pactl")
        (codes "set-sink-volume" ∷ codes "@DEFAULT_SINK@" ∷ (decimal percent ++ b'%' ∷ []) ∷ []) s)

  unfoldable pub read_pactl_percent : State → State × Option ℕ
  read_pactl_percent s =
      percent_in (run (codes "pactl") (codes "get-sink-volume" ∷ codes "@DEFAULT_SINK@" ∷ []) s)

  -- `and_then(parse_state)`
  unfoldable pub read_state : State → Option SavedVolume
  read_state s = elim (read_file s) [ none ↦ none | some text ↦ parse_state text ]

  unfoldable pub write_state : ℕ → State → State × Bool
  write_state percent s = write_file (format_state percent) s

  abbrev pub raw_of : Option SavedVolume → Option ℕ
  raw_of none = none
  raw_of (some (raw percent)) = some percent
  raw_of (some (mapped percent)) = none

  -- `AudioVolume::new`, with what the two probes said.
  unfoldable pub probed : Option ℕ → State × Option ℕ → Volume
  probed amixer_probe (s, pactl_probe) = record {
    tools = s;
    backend = select_backend (is_ok amixer_probe) (is_ok pactl_probe);
    percent = initial_percent (read_state s);
    migrate_raw = raw_of (read_state s);
  }

  unfoldable pub new_volume : State → Volume
  unfolding probed
  new_volume s =
      let (s', amixer_probe) = read_amixer_percent s in probed amixer_probe (read_pactl_percent s')

  unfoldable pub apply : ℕ → Volume → Volume × Bool
  apply percent v = elim v.backend [
    | amixer ↦ let (s, done) = apply_amixer true percent v.tools in (record v { tools = s }, done)
    | pactl ↦ let (s, done) = apply_pactl percent v.tools in (record v { tools = s }, done)
    | unavailable_backend ↦ (v, false)
  ]

  abbrev written : Volume → State × Bool → Volume × Option VolumeError
  written v (s, done) = (record v { tools = s }, if done then none else some not_written)

  abbrev applied : ℕ → Volume × Bool → Volume × Option VolumeError
  applied percent (v, false) = (v, some tool_failed)
  applied percent (v, true) = written (record v { percent = percent }) (write_state percent v.tools)

  unfoldable pub set_volume : ℕ → Volume → Volume × Option VolumeError
  set_volume percent v =
      if leb percent 100 then applied percent (apply percent v) else (v, some over_100)

  -- `convert_raw_to_mapped`: the old value on the old scale, and what that is on the new one.
  abbrev read_back : State × Bool → State × Option ℕ
  read_back (s, false) = (s, none)
  read_back (s, true) = read_amixer_percent s

  unfoldable pub convert_raw_to_mapped : ℕ → State → State × Option ℕ
  convert_raw_to_mapped percent s = read_back (apply_amixer false percent s)

  abbrev keep_converted : Volume → State × Option ℕ → Volume
  keep_converted v (s, none) = record v { tools = s }
  keep_converted v (s, some percent) = record v {
    tools = (write_state percent s).0;
    percent = percent;
  }

  unfoldable pub migrate : ℕ → Volume → Volume
  migrate percent v = elim v.backend [
    | amixer ↦ keep_converted v (convert_raw_to_mapped percent v.tools)
    | pactl ↦ keep_converted v (v.tools, some percent)
    | unavailable_backend ↦ v
  ]

  abbrev migrate_if : Option ℕ → Volume → Volume
  migrate_if none v = v
  migrate_if (some percent) v = migrate percent v

  -- A failure is tried once more, and then only logged.
  abbrev retried : ℕ → Volume × Bool → Volume
  retried percent (v, true) = v
  retried percent (v, false) = (apply percent v).0

  unfoldable pub start : Volume → Volume
  unfolding migrate apply
  start v =
      let w = migrate_if v.migrate_raw (record v { migrate_raw = none }) in
      retried w.percent (apply w.percent w)

  -- The volume is saved, and the output muted; a failure is only logged.
  unfoldable pub shutdown : Volume → Volume
  unfolding apply
  shutdown v = (apply 0 (record v { tools = (write_state v.percent v.tools).0 })).0
