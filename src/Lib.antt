-- ===== src/Lib.antt =====
-- The backend of carnine2, a car computer on a Raspberry Pi: the models and proofs of its parts
-- that talk to hardware, of its media player and service, of its volume, of its voice,
-- of its log, of its clock, of its polylines, and of its warning of a hot CPU.
--
-- The power supply (src/backend/src/power_supply.rs) is a module with its own firmware at the end of
-- a serial line. It sends telegrams between the control bytes STX and ETX and text in between;
-- the backend sends signs of life, the switches of the amplifier relay, and asks for the firmware's
-- version.
-- - PowerSupply/Telegram: `TelegramParser`; `push` takes a byte and hands out what it completes,
--   `feed` is the reader's loop over a buffer. Telegram/Framing proves what a frame does,
--   Telegram/Report what the report of a second does, Telegram/Bounds the sizes.
-- - PowerSupply/Version: `FirmwareVersion::parse` and its `Display`.
-- - PowerSupply/Hub: `PowerSupplyHub` with the status, its `update`, and the `AmplifierRequest`;
--   `switch_amplifier_off` is the call up to its wait, and `off_end` what the wait comes to.
-- - PowerSupply/RetryLog: `RetryLog`, which decides how loud a failure is logged.
-- - PowerSupply/Sender: one connection, `run_line`. The sender thread `send_alive` is cut into the
--   sections of its loop body, each a step of `advance`; the reader `read_telegrams` takes one
--   buffer in a step. Sender/Actions has every order of these steps and of the hub's callers.
--
-- The controls (src/backend/src/controls.rs) are switches and sliders on port expanders and PWM
-- channels, configured by the user.
-- - Controls/Types and Controls/Config: the data, and `Control::from_config`; Config/Backlight the
--   entry that `DisplayConfig::backlight_control` (src/backend/src/config.rs) adds.
-- - Controls/Pwm, Controls/Sysfs: `pwm_duty_ns`, and `SysfsPwm` over the attributes of the kernel.
-- - Controls/Board: the buses, lines, channels and the database that the hub calls, a parameter of
--   all that uses it; nothing is assumed of it, so each call may fail at any time.
-- - Controls/Chip, Controls/Output: `Mcp23017` and `drive_pwm` over a board.
-- - Controls/Hub: `ControlHub`. Hub/Maps has its maps, Hub/Operations its public operations, and
--   Hub/Operations/Build `with_pwm`.
-- - Controls/Service: `ControlServiceImpl`, what clients see of the hub.
--
-- The media player (src/backend/src/media_player.rs) plays a queue of tracks, lowers the music for
-- spoken announcements, and follows the playlists of the library. Each of its calls is one step of a
-- `Player`, with one instant as the reading of the clock; a call that fails leaves what it did
-- before. - MediaPlayer/Queue: the tracks, repeat and shuffle. The `rand` crate is the parameter
-- `Shuffler`;   `Fair` in Queue/Order is what its documentation says, that a shuffle has the same
-- items. - MediaPlayer/Engine: the audio engine, the files and the durations that the player calls,
-- a   parameter of all that follows. Nothing is assumed of it but where a theorem takes `Works`
-- (MediaPlayer/Advance), that each start and each stop works. - MediaPlayer/Player: the state of
-- `MediaPlayer`, its position clock, its events, and how a   playback is started and stopped. -
-- MediaPlayer/Transport, Seek, Announce, Playlist: the calls by subject. MediaPlayer/Commands has
-- `execute`, the setters, and `watch`, one turn of `spawn_completion_watcher`. - MediaPlayer/Calls
-- has every call of the other parts as an action, for rows of them. - MediaPlayer/Clock, Spoken,
-- Removal, Advance, Rounds, Sound and Stuck: the proofs.
--
-- The media service (src/backend/src/main.rs, `MediaServiceImpl`) saves what plays, restores it
-- after a start, and answers the clients. - MediaService/Database: the database of the library as it
-- is called, and the names of the repeat   modes, a parameter; the theorem on a restart takes
-- `KeepsResume`, that what was saved is loaded. - MediaService: `save_resume_state`,
-- `restore_resume_state`, and the calls that change the player.
--
-- Music volumes (src/backend/src/storage_events.rs) are looked at when UDisks2 has gone quiet, and
-- offered to the clients by the media service.
-- - Storage: `settle`, `KnownVolumes::update`, `inspect_and_report`, and `discover_music_volume`,
--   `music_volume_gone` and the beginning of `stream_library_events` of src/backend/src/main.rs.
--   What UDisks2 answers, the number of files that a scan finds, and `Vec::sort` are parameters.
--
-- The system metrics (src/backend/src/system_metrics.rs) warn of a hot CPU.
-- - SystemMetrics: `ThermalGuard`, and `run` as far as it times the samples and sends the warnings; a
--   temperature is only compared, so `f64` is a parameter with its `>=`.
--
-- The audio volume (src/backend/src/audio_volume.rs) sets the mixer through `amixer` or `pactl` and
-- keeps its value in a file over restarts.
-- - AudioVolume: `AudioVolume` and its calls; AudioVolume/Text the state file, the arguments and the
--   output of the programs; AudioVolume/Programs the programs and the file, a parameter. The theorems
--   on restarts (AudioVolume/Restart) take `KeepsFile`: a file reads back what was written last, and
--   the programs leave it alone.
--
-- The log (src/backend/src/size_capped_log.rs) is a file that is moved away once it grows too large.
-- - SizeCappedLog: `SizeCappedFile` over the file at the log's path and the one at `<name>.1`; how
--   each system call of a write ends is an argument, so the theorems hold for every failure.
--
-- The clock (src/backend/src/navigation/clock.rs) is set from GPS time once after the start.
-- - Navigation/Clock: `decide` and `ClockSetter`; `offer` gives the time that the system clock is set
--   to, and `settings` goes through a row of offers.
--
-- Navigation/Polyline: `decode_polyline` (src/backend/src/navigation/valhalla.rs), which reads the
-- routes of the route server; Polyline/Encoding has the encoding that it reads.
--
-- The voice (src/backend/src/voice.rs) speaks the turn instructions on a thread of its own, which
-- also synthesizes texts ahead. - Voice/Synthesizer: the synthesizer and the files, a parameter;
-- nothing is assumed of it but where   a theorem takes a `Disk`. - Voice/Cache: the synthesized
-- texts and their files, `speech_file`. Voice/Worker: `Worker::run`,   whose loop is cut into turns;
-- a synthesis for an announcement is a turn of its own, so that the   callers (Voice/Caller,
-- `Voice`) come in between. The number of an announcement and the row of what   was played are there
-- for statements. - Voice/Control: `VoiceControl`, the settings, over a database as a parameter; the
-- theorem on a   restart takes `KeepsSettings`, that what was saved is loaded.
--
-- The shared helpers are in Prelude: Prelude/Bits for the bits of a latch, Prelude/Bytes for ASCII
-- text, trimming and decimal numbers, Prelude/Lists for lists.
--
-- Numbers, bounds and time. A byte, an id or a level is a natural number; where a machine word
-- matters (`!used_pins`, `to_le_bytes`, the bits of a latch) the width is written out. Products such
-- as the duty cycle stay below 2 ^ 64 for the periods and levels that the configuration accepts. An
-- instant is a number of milliseconds, and differences stop at 0 as `saturating_duration_since`
-- does. All loops but one go over a list; `decode_polyline` has as much fuel as there are bytes,
-- since each number takes a byte at least. The serial line and the files of sysfs carry `room`, the
-- number of writes until the first that fails; the theorems hold for every `room`.
--
-- The player's ids and durations are natural numbers; its position is cut at 2 ^ 63 - 1 as
-- `saturating_add` does.
--
-- Not modelled: log output; two calls of the media player or of the voice that overlap, also a
-- caller's announcement between the last look of the voice thread at `played_direct` and its call of
-- the sink; the channels that its events go out on; the waiting times of kicks, resets and retries;
-- text beyond ASCII; the answers of UDisks2 and the copying of an import; the order in which a hash
-- map is gone through (a list in the order of the first key); a subscriber that falls behind and
-- loses changes; the wording of errors; a condition variable's wake-up, for which the waiting sender
-- may go on at any time. One section of the sender is one step, though it may read the status and
-- the request one after the other. The system calls of the drivers and the other parts of the
-- backend are left out.
pub mod Prelude
pub mod PowerSupply
pub mod Controls
pub mod SizeCappedLog
pub mod Navigation
pub mod MediaPlayer
pub mod MediaService
pub mod Storage
pub mod SystemMetrics
pub mod AudioVolume
pub mod Voice
