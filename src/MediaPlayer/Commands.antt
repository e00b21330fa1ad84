-- ===== src/MediaPlayer/Commands.antt =====
-- `MediaPlayer::execute`, the setters, and the watcher that goes on to the next track
-- (src/backend/src/media_player.rs).
use carnine.Prelude.{
  ℕ, ◌+◌, ◌-◌, ◌^◌, Bool, ◌||◌, Option, none, some, List, [], ◌∷◌, map, ◌==◌, if◌then◌else◌,
}
use carnine.Prelude.Bytes.{codes, same, is_empty, parse_unsigned, digits_below, trim, to_lower}
use carnine.Prelude.Int.{ℤ, pos, negsuc}
use carnine.MediaPlayer.Engine.{Engine}
use carnine.MediaPlayer.Queue.{
  Shuffler, RepeatMode, forward, backward, restart, set_shuffle_mode, current_queue_path,
}
use carnine.MediaPlayer.Player.{
  Player, invalid_number, unknown_command, AnnouncementLevels, engine_failed, Outcome, path_of,
  publish, report_output_availability, player_error,
}
use carnine.MediaPlayer.Transport.{
  play, pause_playback, switch_track, switch_to_index, is_active_track_finished,
  handle_track_finished,
}
use carnine.MediaPlayer.Seek.{seek, stop_playback, handle_output_lost}
use carnine.MediaPlayer.Announce.{follow_announcement}

-- `str::parse` to a `usize`
unfoldable pub parse_usize : List ℕ → Option ℕ
parse_usize s = parse_unsigned (2 ^ 64) s

abbrev pub negate : ℕ → ℤ
negate n = if n == 0 then pos 0 else negsuc (n - 1)

abbrev positive : Option ℕ → Option ℤ
positive none = none
positive (some n) = some (pos n)

abbrev negative : Option ℕ → Option ℤ
negative none = none
negative (some n) = some (negate n)

-- `str::parse` to an `i64`
unfoldable pub parse_i64 : List ℕ → Option ℤ
parse_i64 [] = none
parse_i64 (c ∷ s) =
    if c == b'-'
    then negative (digits_below (2 ^ 63 + 1) s)
    else if c == b'+'
    then positive (digits_below (2 ^ 63) s)
    else positive (digits_below (2 ^ 63) (c ∷ s))

pub data Command : Type 0 where
  to_play to_pause to_stop to_next to_previous to_restart to_seek to_queue_entry unknown : Command

unfoldable pub command_of : List ℕ → Command
command_of s =
    if same s (codes "play") || same s (codes "resume")
    then to_play
    else if same s (codes "pause")
    then to_pause
    else if same s (codes "stop")
    then to_stop
    else if same s (codes "next")
    then to_next
    else if same s (codes "previous")
    then to_previous
    else if same s (codes "restart")
    then to_restart
    else if same s (codes "seek")
    then to_seek
    else if same s (codes "queue-entry")
    then to_queue_entry
    else unknown

module _ (E : Engine) (R : Shuffler) where
  abbrev Call : Type 0
  Call = ℕ → Player E R → Outcome E R

  abbrev pub seek_by : Option ℤ → Call
  seek_by none now p = (p, some invalid_number)
  seek_by (some delta) now p = seek E R delta now p

  abbrev pub play_entry : Option ℕ → Call
  play_entry none now p = (p, some invalid_number)
  play_entry (some i) now p = switch_to_index E R i now p

  abbrev unknown_call : Call
  unknown_call now p = (p, some unknown_command)

  unfoldable pub run_command : Command → List ℕ → Call
  run_command to_play parameters = play E R parameters
  run_command to_pause parameters = pause_playback E R
  run_command to_stop parameters = stop_playback E R
  run_command to_next parameters = switch_track E R forward
  run_command to_previous parameters = switch_track E R backward
  run_command to_restart parameters = switch_track E R restart
  run_command to_seek parameters = seek_by (parse_i64 (trim parameters))
  run_command to_queue_entry parameters = play_entry (parse_usize parameters)
  run_command unknown parameters = unknown_call

  abbrev pub with_error : ℕ → Outcome E R → Outcome E R
  with_error now (p, none) = (p, none)
  with_error now (p, some e) = (publish E R p now player_error, some e)

  -- `execute`
  unfoldable pub execute : List ℕ → List ℕ → Call
  unfolding run_command command_of parse_i64 parse_usize
  execute command parameters now p =
      with_error now (run_command (command_of (map to_lower (trim command))) parameters now p)

  unfoldable pub set_repeat : RepeatMode → Player E R → Player E R
  set_repeat mode p = record p { queue = record (p.queue) { repeat_mode = mode } }

  unfoldable pub set_shuffle : Bool → Player E R → Player E R
  set_shuffle enabled p = record p { queue = set_shuffle_mode R p.queue enabled }

  abbrev finish_if_due : ℕ → Player E R → Player E R
  finish_if_due now p =
      if is_active_track_finished E R p then handle_track_finished E R now p else p

  -- One turn of `spawn_completion_watcher`.
  unfoldable pub watch : ℕ → Player E R → Player E R
  watch now p =
      finish_if_due now (
        follow_announcement E R now (report_output_availability E R (handle_output_lost E R now p)))

  unfoldable pub set_announcement_levels : AnnouncementLevels E R → Player E R → Player E R
  set_announcement_levels levels p = record p { announcement_levels = levels }

  unfoldable pub shutdown : Call
  shutdown now p = stop_playback E R now p

  unfoldable pub shutdown_output : Player E R → Outcome E R
  shutdown_output p =
      let (s, done) = E.shutdown p.engine in
      (record p { engine = s }, if done then none else some engine_failed)

  abbrev loose_path : Player E R → Option (List ℕ)
  loose_path p =
      if is_empty (path_of E R p.media_path)
      then current_queue_path R p.queue
      else some (path_of E R p.media_path)

  unfoldable pub loose_track_path : Player E R → Option (List ℕ)
  loose_track_path p = elim p.playlist_id [ some id ↦ none | none ↦ loose_path p ]
