-- ===== src/MediaPlayer/Playlist.antt =====
-- Playlists in `MediaPlayer` (src/backend/src/media_player.rs): loading one, forgetting one, and
-- removing an entry. Ids are natural numbers.
use carnine.Prelude.{
  ℕ, ◌-◌, Bool, true, false, Option, none, some, List, [], ◌∷◌, ◌==◌, ltb, if◌then◌else◌, get_elem?,
}
use carnine.Prelude.Bytes.{codes, same}
use carnine.Prelude.Int.{ℤ, at_least_zero}
use carnine.MediaPlayer.Engine.{Engine}
use carnine.MediaPlayer.Queue.{
  Shuffler, Queue, or_else, find_from, reshuffle_from_current, reshuffle_if_enabled, loose,
  current_queue_path, take_out, following,
}
use carnine.MediaPlayer.Player.{
  Player, stopped, paused, is_playing, no_entries, unsupported_mode, Outcome, and_then, publish,
  stop_active_playback, player_snapshot, player_track_changed, player_stopped,
}
use carnine.MediaPlayer.Transport.{start_current_path, start_at_index}

-- An entry's id and path.
abbrev pub Entry : Type 0
Entry = ℕ × List ℕ

pub data ResumeMode : Type 0 where
  auto_play start_last_title restore_paused : ResumeMode

unfoldable pub mode_of : List ℕ → Option ResumeMode
mode_of s =
    if same s (codes "auto-play")
    then some auto_play
    else if same s (codes "start-last-title")
    then some start_last_title
    else if same s (codes "restore_paused")
    then some restore_paused
    else none

abbrev pub resume_position : ResumeMode → ℤ → ℕ
resume_position start_last_title position_ms = 0
resume_position auto_play position_ms = at_least_zero position_ms
resume_position restore_paused position_ms = at_least_zero position_ms

abbrev pub is_auto_play : ResumeMode → Bool
is_auto_play auto_play = true
is_auto_play _ = false

abbrev pub ids_of : List Entry → List ℕ
ids_of [] = []
ids_of (e ∷ es) = e.0 ∷ ids_of es

abbrev pub paths_of : List Entry → List (List ℕ)
paths_of [] = []
paths_of (e ∷ es) = e.1 ∷ paths_of es

-- The entry to go on with, or the first.
abbrev pub selected : List Entry → Option ℕ → ℕ
selected entries none = 0
selected entries (some id) = or_else (find_from 0 id (ids_of entries)) 0

abbrev pub is_id : Option ℕ → ℕ → Bool
is_id none id = false
is_id (some other) id = other == id

module _ (E : Engine) (R : Shuffler) where
  abbrev Call : Type 0
  Call = ℕ → Player E R → Outcome E R

  abbrev pub start_if : Bool → Call
  start_if false now p = (p, none)
  start_if true now p = start_current_path E R now p

  -- A playlist that is loaded, paused at its selected entry.
  unfoldable pub loaded : ℕ → List Entry → Option ℕ → ℤ → ResumeMode → Player E R → Player E R
  loaded playlist_id entries resume_entry_id resume_position_ms mode p =
      let i = selected entries resume_entry_id in
      record p {
        queue = reshuffle_if_enabled R (record (p.queue) {
          tracks = paths_of entries;
          entry_ids = ids_of entries;
          index = some i;
        });
        playlist_id = some playlist_id;
        position_ms = resume_position mode resume_position_ms;
        media_path = get_elem? (paths_of entries) i;
        state = paused;
      }

  abbrev pub load : ℕ → List Entry → Option ℕ → ℤ → Option ResumeMode → Call
  load playlist_id entries resume_entry_id resume_position_ms none now p =
      (p, some unsupported_mode)
  load playlist_id entries resume_entry_id resume_position_ms (some mode) now p =
      start_if (is_auto_play mode) now
        (loaded playlist_id entries resume_entry_id resume_position_ms mode p)

  -- The mode is looked at only once the old playback has stopped.
  unfoldable pub play_playlist : ℕ → List Entry → Option ℕ → ℤ → List ℕ → Call
  unfolding loaded mode_of
  play_playlist playlist_id entries resume_entry_id resume_position_ms mode now p = elim entries [
    | [] ↦ (p, some no_entries)
    | e ∷ es ↦
        and_then E R (stop_active_playback E R p)
          (load playlist_id (e ∷ es) resume_entry_id resume_position_ms (mode_of mode) now)
  ]

  unfoldable pub restored : List ℕ → ℤ → ResumeMode → Player E R → Player E R
  restored path position_ms mode p = record p {
    queue = loose R p.queue path;
    playlist_id = none;
    position_ms = resume_position mode position_ms;
    media_path = some path;
    state = paused;
  }

  abbrev pub restore : List ℕ → ℤ → ResumeMode → Call
  restore path position_ms mode now p =
      start_if (is_auto_play mode) now (restored path position_ms mode p)

  unfoldable pub restore_path : List ℕ → ℤ → List ℕ → Call
  unfolding restored mode_of
  restore_path path position_ms mode now p = elim (mode_of mode) [
    | none ↦ (p, some unsupported_mode)
    | some m ↦
        if E.is_file path p.engine
        then and_then E R (stop_active_playback E R p) (restore path position_ms m now)
        else (p, none)
  ]

  -- The current track on its own.
  unfoldable pub alone : Queue R → Queue R
  alone q = elim (current_queue_path R q) [
    | none ↦ reshuffle_from_current R (record q { tracks = []; entry_ids = []; index = none })
    | some path ↦
        reshuffle_from_current R (record q { tracks = path ∷ []; entry_ids = []; index = some 0 })
  ]

  unfoldable pub forget_playlist : ℕ → ℕ → Player E R → Player E R
  forget_playlist id now p =
      if is_id p.playlist_id id
      then publish E R (record p { queue = alone p.queue; playlist_id = none }) now player_snapshot
      else p

  -- `go_on_after_removed`, once the playback has stopped.
  unfoldable pub go_to_following : Option ℕ → Bool → Call
  go_to_following none was_playing now p = (
    publish E R
        (record p { queue = record (p.queue) { index = none }; media_path = none; state = stopped })
        now player_stopped,
    none,
  )
  go_to_following (some i) true now p = start_at_index E R i now p
  go_to_following (some i) false now p = (
    publish E R
        (record p {
          queue = record (p.queue) { index = some i };
          media_path = get_elem? p.queue.tracks i;
        })
        now player_track_changed,
    none,
  )

  unfoldable pub go_on_after_removed : Option ℕ → Call
  unfolding go_to_following
  go_on_after_removed next now p =
      and_then E R (stop_active_playback E R p) (go_to_following next (is_playing p.state) now)

  -- What becomes of the current track at `i`, once the entry at `removed` is out of the queue.
  unfoldable pub after_removal : ℕ → Queue R × Option ℕ → ℕ → Player E R → Option ℕ → Outcome E R
  after_removal removed (q, slot) now p none =
      (publish E R (record p { queue = q }) now player_snapshot, none)
  after_removal removed (q, slot) now p (some i) =
      if i == removed
      then (let (q', next) = following R q removed slot in
          go_on_after_removed next now (record p { queue = q' }))
      else (
        publish E R
            (record p { queue = if ltb removed i then record q { index = some (i - 1) } else q })
            now player_snapshot,
        none,
      )

  unfoldable pub remove_playlist_entry : ℕ → Call
  unfolding after_removal
  remove_playlist_entry entry_id now p = elim (find_from 0 entry_id p.queue.entry_ids) [
    | none ↦ (p, none)
    | some removed ↦ after_removal removed (take_out R p.queue removed) now p p.queue.index
  ]

  unfoldable pub playlist_entry_id : Player E R → Option ℕ
  playlist_entry_id p = elim p.queue.index [ none ↦ none | some i ↦ get_elem? p.queue.entry_ids i ]
