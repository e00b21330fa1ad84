-- ===== src/MediaService.antt =====
-- `MediaServiceImpl` of src/backend/src/main.rs where the media player meets the library: what is saved
-- of the playback and restored from it, and the calls of the clients. Messages are left out.
pub mod Database
pub mod Entries
pub mod Resume
mod Tests
use carnine.Prelude.{ℕ, Bool, true, false, ◌||◌, Option, none, some, List, [], ◌∷◌, if◌then◌else◌}
use carnine.Prelude.Bytes.{codes, same}
use carnine.Prelude.Int.{ℤ, pos}
use carnine.MediaPlayer.Engine.{Engine}
use carnine.MediaPlayer.Queue.{Shuffler, RepeatMode, repeat_off, or_else}
use carnine.MediaPlayer.Player.{
  Player, PlayerError, PlayerEventType, player_playback_started, player_track_changed,
  player_queue_finished, Outcome, position,
}
use carnine.MediaPlayer.Playlist.{
  Entry, is_id, play_playlist, restore_path, forget_playlist, remove_playlist_entry,
  playlist_entry_id,
}
use carnine.MediaPlayer.Commands.{execute, set_repeat, set_shuffle, loose_track_path}
use carnine.MediaService.Database.{Library, ResumeState, PlaylistEntry}

-- The codes of an answer; a success may carry something.
pub data Answer (A : Type 0) : Type 0 where
  done : A → Answer A
  failed_precondition not_found internal : Answer A

pub record Playlist : Type 0 where
  pub id : ℕ
  pub name : List ℕ
  pub entries : List PlaylistEntry
  pub has_cover_art : Bool

abbrev pub is_some {ℓ} : {A : Type ℓ} → Option A → Bool
is_some none = false
is_some (some x) = true

pub data LibraryEvent : Type 0 where
  playlist_deleted playlist_entry_removed : ℕ → LibraryEvent

abbrev pub saves_resume_state : PlayerEventType → Bool
saves_resume_state player_playback_started = true
saves_resume_state player_track_changed = true
saves_resume_state player_queue_finished = true
saves_resume_state _ = false

module _ (E : Engine) (R : Shuffler) (L : Library) where
  pub record MediaService : Type 0 where
    pub player : Player E R
    pub library : L.State
    pub resume_mode : List ℕ
    -- The latest first.
    pub library_events : List LibraryEvent

  abbrev pub with_player : MediaService → Player E R → MediaService
  with_player s p = record s { player = p }

  unfoldable pub resume_state : ℕ → MediaService → ResumeState
  unfolding position playlist_entry_id loose_track_path
  resume_state now s = record {
    playlist_id = s.player.playlist_id;
    playlist_entry_id = playlist_entry_id E R s.player;
    position_ms = pos (position E R s.player now);
    media_path = loose_track_path E R s.player;
    resume_mode = s.resume_mode;
    repeat_mode = L.as_str_name s.player.queue.repeat_mode;
    shuffle_enabled = s.player.queue.shuffle_enabled;
  }

  unfoldable pub save_resume_state : ℕ → MediaService → MediaService × Bool
  unfolding resume_state
  save_resume_state now s =
      let (library, saved) = L.save_resume_state (resume_state now s) s.library in
      (record s { library = library }, saved)

  unfoldable pub save_resume_state_after_setting : ℕ → MediaService → MediaService
  unfolding save_resume_state
  save_resume_state_after_setting now s = (save_resume_state now s).0

  -- One event in the loop of `spawn_resume_saver`.
  unfoldable pub resume_saver : ℕ → PlayerEventType → MediaService → MediaService
  unfolding save_resume_state
  resume_saver now event s = if saves_resume_state event then (save_resume_state now s).0 else s

  abbrev pub player_done : MediaService → Outcome E R → MediaService × Bool
  player_done s (p, none) = (with_player s p, true)
  player_done s (p, some e) = (with_player s p, false)

  abbrev pub restore_playlist : ℕ → ResumeState → ℕ → MediaService → MediaService × Bool
  restore_playlist now state id s = elim (L.playlist_media_paths id s.library) [
    | none ↦ (s, false)
    | some entries ↦ player_done s (
        play_playlist E R id entries state.playlist_entry_id state.position_ms s.resume_mode now
          s.player)
  ]

  abbrev pub restore_place : ℕ → ResumeState → MediaService → MediaService × Bool
  restore_place now state s = elim state.playlist_id [
    | some id ↦ restore_playlist now state id s
    | none ↦ elim state.media_path [
      | none ↦ (s, true)
      | some path ↦
          player_done s (restore_path E R path state.position_ms s.resume_mode now s.player)
    ]
  ]

  -- The modes come before the playlist, so that it builds its shuffle order.
  abbrev pub with_modes : ResumeState → Player E R → Player E R
  with_modes state p =
      set_shuffle E R state.shuffle_enabled
        (set_repeat E R (or_else (L.from_str_name state.repeat_mode) repeat_off) p)

  unfoldable pub restore_resume_state : ℕ → MediaService → MediaService × Bool
  restore_resume_state now s = elim (L.load_resume_state s.library) [
    | none ↦ (s, false)
    | some loaded ↦ elim loaded [
      | none ↦ (s, true)
      | some state ↦ restore_place now state (with_player s (with_modes state s.player))
    ]
  ]

  abbrev pub executed : MediaService → Outcome E R → MediaService × Answer Unit
  executed s (p, none) = (with_player s p, done tt)
  executed s (p, some e) = (with_player s p, failed_precondition)

  abbrev saved_first : ℕ → List ℕ → List ℕ → MediaService × Bool → MediaService × Answer Unit
  saved_first now name parameters (s, false) = (s, internal)
  saved_first now name parameters (s, true) = executed s (execute E R name parameters now s.player)

  -- `command`, which `play`, `pause`, `stop`, `next`, `previous`, `restart_current_track` and
  -- `play_queue_entry` call.
  unfoldable pub command : ℕ → List ℕ → List ℕ → MediaService → MediaService × Answer Unit
  unfolding save_resume_state
  command now name parameters s =
      if same name (codes "stop")
      then saved_first now name parameters (save_resume_state now s)
      else executed s (execute E R name parameters now s.player)

  abbrev then_saved : ℕ → MediaService × Answer Unit → MediaService × Answer Unit
  then_saved now (s, done u) = (save_resume_state_after_setting now s, done u)
  then_saved now (s, failed_precondition) = (s, failed_precondition)
  then_saved now (s, not_found) = (s, not_found)
  then_saved now (s, internal) = (s, internal)

  -- `delta` is the text of the number of milliseconds.
  unfoldable pub seek : ℕ → List ℕ → MediaService → MediaService × Answer Unit
  unfolding command
  seek now delta s = then_saved now (command now (codes "seek") delta s)

  abbrev pub saved_or_internal : MediaService × Bool → MediaService × Answer Unit
  saved_or_internal (s, false) = (s, internal)
  saved_or_internal (s, true) = (s, done tt)

  abbrev pub loaded_then_saved : ℕ → MediaService → Outcome E R → MediaService × Answer Unit
  loaded_then_saved now s (p, some e) = (with_player s p, failed_precondition)
  loaded_then_saved now s (p, none) = saved_or_internal (save_resume_state now (with_player s p))

  -- `play_playlist`, at the place where the playlist stopped last.
  unfoldable pub play_playlist_request : ℕ → ℕ → MediaService → MediaService × Answer Unit
  play_playlist_request now id s = elim (L.load_playlist_resume id s.library) [
    | none ↦ (s, internal)
    | some place ↦ elim (L.playlist_media_paths id s.library) [
      | none ↦ (s, not_found)
      | some entries ↦
          let resume = or_else place (none, pos 0) in
          loaded_then_saved now s
            (play_playlist E R id entries resume.0 resume.1 s.resume_mode now s.player)
    ]
  ]

  unfoldable pub set_repeat_mode : ℕ → RepeatMode → MediaService → MediaService
  set_repeat_mode now mode s =
      save_resume_state_after_setting now (with_player s (set_repeat E R mode s.player))

  unfoldable pub set_shuffle_mode : ℕ → Bool → MediaService → MediaService
  set_shuffle_mode now enabled s =
      save_resume_state_after_setting now (with_player s (set_shuffle E R enabled s.player))

  abbrev pub send : LibraryEvent → MediaService → MediaService
  send event s = record s { library_events = event ∷ s.library_events }

  abbrev pub forgotten : ℕ → ℕ → MediaService → MediaService
  forgotten now id s =
      if is_id s.player.playlist_id id
      then save_resume_state_after_setting now (with_player s (forget_playlist E R id now s.player))
      else s

  abbrev deleted : ℕ → ℕ → MediaService → L.State × Option Bool → MediaService × Answer Unit
  deleted now id s (library, none) = (record s { library = library }, internal)
  deleted now id s (library, some false) = (record s { library = library }, not_found)
  deleted now id s (library, some true) =
      (send (playlist_deleted id) (forgotten now id (record s { library = library })), done tt)

  unfoldable pub delete_playlist : ℕ → ℕ → MediaService → MediaService × Answer Unit
  delete_playlist now id s = deleted now id s (L.delete_playlist id s.library)

  -- A track that cannot be started after the removal is the player's error.
  abbrev pub moved_on : ℕ → ℕ → ℕ → MediaService → MediaService
  moved_on now entry_id id s =
      if is_id s.player.playlist_id id
      then save_resume_state_after_setting now
          (with_player s (remove_playlist_entry E R entry_id now s.player).0)
      else s

  unfoldable pub playlist_with_entries : L.State → ℕ → Answer Playlist
  playlist_with_entries library id = elim (L.playlist_name id library) [
    | none ↦ not_found
    | some name ↦ elim (L.playlist_entries id library) [
      | none ↦ internal
      | some entries ↦ elim (L.playlist_cover_path id library) [
        | none ↦ internal
        | some cover ↦
            done (record { id = id; name = name; entries = entries; has_cover_art = is_some cover })
      ]
    ]
  ]

  abbrev shown : ℕ → MediaService → MediaService × Answer Playlist
  shown id s = (s, playlist_with_entries s.library id)

  abbrev removed :
      ℕ → ℕ → MediaService → L.State × Option (Option ℕ) → MediaService × Answer Playlist
  removed now entry_id s (library, none) = (record s { library = library }, internal)
  removed now entry_id s (library, some none) = (record s { library = library }, not_found)
  removed now entry_id s (library, some (some id)) =
      shown id (
        send (playlist_entry_removed id)
          (moved_on now entry_id id (record s { library = library })))

  unfoldable pub remove_entry : ℕ → ℕ → MediaService → MediaService × Answer Playlist
  remove_entry now entry_id s = removed now entry_id s (L.remove_playlist_entry entry_id s.library)
