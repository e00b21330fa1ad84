-- ===== src/MediaService/Tests.antt =====
-- A playlist of three tracks over a start (src/backend/src/main.rs).
use carnine.Prelude.{
  ℕ, ◌≡◌, refl, arith, Bool, true, Option, none, some, List, [], ◌∷◌, if◌then◌else◌,
}
use carnine.Prelude.Bytes.{codes, same}
use carnine.MediaPlayer.Bench.{bench, in_order}
use carnine.MediaPlayer.Queue.{RepeatMode, unspecified, repeat_off, repeat_track, repeat_queue}
use carnine.MediaPlayer.Player.{Player, new_player, paused, position}
use carnine.MediaPlayer.Playlist.{Entry, ids_of, paths_of, mode_of, restore_paused}
use carnine.MediaService.Database.{Library, ResumeState}
use carnine.MediaService.{
  MediaService, save_resume_state, restore_resume_state, delete_playlist, LibraryEvent,
}
use carnine.MediaService.Resume.{KeepsResume, place, started, save-restore_resume_state}

abbrev entries : List Entry
entries = (11, codes "one") ∷ (12, codes "two") ∷ (13, codes "three") ∷ []

abbrev name_of : RepeatMode → List ℕ
name_of unspecified = codes "REPEAT_MODE_UNSPECIFIED"
name_of repeat_off = codes "REPEAT_OFF"
name_of repeat_track = codes "REPEAT_TRACK"
name_of repeat_queue = codes "REPEAT_QUEUE"

abbrev mode_named : List ℕ → Option RepeatMode
mode_named name =
    if same name (codes "REPEAT_MODE_UNSPECIFIED")
    then some unspecified
    else if same name (codes "REPEAT_OFF")
    then some repeat_off
    else if same name (codes "REPEAT_TRACK")
    then some repeat_track
    else if same name (codes "REPEAT_QUEUE")
    then some repeat_queue
    else none

abbrev one_row : Library
one_row = record {
  State = Option ResumeState;
  save_resume_state = λ state s. (some state, true);
  load_resume_state = λ s. some s;
  load_playlist_resume = λ id s. some none;
  playlist_media_paths = λ id s. some entries;
  delete_playlist = λ id s. (s, some true);
  remove_playlist_entry = λ id s. (s, some (some 7));
  playlist_name = λ id s. some (codes "Favorites");
  playlist_entries = λ id s. some [];
  playlist_cover_path = λ id s. some none;
  as_str_name = name_of;
  from_str_name = mode_named;
}

named : (mode : RepeatMode) → mode_named (name_of mode) ≡ some mode
named unspecified = refl
named repeat_off = refl
named repeat_track = refl
named repeat_queue = refl

one_row-KeepsResume : KeepsResume bench in_order one_row
one_row-KeepsResume = record { loads = λ state s e. refl; names = named }

-- The second track, for a minute by now.
abbrev player : Player bench in_order
player = record (new_player bench in_order 0 0) {
  queue = record {
    tracks = paths_of entries;
    entry_ids = ids_of entries;
    index = some 1;
    repeat_mode = repeat_queue;
    shuffle_enabled = true;
    shuffle_order = [];
    shuffle_position = 0;
    rng = 0;
  };
  playlist_id = some 7;
  media_path = some (codes "two");
  position_ms = 20000;
  started_at = some 1000;
}

abbrev service : MediaService bench in_order one_row
service = record {
  player = player;
  library = none;
  resume_mode = codes "restore_paused";
  library_events = [];
}

restored_paused : mode_of (codes "restore_paused") ≡ some restore_paused
unfolding mode_of
restored_paused = refl

saved : (save_resume_state bench in_order one_row 41000 service).1 ≡ true
unfolding save_resume_state
saved = refl

abbrev restarted : MediaService bench in_order one_row × Bool
restarted =
    let library = (save_resume_state bench in_order one_row 41000 service).0.library in
    restore_resume_state bench in_order one_row 500
      (started bench in_order one_row 0 0 library (codes "restore_paused"))

save-restore_resume_state_example :
    (restarted.1 ≡ true)
    × (place bench in_order 500 restarted.0.player ≡ place bench in_order 41000 service.player)
    × (restarted.0.player.queue.tracks ≡ service.player.queue.tracks)
    × (restarted.0.player.state ≡ paused)
save-restore_resume_state_example =
    save-restore_resume_state bench in_order one_row service entries 7 1 41000 500 0 0
      one_row-KeepsResume refl refl refl
      ((ground arith, (ground arith, tt)), ((ground arith, tt), (tt, tt))) refl (omega arith) refl
      restored_paused saved refl

minute : position bench in_order player 41000 ≡ 60000
unfolding position new_player
minute = refl

deleted_event :
    (delete_playlist bench in_order one_row 41000 8 service).0.library_events
    ≡ LibraryEvent.playlist_deleted 8 ∷ []
unfolding delete_playlist
deleted_event = refl
