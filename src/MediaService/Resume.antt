-- ===== src/MediaService/Resume.antt =====
-- What is saved of the playback is restored after a start (src/backend/src/main.rs).
use carnine.MediaService.Entries.{AreDistinct, find_from-get_elem?, get_elem?-ids_of}
use carnine.Prelude.{
  ℕ, ◌+◌, ◌-◌, ◌^◌, ◌<◌, ◌≤◌, ◌≡◌, refl, sym, ap, ◌∙◌, arith, Bool, true, Option, none, some, List,
  [], ◌∷◌, Bool-cases, inl, inr, get_elem?, length, min,
}
use carnine.Prelude.Int.{ℤ, pos}
use carnine.MediaPlayer.Engine.{Engine}
use carnine.MediaPlayer.Queue.{
  Shuffler, RepeatMode, repeat_off, or_else, reorder, set_shuffle_mode, current_queue_path,
}
use carnine.MediaPlayer.Player.{
  Player, paused, new_player, position, stop_active_playback, drop_playback,
}
use carnine.MediaPlayer.Playlist.{
  Entry, ids_of, paths_of, selected, mode_of, restore_paused, loaded, restored, play_playlist,
  playlist_entry_id,
}
use carnine.MediaPlayer.Commands.{set_repeat, set_shuffle}
use carnine.MediaService.Database.{Library, ResumeState}
use carnine.MediaService.{
  MediaService, resume_state, save_resume_state, restore_resume_state, with_modes, with_player,
}

module _ (E : Engine) (R : Shuffler) where
  -- What is heard and seen of the playback.
  pub record Place : Type 0 where
    pub playlist_id : Option ℕ
    pub entry_id : Option ℕ
    pub track : Option (List ℕ)
    pub shown_track : Option (List ℕ)
    pub position_ms : ℕ
    pub repeat_mode : RepeatMode
    pub shuffle_enabled : Bool

  abbrev pub place : ℕ → Player E R → Place
  place now p = record {
    playlist_id = p.playlist_id;
    entry_id = playlist_entry_id E R p;
    track = current_queue_path R p.queue;
    shown_track = p.media_path;
    position_ms = position E R p now;
    repeat_mode = p.queue.repeat_mode;
    shuffle_enabled = p.queue.shuffle_enabled;
  }

  -- The modes on a player that has just started.
  fresh_modes :
      (L : Library) (state : ResumeState) (engine : E.State) (rng : R.Rng)
      → let p = with_modes E R L state (new_player E R engine rng) in
        (p.queue.shuffle_enabled ≡ state.shuffle_enabled)
        × (p.queue.repeat_mode ≡ or_else (L.from_str_name state.repeat_mode) repeat_off)
  unfolding set_shuffle set_repeat set_shuffle_mode reorder new_player
  fresh_modes L state engine rng = ground arith

  -- The modes on a player that has just started leave it without a playback to stop.
  fresh-stop :
      (L : Library) (state : ResumeState) (engine : E.State) (rng : R.Rng)
      → let p = with_modes E R L state (new_player E R engine rng) in
        (stop_active_playback E R p ≡ (p, none)) × (p.started_at ≡ none)
  unfolding set_shuffle set_repeat new_player stop_active_playback drop_playback
  fresh-stop L state engine rng = (refl, refl)

  loaded-place :
      (id : ℕ) (entries : List Entry) (e : Entry) (i n later : ℕ) (p : Player E R)
      → AreDistinct (ids_of entries)
      → get_elem? (ids_of entries) i ≡ some e.0
      → get_elem? (paths_of entries) i ≡ some e.1
      → n ≤ 2 ^ 63 - 1
      → p.started_at ≡ none
      → place later (loaded E R id entries (some e.0) (pos n) restore_paused p) ≡ record {
        playlist_id = some id;
        entry_id = some e.0;
        track = some e.1;
        shown_track = some e.1;
        position_ms = n;
        repeat_mode = p.queue.repeat_mode;
        shuffle_enabled = p.queue.shuffle_enabled;
      }
  unfolding loaded playlist_entry_id position reorder
  loaded-place id entries e i n later p distinct at_id at_path fits idle =
      let there : selected entries (some e.0) ≡ i =
        rw (find_from-get_elem? 0 i (ids_of entries) e.0 distinct at_id) (omega arith) in
      let whole : min (n + 0) (2 ^ 63 - 1) ≡ n = omega (arith, fits) in
      elim (Bool-cases p.queue.shuffle_enabled) [
        | inl on ↦ rw (there, on, at_id, at_path, idle, whole) refl
        | inr off ↦ rw (there, off, at_id, at_path, idle, whole) refl
      ]

  loaded-others :
      (id : ℕ) (entries : List Entry) (entry : Option ℕ) (position_ms : ℤ) (p : Player E R)
      → let q = loaded E R id entries entry position_ms restore_paused p in
        (q.queue.tracks ≡ paths_of entries) × (q.state ≡ paused)
  unfolding loaded reorder
  loaded-others id entries entry position_ms p = ground arith

  saved-place :
      (p : Player E R) (now id i : ℕ) (e : Entry)
      → p.playlist_id ≡ some id
      → p.queue.index ≡ some i
      → get_elem? p.queue.entry_ids i ≡ some e.0
      → get_elem? p.queue.tracks i ≡ some e.1
      → p.media_path ≡ get_elem? p.queue.tracks i
      → place now p ≡ record {
        playlist_id = some id;
        entry_id = some e.0;
        track = some e.1;
        shown_track = some e.1;
        position_ms = position E R p now;
        repeat_mode = p.queue.repeat_mode;
        shuffle_enabled = p.queue.shuffle_enabled;
      }
  unfolding playlist_entry_id
  saved-place p now id i e playlist at at_id at_path path =
      rw (playlist, at, at_id, path, at_path) refl

  module _ (L : Library) where
    -- What is documented of the database and of the names: what was saved is loaded, and each mode is
    -- found by its name.
    pub record KeepsResume : Type 0 where
      pub loads :
          (state : ResumeState) (s : L.State)
          → (L.save_resume_state state s).1 ≡ true
          → L.load_resume_state (L.save_resume_state state s).0 ≡ some (some state)
      pub names : (mode : RepeatMode) → L.from_str_name (L.as_str_name mode) ≡ some mode

    -- The service after a start, with a player that has played nothing yet.
    abbrev pub started : E.State → R.Rng → L.State → List ℕ → MediaService E R L
    started engine rng library resume_mode = record {
      player = new_player E R engine rng;
      library = library;
      resume_mode = resume_mode;
      library_events = [];
    }

    restore_loaded :
        (state : ResumeState) (id later : ℕ) (entry : Entry) (rest : List Entry) (engine : E.State)
        (rng : R.Rng) (library : L.State) (mode : List ℕ)
        → L.load_resume_state library ≡ some (some state)
        → state.playlist_id ≡ some id
        → L.playlist_media_paths id library ≡ some (entry ∷ rest)
        → mode_of mode ≡ some restore_paused
        → let s = started engine rng library mode in
          let p = with_modes E R L state s.player in
          restore_resume_state E R L later s ≡ (
            with_player E R L s (
                loaded E R id
                  (entry ∷ rest)
                  state.playlist_entry_id
                  state.position_ms
                  restore_paused
                  p),
            true,
          )
    unfolding restore_resume_state play_playlist
    restore_loaded state id later entry rest engine rng library mode saved playlist paths by =
        let stop = fresh-stop L state engine rng in
        ground (arith, saved, playlist, paths, stop.0, by)

    position-fits : (p : Player E R) (now : ℕ) → position E R p now ≤ 2 ^ 63 - 1
    unfolding position
    position-fits p now = omega arith

    -- What is saved of a playlist.
    resume_state-values :
        (s : MediaService E R L) (now id i : ℕ) (e : Entry)
        → s.player.playlist_id ≡ some id
        → s.player.queue.index ≡ some i
        → get_elem? s.player.queue.entry_ids i ≡ some e.0
        → let state = resume_state E R L now s in
          (state.playlist_id ≡ some id)
          × (state.playlist_entry_id ≡ some e.0)
          × (state.position_ms ≡ pos (position E R s.player now))
          × (state.repeat_mode ≡ L.as_str_name s.player.queue.repeat_mode)
          × (state.shuffle_enabled ≡ s.player.queue.shuffle_enabled)
    unfolding resume_state playlist_entry_id
    resume_state-values s now id i e playlist at there =
        (playlist, rw (at, there) refl, refl, refl, refl)

    save-loads :
        (s : MediaService E R L) (now : ℕ)
        → KeepsResume
        → (save_resume_state E R L now s).1 ≡ true
        → L.load_resume_state (save_resume_state E R L now s).0.library
          ≡ some (some (resume_state E R L now s))
    unfolding save_resume_state
    save-loads s now keeps works = keeps.loads (resume_state E R L now s) s.library works

    -- Over a database that keeps what is saved: the place in a playlist that was saved is there again
    -- after a start that restores paused, as long as the playlist has the same entries: the playlist
    -- and its tracks, the entry, the track and its position, and the repeat and shuffle modes.
    pub save-restore_resume_state :
        (s : MediaService E R L) (entries : List Entry) (id i now later : ℕ) (engine : E.State)
        (rng : R.Rng)
        → KeepsResume
        → s.player.playlist_id ≡ some id
        → s.player.queue.entry_ids ≡ ids_of entries
        → s.player.queue.tracks ≡ paths_of entries
        → AreDistinct (ids_of entries)
        → s.player.queue.index ≡ some i
        → i < length entries
        → s.player.media_path ≡ get_elem? s.player.queue.tracks i
        → mode_of s.resume_mode ≡ some restore_paused
        → (save_resume_state E R L now s).1 ≡ true
        → L.playlist_media_paths id (save_resume_state E R L now s).0.library ≡ some entries
        → let library = (save_resume_state E R L now s).0.library in
          let (restarted, restored) =
            restore_resume_state E R L later (started engine rng library s.resume_mode) in
          (restored ≡ true)
          × (place later restarted.player ≡ place now s.player)
          × (restarted.player.queue.tracks ≡ s.player.queue.tracks)
          × (restarted.player.state ≡ paused)
    save-restore_resume_state s [] id i now later engine rng keeps playlist ids tracks distinct at
          low path by works paths =
        absurd (omega (arith, low))
    save-restore_resume_state s (entry ∷ rest) id i now later engine rng keeps playlist ids tracks
          distinct at low path by works paths =
        let (e, found, at_id, at_path) = get_elem?-ids_of (entry ∷ rest) i low in
        let state = resume_state E R L now s in
        let v = resume_state-values s now id i e playlist at (rw ids at_id) in
        let library = (save_resume_state E R L now s).0.library in
        let restored =
          restore_loaded state id later entry rest engine rng library s.resume_mode
            (save-loads s now keeps works) v.0 paths by in
        let fresh = with_modes E R L state (new_player E R engine rng) in
        let modes = fresh_modes L state engine rng in
        let n = position E R s.player now in
        let repeat : fresh.queue.repeat_mode ≡ s.player.queue.repeat_mode =
          modes.1
          ∙ ap (λ name. or_else (L.from_str_name name) repeat_off) v.3
          ∙ ap (λ mode. or_else mode repeat_off) (keeps.names s.player.queue.repeat_mode) in
        let same_place =
          ap
            (λ (x : Option ℕ × ℤ).
              place later (loaded E R id (entry ∷ rest) x.0 x.1 restore_paused fresh))
            (cc (v.1, v.2))
          ∙ loaded-place id (entry ∷ rest) e i n later fresh distinct at_id at_path
              (position-fits s.player now) (fresh-stop L state engine rng).1
          ∙ cc (repeat, modes.0, v.4)
          ∙ sym (
              saved-place s.player now id i e playlist at (rw ids at_id) (rw tracks at_path)
                path) in
        let other =
          loaded-others id (entry ∷ rest) state.playlist_entry_id state.position_ms fresh in
        rw restored (refl, same_place, other.0 ∙ sym tracks, other.1)
