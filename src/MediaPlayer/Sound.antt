-- ===== src/MediaPlayer/Sound.antt =====
-- What holds of the queue of the media player (src/backend/src/media_player.rs) once a track is started
-- or switched to.
pub mod Playlists
pub mod Removals
pub mod Actions
use carnine.Prelude.{
  ℕ, zero, suc, ◌+◌, ◌-◌, ◌<◌, ◌≤◌, ◌≡◌, ◌≢◌, ◌⊎◌, inl, inr, refl, sym, ap, subst, ◌∙◌, Bool, true,
  false, not, ◌&&◌, Option, none, some, List, [], ◌∷◌, arith, length, get_elem?, ltb, leb, ◌==◌,
  if◌then◌else◌, map, Option-cases, Bool-cases,
}
use carnine.Prelude.Bytes.{is_empty, trim, to_lower}
use carnine.Prelude.Int.{ℤ}
use carnine.MediaPlayer.Engine.{Engine}
use carnine.MediaPlayer.Queue.{
  Shuffler, Queue, Direction, RepeatMode, forward, backward, restart, find_from, remove_at,
  resolve_next_index, take_out, following, loose, drop_from_shuffle_order, current_queue_path,
  is_repeat_queue,
}
use carnine.MediaPlayer.Queue.Order.{Fair, IsOrder}
use carnine.MediaPlayer.Queue.Slots.{if_then_else_lem, find_from-lt, length-remove_at}
use carnine.MediaPlayer.Queue.Sound.{
  IsSound, IsFitting, is_within, set_shuffle_mode-IsSound, reshuffle_if_enabled-IsSound,
  resolve_next_index-IsSound, IsNext, following-IsNext, take_out-IsSound, take_out-IsSound_here,
  reorder-IsSound,
}
use carnine.MediaPlayer.Player.{
  Player, Priority, PlayerEventType, AnnouncementLevels, Outcome, PlayerError, and_then, is_playing,
  publish, drop_playback, stop_active_playback, start_engine, report_output_availability,
  new_player, event_of,
}
use carnine.MediaPlayer.Transport.{
  to_target, go_on, after_track, start_at_index, started_at_index, switch_to_index, switch_track,
  handle_track_finished, play, play_path, play_loose, play_loaded, pause_playback, or_publish,
  start_path_at, is_active_track_finished,
}
use carnine.MediaPlayer.Playlist.{
  Entry, start_if, load, restore, ids_of, paths_of, selected, is_id, ResumeMode, is_auto_play,
  play_playlist, loaded, restore_path, restored, forget_playlist, alone, remove_playlist_entry,
  after_removal, go_on_after_removed, go_to_following, mode_of,
}
use carnine.MediaPlayer.Commands.{
  parse_i64, parse_usize, to_play, to_pause, to_stop, to_next, to_previous, to_restart, to_seek,
  to_queue_entry, unknown, seek_by, play_entry, with_error, Command, execute, run_command,
  command_of, set_repeat, set_shuffle, watch, set_announcement_levels, shutdown, shutdown_output,
}
use carnine.MediaPlayer.Untouched.{
  publish-queue, report_output_availability-queue, drop_playback-queue, stop_active_playback-queue,
  start_engine-queue, start_path_at-queue, start_current_path-queue, play_loaded-queue,
  pause_playback-queue, seek-queue, stop_playback-queue, handle_output_lost-queue,
  play_announcement-queue, follow_announcement-queue, shutdown_output-queue,
}
use carnine.MediaPlayer.Seek.{handle_output_lost}
use carnine.MediaPlayer.Announce.{follow_announcement}
use carnine.MediaPlayer.Calls.{
  Action, act, act_all, executes, loads, restores, forgets, removes, repeats, shuffles, announces,
  sets_levels, looks, watches, shuts_down, reports, shuts_output,
}

module _ (E : Engine) (R : Shuffler) where
  abbrev pub IsGood : Player E R → Type 0
  IsGood p = IsSound R p.queue

  -- A call that leaves the queue alone.
  pub kept : {q q' : Queue R} → q ≡ q' → IsSound R q' → IsSound R q
  kept e g = subst (IsSound R) (sym e) g

  -- What holds after the first part, and what the second part makes of it.
  pub and_then_lem :
      (P : Player E R → Type 0) (o : Outcome E R) (next : Player E R → Outcome E R)
      → P o.0
      → ((p : Player E R) → P p → IsGood p)
      → ((p : Player E R) → P p → IsGood (next p).0)
      → IsGood (and_then E R o next).0
  and_then_lem P (p, none) next g fails h = h p g
  and_then_lem P (p, some e) next g fails h = fails p g

  pub and_then-IsGood :
      (o : Outcome E R) (next : Player E R → Outcome E R)
      → IsGood o.0
      → ((p : Player E R) → IsGood p → IsGood (next p).0)
      → IsGood (and_then E R o next).0
  and_then-IsGood o next g h = and_then_lem IsGood o next g (λ p x. x) h

  pub get_elem?-within :
      {A : Type 0} (l : List A) (i : ℕ) (a : A) → get_elem? l i ≡ some a → leb i (length l) ≡ true
  get_elem?-within [] i a h = absurd (ground (arith, h))
  get_elem?-within (x ∷ l) zero a h = ground arith
  get_elem?-within (x ∷ l) (suc i) a h = ground (arith, get_elem?-within l i a h)

  pub started_at_index-IsGood :
      (now i : ℕ) (path : List ℕ) (o : Player E R × Option E.Playback)
      → IsGood o.0
      → leb i (length o.0.queue.tracks) ≡ true
      → IsGood (started_at_index E R now i path o).0
  unfolding started_at_index publish
  started_at_index-IsGood now i path (p, none) g low = g
  started_at_index-IsGood now i path (p, some h) g low = ((g.0.0, low), g.1)

  pub start_at_index-IsGood :
      (i now : ℕ) (p : Player E R) → IsGood p → IsGood (start_at_index E R i now p).0
  unfolding start_at_index
  start_at_index-IsGood i now p g = elim (Option-cases (get_elem? p.queue.tracks i)) [
    | inl e ↦ rw (start_at_index, e) g
    | inr (path, e) ↦
        let same = start_engine-queue E R p path none in
        rw (start_at_index, e)
          (started_at_index-IsGood now i path (start_engine E R p path none) (kept same g)
            (rw same (get_elem?-within p.queue.tracks i path e)))
  ]

  pub switch_to_index-IsGood :
      (i now : ℕ) (p : Player E R) → IsGood p → IsGood (switch_to_index E R i now p).0
  unfolding switch_to_index
  switch_to_index-IsGood i now p g =
      if_then_else_lem (λ (o : Outcome E R). IsGood o.0) (leb (length p.queue.tracks) i) (λ _. g)
        λ _.
          and_then-IsGood (drop_playback E R p) (start_at_index E R i now)
            (kept (drop_playback-queue E R p) g) (start_at_index-IsGood i now)

  pub or_publish-IsGood : (now : ℕ) (o : Outcome E R) → IsGood o.0 → IsGood (or_publish E R now o)
  unfolding publish
  or_publish-IsGood now (p, none) g = g
  or_publish-IsGood now (p, some e) g = g

  module _ (fair : Fair R) where
    pub to_target-IsGood :
        (target : Option ℕ) (now : ℕ) (p : Player E R)
        → IsGood p
        → IsGood (to_target E R target now p).0
    to_target-IsGood none now p g = g
    to_target-IsGood (some i) now p g = switch_to_index-IsGood i now p g

    pub switch_track-IsGood :
        (d : Direction) (now : ℕ) (p : Player E R) → IsGood p → IsGood (switch_track E R d now p).0
    unfolding switch_track
    switch_track-IsGood d now p g =
        let (q, target) = resolve_next_index R p.queue d in
        to_target-IsGood target now (record p { queue = q })
          (resolve_next_index-IsSound R fair p.queue d g)

    pub go_on-IsGood :
        (next : Option ℕ) (now : ℕ) (p : Player E R) → IsGood p → IsGood (go_on E R next now p)
    unfolding publish
    go_on-IsGood none now p g = g
    go_on-IsGood (some i) now p g =
        or_publish-IsGood now (start_at_index E R i now p) (start_at_index-IsGood i now p g)

    pub after_track-IsGood :
        (now : ℕ) (o : Outcome E R) → IsGood o.0 → IsGood (after_track E R now o)
    unfolding publish
    after_track-IsGood now (p, some e) g = g
    after_track-IsGood now (p, none) g =
        let (q, next) = resolve_next_index R p.queue forward in
        go_on-IsGood next now (record p { queue = q })
          (resolve_next_index-IsSound R fair p.queue forward g)

    pub handle_track_finished-IsGood :
        (now : ℕ) (p : Player E R) → IsGood p → IsGood (handle_track_finished E R now p)
    unfolding handle_track_finished
    handle_track_finished-IsGood now p g =
        after_track-IsGood now (drop_playback E R p) (kept (drop_playback-queue E R p) g)

    pub loose-IsSound : (q : Queue R) (path : List ℕ) → IsSound R (loose R q path)
    loose-IsSound q path =
        reshuffle_if_enabled-IsSound R fair
          (record q { tracks = path ∷ []; entry_ids = []; index = some 0 }) (inl refl, ground arith)

    pub play_loose-IsGood :
        (path : List ℕ) (now : ℕ) (p : Player E R) → IsGood (play_loose E R path now p).0
    unfolding play_loose
    play_loose-IsGood path now p =
        let q : Player E R = record p {
          queue = loose R p.queue path;
          playlist_id = none;
          position_ms = 0;
        } in
        kept (start_path_at-queue E R q path 0 now) (loose-IsSound p.queue path)

    pub play-IsGood :
        (path : List ℕ) (now : ℕ) (p : Player E R) → IsGood p → IsGood (play E R path now p).0
    unfolding play play_path
    play-IsGood path now p g =
        let P = λ (o : Outcome E R). IsGood o.0 in
        if_then_else_lem P (is_empty path) (λ _. kept (play_loaded-queue E R p now) g)
          λ _.
            if_then_else_lem P (E.is_file path p.engine)
              (λ _.
                and_then-IsGood (stop_active_playback E R p) (play_loose E R path now)
                  (kept (stop_active_playback-queue E R p) g) (λ q _. play_loose-IsGood path now q))
              (λ _. g)

    -- `start_current_path`, if that is asked for.
    pub start_if-IsGood :
        (auto : Bool) (now : ℕ) (p : Player E R) → IsGood p → IsGood (start_if E R auto now p).0
    start_if-IsGood false now p g = g
    start_if-IsGood true now p g = kept (start_current_path-queue E R p now) g
