-- ===== src/MediaPlayer/Sound/Actions.antt =====
-- The queue of the media player (src/backend/src/media_player.rs) over every row of calls.
use carnine.Prelude.{ℕ, inl, refl, Option, none, some, List, [], ◌∷◌, map}
use carnine.Prelude.Bytes.{trim, to_lower}
use carnine.Prelude.Int.{ℤ}
use carnine.MediaPlayer.Engine.{Engine}
use carnine.MediaPlayer.Queue.{Shuffler, forward, backward, restart}
use carnine.MediaPlayer.Queue.Order.{Fair}
use carnine.MediaPlayer.Queue.Slots.{if_then_else_lem}
use carnine.MediaPlayer.Queue.Sound.{IsSound, set_shuffle_mode-IsSound}
use carnine.MediaPlayer.Player.{
  Player, Outcome, publish, report_output_availability, new_player, event_of,
}
use carnine.MediaPlayer.Transport.{is_active_track_finished}
use carnine.MediaPlayer.Commands.{
  parse_i64, parse_usize, to_play, to_pause, to_stop, to_next, to_previous, to_restart, to_seek,
  to_queue_entry, unknown, seek_by, play_entry, with_error, Command, execute, run_command,
  command_of, set_repeat, set_shuffle, watch, set_announcement_levels, shutdown,
}
use carnine.MediaPlayer.Untouched.{
  report_output_availability-queue, pause_playback-queue, seek-queue, stop_playback-queue,
  handle_output_lost-queue, play_announcement-queue, follow_announcement-queue,
  shutdown_output-queue,
}
use carnine.MediaPlayer.Seek.{handle_output_lost}
use carnine.MediaPlayer.Announce.{follow_announcement}
use carnine.MediaPlayer.Calls.{
  Action, act, act_all, executes, loads, restores, forgets, removes, repeats, shuffles, announces,
  sets_levels, looks, watches, shuts_down, reports, shuts_output,
}
use carnine.MediaPlayer.Sound.{
  IsGood, kept, switch_to_index-IsGood, switch_track-IsGood, handle_track_finished-IsGood,
  play-IsGood,
}
use carnine.MediaPlayer.Sound.Playlists.{
  play_playlist-IsGood, restore_path-IsGood, forget_playlist-IsGood,
}
use carnine.MediaPlayer.Sound.Removals.{remove_playlist_entry-IsGood}

module _ (E : Engine) (R : Shuffler) where
  module _ (fair : Fair R) where
    seek_by-IsGood :
        (delta : Option ℤ) (now : ℕ) (p : Player E R)
        → IsGood E R p
        → IsGood E R (seek_by E R delta now p).0
    seek_by-IsGood none now p g = g
    seek_by-IsGood (some d) now p g = kept E R (seek-queue E R p d now) g

    play_entry-IsGood :
        (i : Option ℕ) (now : ℕ) (p : Player E R)
        → IsGood E R p
        → IsGood E R (play_entry E R i now p).0
    play_entry-IsGood none now p g = g
    play_entry-IsGood (some i) now p g = switch_to_index-IsGood E R i now p g

    run_command-IsGood :
        (command : Command) (parameters : List ℕ) (now : ℕ) (p : Player E R)
        → IsGood E R p
        → IsGood E R (run_command E R command parameters now p).0
    unfolding run_command
    run_command-IsGood to_play parameters now p g = play-IsGood E R fair parameters now p g
    run_command-IsGood to_pause parameters now p g = kept E R (pause_playback-queue E R p now) g
    run_command-IsGood to_stop parameters now p g = kept E R (stop_playback-queue E R p now) g
    run_command-IsGood to_next parameters now p g = switch_track-IsGood E R fair forward now p g
    run_command-IsGood to_previous parameters now p g =
        switch_track-IsGood E R fair backward now p g
    run_command-IsGood to_restart parameters now p g = switch_track-IsGood E R fair restart now p g
    run_command-IsGood to_seek parameters now p g =
        seek_by-IsGood (parse_i64 (trim parameters)) now p g
    run_command-IsGood to_queue_entry parameters now p g =
        play_entry-IsGood (parse_usize parameters) now p g
    run_command-IsGood unknown parameters now p g = g

    with_error-IsGood :
        (now : ℕ) (o : Outcome E R) → IsGood E R o.0 → IsGood E R (with_error E R now o).0
    unfolding publish
    with_error-IsGood now (p, none) g = g
    with_error-IsGood now (p, some e) g = g

    execute-IsGood :
        (command parameters : List ℕ) (now : ℕ) (p : Player E R)
        → IsGood E R p
        → IsGood E R (execute E R command parameters now p).0
    unfolding execute
    execute-IsGood command parameters now p g =
        let c = command_of (map to_lower (trim command)) in
        with_error-IsGood now (run_command E R c parameters now p)
          (run_command-IsGood c parameters now p g)

    watch-IsGood : (now : ℕ) (p : Player E R) → IsGood E R p → IsGood E R (watch E R now p)
    unfolding watch
    watch-IsGood now p g =
        let p1 = handle_output_lost E R now p in
        let p2 = report_output_availability E R p1 in
        let p3 = follow_announcement E R now p2 in
        let g3 : IsGood E R p3 = kept E R (follow_announcement-queue E R p2 now) (
          kept E R (report_output_availability-queue E R p1)
            (kept E R (handle_output_lost-queue E R p now) g)) in
        if_then_else_lem (IsGood E R) (is_active_track_finished E R p3)
          (λ _. handle_track_finished-IsGood E R fair now p3 g3) (λ _. g3)

    act-IsGood : (a : Action E R) (p : Player E R) → IsGood E R p → IsGood E R (act E R p a)
    unfolding act set_repeat set_shuffle set_announcement_levels event_of shutdown
    act-IsGood (executes command parameters now) p g = execute-IsGood command parameters now p g
    act-IsGood (loads id entries entry position mode now) p g =
        play_playlist-IsGood E R fair id entries entry position mode now p g
    act-IsGood (restores path position mode now) p g =
        restore_path-IsGood E R fair path position mode now p g
    act-IsGood (forgets id now) p g = forget_playlist-IsGood E R fair id now p g
    act-IsGood (removes entry_id now) p g = remove_playlist_entry-IsGood E R fair entry_id now p g
    act-IsGood (repeats mode) p g = g
    act-IsGood (shuffles enabled) p g = set_shuffle_mode-IsSound R fair p.queue enabled g.0
    act-IsGood (announces path priority now) p g =
        kept E R (play_announcement-queue E R p path priority now) g
    act-IsGood (sets_levels levels) p g = g
    act-IsGood (looks event now) p g = g
    act-IsGood (watches now) p g = watch-IsGood now p g
    act-IsGood (shuts_down now) p g = kept E R (stop_playback-queue E R p now) g
    act-IsGood reports p g = kept E R (report_output_availability-queue E R p) g
    act-IsGood shuts_output p g = kept E R (shutdown_output-queue E R p) g

    act_all-IsGood :
        (actions : List (Action E R)) (p : Player E R)
        → IsGood E R p
        → IsGood E R (act_all E R p actions)
    unfolding act_all
    act_all-IsGood [] p g = g
    act_all-IsGood (a ∷ actions) p g = act_all-IsGood actions (act E R p a) (act-IsGood a p g)

    -- After any row of calls on a new player, however the engine answers: the entry ids are those of
    -- the tracks or there are none, the index is at most one past the end, and with shuffle the
    -- order has every track of the queue exactly once and the position in it is at most its length.
    pub act_all-IsSound :
        (engine : E.State) (rng : R.Rng) (actions : List (Action E R))
        → IsSound R (act_all E R (new_player E R engine rng) actions).queue
    unfolding new_player
    act_all-IsSound engine rng actions =
        act_all-IsGood actions (new_player E R engine rng) ((inl refl, refl), inl refl)
