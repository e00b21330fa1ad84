-- ===== src/MediaPlayer/Tests.antt =====
-- The media player on a queue of three tracks (src/backend/src/media_player.rs).
use carnine.Prelude.{
  ℕ, ◌≢◌, inl, inr, ◌≡◌, ◌⊎◌, ◌<◌, ◌+◌, ◌-◌, ◌^◌, min, refl, arith, true, none, some, [], ◌∷◌,
  get_elem?,
}
use carnine.Prelude.Bytes.{codes}
use carnine.Prelude.Int.{moved_by, pos}
use carnine.MediaPlayer.Queue.{
  take_out, drop_from_shuffle_order, following, reorder, shuffled_order, resolve_next_index,
  forward, current_queue_path,
}
use carnine.MediaPlayer.Queue.Order.{IsOrder}
use carnine.MediaPlayer.Player.{
  Announcement, Player, new_player, playing, paused, stopped, info, maneuver, position, duration_ms,
  drop_playback, stop_active_playback, start_engine, publish, report_output_availability,
  unknown_command, out_of_range, engine_failed,
}
use carnine.MediaPlayer.Transport.{
  switch_track, switch_to_index, start_at_index, started_at_index, pause_playback, play_loaded,
  handle_track_finished,
}
use carnine.MediaPlayer.Seek.{handle_output_lost, seek, target_of, seek_to, restarted, sought}
use carnine.MediaPlayer.Announce.{play_announcement, fails}
use carnine.MediaPlayer.Playlist.{
  after_removal, go_on_after_removed, go_to_following, play_playlist, mode_of, loaded,
  forget_playlist, alone, remove_playlist_entry, playlist_entry_id,
}
use carnine.MediaPlayer.Commands.{
  execute, run_command, command_of, parse_i64, parse_usize, watch, set_shuffle,
}
use carnine.MediaPlayer.Removal.{remove_playlist_entry_other}
use carnine.MediaPlayer.Clock.{pause_then_play, handle_output_lost-play_loaded, seek-target_of}
use carnine.MediaPlayer.Stuck.{
  watch_all, play_announcement_lost, handle_track_finished-IsSilent, IsSilent,
}
use carnine.MediaPlayer.Rounds.{finish_all, finish_all_in_order, finish_all_shuffled}
use carnine.MediaPlayer.Queue.Sound.{IsSound}
use carnine.MediaPlayer.Calls.{act_all, loads, shuffles, removes, watches}
use carnine.MediaPlayer.Sound.Actions.{act_all-IsSound}
use carnine.MediaPlayer.Advance.{IsHeard}
use carnine.MediaPlayer.Bench.{
  three, lost, player_lost, bench, broken, in_order, in_order-Fair, bench-Works, player,
  player_broken, queue_at,
}

-- The first of three entries is removed while the third plays.
abbrev third : Player bench in_order
third = record player { queue = queue_at 2; media_path = some (codes "three") }

remove_playlist_entry_other_example :
    let (q, failure) = remove_playlist_entry bench in_order 11 2000 third in
    (failure ≡ none)
    × (q.queue.tracks ≡ codes "two" ∷ codes "three" ∷ [])
    × (current_queue_path in_order q.queue ≡ some (codes "three"))
    × (playlist_entry_id bench in_order q ≡ playlist_entry_id bench in_order third)
    × (q.playback ≡ third.playback)
    × (q.media_path ≡ third.media_path)
    × (q.state ≡ playing)
    × (q.position_ms ≡ 5000)
    × (q.started_at ≡ some 1000)
remove_playlist_entry_other_example =
    remove_playlist_entry_other bench in_order third 11 2000 0 2 refl refl (λ e. ground (arith, e))

pause_then_play_example :
    let q = (pause_playback bench in_order 3000 player).0 in
    let r = (play_loaded bench in_order 90000 q).0 in
    (q.state ≡ paused)
    × (position bench in_order q 95000 ≡ position bench in_order player 3000)
    × (r.state ≡ playing)
    × (position bench in_order r 95000
        ≡ min (position bench in_order player 3000 + (95000 - 90000)) (2 ^ 63 - 1))
pause_then_play_example =
    pause_then_play bench in_order player (codes "one") 3000 90000 95000 1 2 refl refl refl

dropped : (drop_playback bench in_order player).1 ≡ none
unfolding drop_playback
dropped = refl

-- Far past the end.
seek-target_of_example :
    let (q, failure) = seek bench in_order (pos 600000) 2000 player in
    let started =
      (bench.start_at
        (codes "one")
        q.position_ms
        (drop_playback bench in_order player).0.engine).1 in
    let moved = min (moved_by (position bench in_order player 2000) (pos 600000)) (2 ^ 63 - 1) in
    (((duration_ms bench in_order player ≡ 0) × (q.position_ms ≡ moved))
      ⊎ ((duration_ms bench in_order player ≢ 0)
          × (q.position_ms ≡ min moved (duration_ms bench in_order player))))
    × (q.queue ≡ player.queue)
    × (q.media_path ≡ player.media_path)
    × (((player.state ≡ playing)
          × (failure ≡ none)
          × (q.state ≡ playing)
          × (q.playback ≡ started)
          × (started ≢ none)
          × (position bench in_order q 9000 ≡ min (q.position_ms + (9000 - 2000)) (2 ^ 63 - 1)))
        ⊎ ((player.state ≡ playing)
            × (failure ≡ some engine_failed)
            × (q.state ≡ paused)
            × (q.playback ≡ none)
            × (started ≡ none)
            × (position bench in_order q 9000 ≡ q.position_ms))
        ⊎ ((player.state ≡ paused)
            × (failure ≡ none)
            × (q.state ≡ paused)
            × (q.playback ≡ none)
            × (position bench in_order q 9000 ≡ q.position_ms)))
seek-target_of_example =
    seek-target_of bench in_order player (codes "one") (pos 600000) 2000 9000
      (λ e. ground (arith, e)) refl refl dropped

-- An announcement plays over held music, and a more important one cannot be started.
abbrev spoken : Announcement broken in_order
spoken = record { playback = codes "turn left"; priority = info }

abbrev spoken_over : Player broken in_order
spoken_over = record player_broken {
  announcement = some spoken;
  music_held = some 1;
  started_at = none;
}

play_announcement_lost_example :
    let (q, reply) = play_announcement broken in_order (codes "stop") maneuver 2000 spoken_over in
    let r = watch_all broken in_order (3000 ∷ 4000 ∷ []) q in
    (reply ≡ fails)
    × (r.announcement ≡ none)
    × (r.state ≡ playing)
    × (r.playback ≡ some (codes "one"))
    × (r.music_held ≡ some 1)
    × (position broken in_order r 9000 ≡ position broken in_order spoken_over 2000)
play_announcement_lost_example =
    play_announcement_lost broken in_order spoken_over (codes "stop") spoken maneuver (codes "one")
      1 2000 9000 (3000 ∷ 4000 ∷ []) refl refl refl refl refl (inr refl) refl (λ t. refl)
      (λ t. refl)

silent_drop :
    drop_playback broken in_order player_broken
    ≡ (record player_broken { playback = none; engine = 1 }, none)
unfolding drop_playback
silent_drop = refl

second_next : resolve_next_index in_order (queue_at 0) forward ≡ (queue_at 0, some 1)
unfolding resolve_next_index
second_next = refl

there :
    (broken.output_available (handle_track_finished broken in_order 2000 player_broken).engine)
    ≡ true
there = refl

handle_track_finished-IsSilent_example :
    let q = handle_track_finished broken in_order 2000 player_broken in
    IsSilent broken in_order q × IsSilent broken in_order (watch broken in_order 9000 q)
handle_track_finished-IsSilent_example =
    handle_track_finished-IsSilent broken in_order player_broken
      (record player_broken { playback = none; engine = 1 }) (queue_at 0) 2000 9000 1 (codes "two")
      refl refl silent_drop second_next refl (λ s. refl) there

finish_all_in_order_example :
    let q = finish_all bench in_order (2000 ∷ 3000 ∷ []) player in
    let r = handle_track_finished bench in_order 4000 q in
    (q.queue.index ≡ some 2)
    × IsHeard bench in_order three 2 q
    × ((3 < 3) ⊎ ((r.state ≡ stopped) × (r.playback ≡ none)))
finish_all_in_order_example =
    finish_all_in_order bench in_order bench-Works player 0 4000 (2000 ∷ 3000 ∷ []) refl refl refl
      (codes "one", codes "one", refl, refl, refl, refl, inl (0, refl)) (omega arith)

-- Shuffle is switched on while the second track plays.
abbrev second : Player bench in_order
second = record player {
  queue = queue_at 1;
  media_path = some (codes "two");
  playback = some (codes "two");
}

finish_all_shuffled_example :
    let s = set_shuffle bench in_order true second in
    let q = finish_all bench in_order (2000 ∷ 3000 ∷ []) s in
    IsOrder 3 s.queue.shuffle_order
    × (get_elem? s.queue.shuffle_order 0 ≡ some 1)
    × (j : ℕ) × (get_elem? s.queue.shuffle_order 2 ≡ some j)
    × (q.queue.index ≡ some j)
    × IsHeard bench in_order three j q
finish_all_shuffled_example =
    finish_all_shuffled bench in_order bench-Works in_order-Fair second 1 (2000 ∷ 3000 ∷ []) refl
      refl (codes "two", codes "two", refl, refl, refl, refl, inl (0, refl)) (omega arith)

next_done : (execute bench in_order (codes " Next ") [] 2000 player).0.queue.index ≡ some 1
unfolding execute command_of run_command switch_track resolve_next_index switch_to_index
    drop_playback start_at_index started_at_index start_engine publish
next_done = refl

sought_back :
    (execute bench in_order (codes "seek") (codes " -2000 ") 3000 player).0.position_ms ≡ 5000
unfolding execute command_of run_command parse_i64 seek target_of drop_playback duration_ms position
    seek_to restarted start_engine sought publish report_output_availability
sought_back = refl

no_command : (execute bench in_order (codes "dance") [] 2000 player).1 ≡ some unknown_command
unfolding execute command_of run_command
no_command = refl

entry_seven :
    (execute bench in_order (codes "queue-entry") (codes "+7") 2000 player).1 ≡ some out_of_range
unfolding execute command_of run_command parse_usize switch_to_index
entry_seven = refl

-- The entry that plays is removed, and the next one plays.
removed_current :
    (remove_playlist_entry bench in_order 11 2000 player).0.media_path ≡ some (codes "two")
unfolding remove_playlist_entry after_removal take_out drop_from_shuffle_order following
    go_on_after_removed stop_active_playback drop_playback go_to_following start_at_index
    started_at_index start_engine publish
removed_current = refl

restored_paused :
    (play_playlist bench in_order 4
      ((21, codes "a") ∷ (22, codes "b") ∷ [])
      (some 22)
      (pos 800)
      (codes "restore_paused")
      2000
      player).0.media_path
    ≡ some (codes "b")
unfolding play_playlist mode_of loaded stop_active_playback drop_playback
restored_paused = refl

forgotten : (forget_playlist bench in_order 1 2000 player).queue.tracks ≡ codes "one" ∷ []
unfolding forget_playlist publish alone reorder shuffled_order
forgotten = refl

-- A playlist is loaded, shuffled, its first entry removed, and a track ends.
act_all-IsSound_example :
    IsSound in_order
      (act_all bench in_order (new_player bench in_order 0 0) (
        loads 4 ((21, codes "a") ∷ (22, codes "b") ∷ []) none (pos 0) (codes "auto-play") 10
        ∷ shuffles true
        ∷ removes 21 20
        ∷ watches 30
        ∷ [])).queue
act_all-IsSound_example = act_all-IsSound bench in_order in_order-Fair 0 0 (
    loads 4 ((21, codes "a") ∷ (22, codes "b") ∷ []) none (pos 0) (codes "auto-play") 10
    ∷ shuffles true
    ∷ removes 21 20
    ∷ watches 30
    ∷ [])

handle_output_lost-play_loaded_example :
    let q = handle_output_lost lost in_order 3000 player_lost in
    let (r, failure) = play_loaded lost in_order 90000 q in
    let started =
      (lost.start_at
        (codes "one")
        (position lost in_order player_lost 3000)
        (lost.stop (codes "one") 1).0).1 in
    (q.state ≡ paused)
    × (position lost in_order q 95000 ≡ position lost in_order player_lost 3000)
    × (r.queue ≡ queue_at 0)
    × (r.media_path ≡ some (codes "one"))
    × (((failure ≡ none)
          × (r.state ≡ playing)
          × (r.playback ≡ started)
          × (started ≢ none)
          × (position lost in_order r 95000
              ≡ min (position lost in_order player_lost 3000 + (95000 - 90000)) (2 ^ 63 - 1)))
        ⊎ ((failure ≡ some engine_failed)
            × (r.state ≡ paused)
            × (r.playback ≡ none)
            × (started ≡ none)
            × (position lost in_order r 95000 ≡ position lost in_order player_lost 3000)))
handle_output_lost-play_loaded_example =
    handle_output_lost-play_loaded lost in_order player_lost (codes "one") (codes "one") 3000 90000
      95000 1 refl refl refl refl refl
