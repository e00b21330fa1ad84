-- ===== src/MediaPlayer/Stuck.antt =====
-- What the media player (src/backend/src/media_player.rs) does not come back from.
use carnine.Prelude.{
  ℕ, ◌+◌, ◌-◌, ◌≡◌, sym, subst, ◌∙◌, none, some, arith, true, false, List, [], ◌∷◌, ◌⊎◌, inl, inr,
  get_elem?,
}
use carnine.MediaPlayer.Engine.{Engine}
use carnine.MediaPlayer.Queue.{Shuffler, Queue, forward, resolve_next_index}
use carnine.MediaPlayer.Player.{
  Player, Announcement, Priority, info, maneuver, playing, position, publish, publish_audio,
  saturate, start_engine, drop_playback, report_output_availability,
}
use carnine.MediaPlayer.Transport.{
  play_loaded, resumed_with, handle_track_finished, is_active_track_finished, start_at_index,
  started_at_index, or_publish,
}
use carnine.MediaPlayer.Seek.{handle_output_lost}
use carnine.MediaPlayer.Announce.{
  fails, play_announcement, end_announcement, started_announcement, follow_announcement,
}
use carnine.MediaPlayer.Commands.{watch}
use carnine.MediaPlayer.Advance.{drop_playback-Dropped, handle_track_finished_next}

module _ (E : Engine) (R : Shuffler) where
  -- A resume of a track that plays already forgets how long it has played since it was started: the
  -- clock goes on from the position that was stored then.
  pub play_loaded-playing :
      (p : Player E R) (h : E.Playback) (now later : ℕ)
      → p.state ≡ playing
      → p.playback ≡ some h
      → (E.resume h p.engine).1 ≡ true
      → position E R (play_loaded E R now p).0 later ≡ saturate (p.position_ms + (later - now))
  unfolding play_loaded resumed_with publish publish_audio position
  play_loaded-playing p h now later s at resumes = ground (arith, at, resumes)

  -- A track that plays, with its clock held and no announcement that holds it.
  abbrev IsFrozen : E.Playback → ℕ → ℕ → Player E R → Type 0
  IsFrozen m held position_ms p =
      (p.state ≡ playing)
      × (p.playback ≡ some m)
      × (p.announcement ≡ none)
      × (p.music_held ≡ some held)
      × (p.started_at ≡ none)
      × (p.position_ms ≡ position_ms)

  play_announcement_fails :
      (p : Player E R) (path : List ℕ) (a : Announcement E R) (priority : Priority) (m : E.Playback)
      (held now : ℕ)
      → p.state ≡ playing
      → p.playback ≡ some m
      → p.announcement ≡ some a
      → p.music_held ≡ some held
      → p.started_at ≡ none
      → (a.priority ≡ info) ⊎ (priority ≡ maneuver)
      → (E.start path (E.stop a.playback p.engine).0).1 ≡ none
      → let (q, reply) = play_announcement E R path priority now p in
        (reply ≡ fails) × IsFrozen m held p.position_ms q
  unfolding play_announcement end_announcement started_announcement
  play_announcement_fails p path a priority m held now s at there h idle (inl low) broken =
      ground (arith, s, at, there, h, idle, low, broken)
  play_announcement_fails p path a priority m held now s at there h idle (inr high) broken =
      ground (arith, s, at, there, h, idle, high, broken)

  -- The parts of a turn of the watcher that come before the end of a track.
  follow_announcement-IsFrozen :
      (m : E.Playback) (held n now : ℕ) (p : Player E R)
      → E.output_available p.engine ≡ true
      → IsFrozen m held n p
      → IsFrozen m held n (
          follow_announcement E R now
            (report_output_availability E R (handle_output_lost E R now p)))
  unfolding handle_output_lost report_output_availability publish_audio follow_announcement
  follow_announcement-IsFrozen m held n now p there f = ground (arith, there, f)

  not_finished :
      (m : E.Playback) (held n : ℕ) (r : Player E R)
      → IsFrozen m held n r
      → E.is_finished m r.engine ≡ false
      → is_active_track_finished E R r ≡ false
  unfolding is_active_track_finished
  not_finished m held n r f e = ground (arith, f, e)

  watch-IsFrozen :
      (m : E.Playback) (held n now : ℕ) (p : Player E R)
      → E.output_available p.engine ≡ true
      → ((t : E.State) → E.is_finished m t ≡ false)
      → IsFrozen m held n p
      → IsFrozen m held n (watch E R now p)
  unfolding watch
  watch-IsFrozen m held n now p there goes_on f =
      let r =
        follow_announcement E R now
          (report_output_availability E R (handle_output_lost E R now p)) in
      let f' = follow_announcement-IsFrozen m held n now p there f in
      rw (not_finished m held n r f' (goes_on r.engine)) f'

  -- A row of turns of the watcher.
  abbrev pub watch_all : List ℕ → Player E R → Player E R
  watch_all [] p = p
  watch_all (now ∷ turns) p = watch_all turns (watch E R now p)

  watch_all-IsFrozen :
      (turns : List ℕ) (m : E.Playback) (held n : ℕ) (p : Player E R)
      → ((t : E.State) → E.output_available t ≡ true)
      → ((t : E.State) → E.is_finished m t ≡ false)
      → IsFrozen m held n p
      → IsFrozen m held n (watch_all turns p)
  watch_all-IsFrozen [] m held n p there goes_on f = f
  watch_all-IsFrozen (now ∷ turns) m held n p there goes_on f =
      watch_all-IsFrozen turns m held n (watch E R now p) there goes_on
        (watch-IsFrozen m held n now p (there p.engine) goes_on f)

  frozen_position :
      (m : E.Playback) (held n later : ℕ) (p : Player E R)
      → IsFrozen m held n p
      → position E R p later ≡ saturate n
  unfolding position
  frozen_position m held n later p f = ground (arith, f)

  idle_position :
      (p : Player E R) (now : ℕ) → p.started_at ≡ none → position E R p now ≡ saturate p.position_ms
  unfolding position
  idle_position p now idle = ground (arith, idle)

  -- A track plays with its clock held under an announcement. A new one that is not less important,
  -- and that the engine cannot start, ends the old one and fails. From then on, while the output is
  -- there and the track does not end, the watcher never releases the clock, however many turns it
  -- takes: the track plays, and its position stands still.
  pub play_announcement_lost :
      (p : Player E R) (path : List ℕ) (a : Announcement E R) (priority : Priority) (m : E.Playback)
      (held now later : ℕ) (turns : List ℕ)
      → p.state ≡ playing
      → p.playback ≡ some m
      → p.announcement ≡ some a
      → p.music_held ≡ some held
      → p.started_at ≡ none
      → (a.priority ≡ info) ⊎ (priority ≡ maneuver)
      → (E.start path (E.stop a.playback p.engine).0).1 ≡ none
      → ((t : E.State) → E.output_available t ≡ true)
      → ((t : E.State) → E.is_finished m t ≡ false)
      → let (q, reply) = play_announcement E R path priority now p in
        let r = watch_all turns q in
        (reply ≡ fails)
        × (r.announcement ≡ none)
        × (r.state ≡ playing)
        × (r.playback ≡ some m)
        × (r.music_held ≡ some held)
        × (position E R r later ≡ position E R p now)
  play_announcement_lost p path a priority m held now later turns s at there h idle rank broken
        output goes_on =
      let q = (play_announcement E R path priority now p).0 in
      let begun =
        play_announcement_fails p path a priority m held now s at there h idle rank broken in
      let f = watch_all-IsFrozen turns m held p.position_ms q output goes_on begun.1 in
      (
        begun.0,
        f.2,
        f.0,
        f.1,
        f.3,
        frozen_position m held p.position_ms later (watch_all turns q) f
            ∙ sym (idle_position p now idle),
      )

  -- Playing without a playback and without an announcement.
  abbrev pub IsSilent : Player E R → Type 0
  IsSilent p = (p.state ≡ playing) × (p.playback ≡ none) × (p.announcement ≡ none)

  start_at_index_broken :
      (p : Player E R) (i now : ℕ) (path : List ℕ)
      → get_elem? p.queue.tracks i ≡ some path
      → ((s : E.State) → (E.start path s).1 ≡ none)
      → IsSilent p
      → IsSilent (or_publish E R now (start_at_index E R i now p))
  unfolding start_at_index started_at_index start_engine report_output_availability publish_audio
      publish
  start_at_index_broken p i now path at broken h = ground (arith, at, broken p.engine, h)

  watch-IsSilent :
      (p : Player E R) (later : ℕ)
      → IsSilent p
      → E.output_available p.engine ≡ true
      → IsSilent (watch E R later p)
  unfolding watch handle_output_lost report_output_availability publish_audio follow_announcement
      is_active_track_finished
  watch-IsSilent p later h there = ground (arith, h, there)

  -- A track that has ended, and a next one whose file the engine cannot start: the state stays
  -- `playing` without a playback, and while the output is there a later turn of the watcher neither
  -- changes that nor goes on to another track.
  pub handle_track_finished-IsSilent :
      (p x : Player E R) (q : Queue R) (now later i : ℕ) (path : List ℕ)
      → p.state ≡ playing
      → p.announcement ≡ none
      → drop_playback E R p ≡ (x, none)
      → resolve_next_index R p.queue forward ≡ (q, some i)
      → get_elem? q.tracks i ≡ some path
      → ((s : E.State) → (E.start path s).1 ≡ none)
      → E.output_available (handle_track_finished E R now p).engine ≡ true
      → IsSilent (handle_track_finished E R now p)
        × IsSilent (watch E R later (handle_track_finished E R now p))
  handle_track_finished-IsSilent p x q now later i path s a stops next at broken there =
      let gone = drop_playback-Dropped E R p x stops in
      let q' = record x { queue = q } in
      let silent : IsSilent (handle_track_finished E R now p) =
        subst IsSilent (sym (handle_track_finished_next E R p x q now i stops next))
          (start_at_index_broken q' i now path at broken (gone.1 ∙ s, gone.0, gone.2 ∙ a)) in
      (silent, watch-IsSilent (handle_track_finished E R now p) later silent there)
