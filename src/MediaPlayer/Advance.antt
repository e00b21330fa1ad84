-- ===== src/MediaPlayer/Advance.antt =====
-- How the media player (src/backend/src/media_player.rs) goes on from track to track by itself.
use carnine.Prelude.{
  ℕ, ◌≡◌, ◌≢◌, ◌⊎◌, refl, sym, subst, none, some, arith, true, List, get_elem?, Option-cases, inl,
  inr,
}
use carnine.MediaPlayer.Engine.{Engine}
use carnine.MediaPlayer.Queue.{Shuffler, Queue, forward, resolve_next_index}
use carnine.MediaPlayer.Player.{
  Player, playing, stopped, publish, publish_audio, start_engine, drop_playback,
  report_output_availability,
}
use carnine.MediaPlayer.Transport.{
  handle_track_finished, start_at_index, started_at_index, or_publish,
}

module _ (E : Engine) (R : Shuffler) where
  pub drop_playback-Dropped :
      (p x : Player E R)
      → drop_playback E R p ≡ (x, none)
      → (x.playback ≡ none)
        × (x.state ≡ p.state)
        × (x.announcement ≡ p.announcement)
        × (x.queue ≡ p.queue)
  unfolding drop_playback
  drop_playback-Dropped p x h = ground (arith, h)

  pub handle_track_finished_next :
      (p x : Player E R) (q : Queue R) (now i : ℕ)
      → drop_playback E R p ≡ (x, none)
      → resolve_next_index R p.queue forward ≡ (q, some i)
      → handle_track_finished E R now p
        ≡ or_publish E R now (start_at_index E R i now (record x { queue = q }))
  unfolding handle_track_finished
  handle_track_finished_next p x q now i stops next =
      rw (stops) (rw ((drop_playback-Dropped p x stops).3, next) refl)

  handle_track_finished_end :
      (p x : Player E R) (q : Queue R) (now : ℕ)
      → drop_playback E R p ≡ (x, none)
      → resolve_next_index R p.queue forward ≡ (q, none)
      → let r = handle_track_finished E R now p in (r.state ≡ stopped) × (r.playback ≡ none)
  unfolding handle_track_finished publish
  handle_track_finished_end p x q now stops next =
      let gone = drop_playback-Dropped p x stops in rw (stops) (rw (gone.3, next) (refl, gone.0))

  -- The playback is one that the engine started for the path, from its beginning or further on.
  abbrev pub IsStartOf : List ℕ → E.Playback → Type 0
  IsStartOf path h =
      ((s : E.State) × ((E.start path s).1 ≡ some h))
      ⊎ ((s : E.State) × (position_ms : ℕ) × ((E.start_at path position_ms s).1 ≡ some h))

  -- The track at `i` plays: the player has the engine's playback of it.
  abbrev pub IsHeard : List (List ℕ) → ℕ → Player E R → Type 0
  IsHeard tracks i p =
      (path : List ℕ) × (h : E.Playback) × (get_elem? tracks i ≡ some path)
      × (p.state ≡ playing)
      × (p.media_path ≡ some path)
      × (p.playback ≡ some h)
      × IsStartOf path h

  -- The engine starts every file and stops every playback.
  pub record Works : Type 0 where
    pub starts : (path : List ℕ) (s : E.State) → (E.start path s).1 ≢ none
    pub stops : (h : E.Playback) (s : E.State) → (E.stop h s).1 ≡ true

  module _ (works : Works) where
    drops : (p : Player E R) → (x : Player E R) × (drop_playback E R p ≡ (x, none))
    unfolding drop_playback
    drops p = elim (Option-cases p.playback) [
      | inl e ↦ (p, rw e refl)
      | inr (h, e) ↦ (
        record p { playback = none; engine = (E.stop h p.engine).0 },
        rw (e, works.stops h p.engine) refl,
      )
    ]

    -- The player after a track, at the one that follows.
    abbrev pub At : Queue R → ℕ → Player E R → Type 0
    At q i r = (r.queue ≡ record q { index = some i }) × IsHeard q.tracks i r

    started-At :
        (x : Player E R) (now i : ℕ) (path : List ℕ) (h : E.Playback)
        → get_elem? x.queue.tracks i ≡ some path
        → (E.start path x.engine).1 ≡ some h
        → let r = or_publish E R now (start_at_index E R i now x) in
          (r.queue ≡ record (x.queue) { index = some i })
          × (r.state ≡ playing)
          × (r.media_path ≡ some path)
          × (r.playback ≡ some h)
    unfolding start_at_index started_at_index start_engine report_output_availability publish_audio
        publish
    started-At x now i path h at starts = ground (arith, at, starts)

    start_at_index-At :
        (x : Player E R) (now i : ℕ) (path : List ℕ)
        → get_elem? x.queue.tracks i ≡ some path
        → At x.queue i (or_publish E R now (start_at_index E R i now x))
    start_at_index-At x now i path at = elim (Option-cases (E.start path x.engine).1) [
      | inl e ↦ absurd (works.starts path x.engine e)
      | inr (h, e) ↦
          let r = started-At x now i path h at e in
          (r.0, (path, h, at, r.1, r.2, r.3, inl (x.engine, e)))
    ]

    pub goes_on :
        (p : Player E R) (q : Queue R) (now i : ℕ) (path : List ℕ)
        → resolve_next_index R p.queue forward ≡ (q, some i)
        → get_elem? q.tracks i ≡ some path
        → At q i (handle_track_finished E R now p)
    goes_on p q now i path next at =
        let (x, e) = drops p in
        subst (At q i) (sym (handle_track_finished_next p x q now i e next))
          (start_at_index-At (record x { queue = q }) now i path at)

    pub ends :
        (p : Player E R) (q : Queue R) (now : ℕ)
        → resolve_next_index R p.queue forward ≡ (q, none)
        → let r = handle_track_finished E R now p in (r.state ≡ stopped) × (r.playback ≡ none)
    ends p q now next = let (x, e) = drops p in handle_track_finished_end p x q now e next
