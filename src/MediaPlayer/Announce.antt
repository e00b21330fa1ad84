-- ===== src/MediaPlayer/Announce.antt =====
-- Spoken announcements over the music, of `MediaPlayer` (src/backend/src/media_player.rs).
use carnine.Prelude.{
  ℕ, Bool, true, false, ◌||◌, ◌&&◌, not, Option, none, some, ◌==◌, List, if◌then◌else◌,
}
use carnine.MediaPlayer.Engine.{Engine}
use carnine.MediaPlayer.Queue.{Shuffler}
use carnine.MediaPlayer.Player.{Player, Priority, outranks, is_playing, position}

abbrev pub is_some {ℓ} : {A : Type ℓ} → Option A → Bool
is_some none = false
is_some (some a) = true

-- What `play_announcement` says: it plays, it is dropped for a more important one, or it fails.
pub data Reply : Type 0 where
  plays dropped fails : Reply

module _ (E : Engine) (R : Shuffler) where
  open E use {Playback, Gain, full_gain, no_gain, is_silent, start, stop, is_finished, set_levels}

  unfoldable pub hold_music : ℕ → Player E R → Player E R
  hold_music now p = if is_some p.music_held || not (is_playing p.state) then p else record p {
    position_ms = position E R p now;
    started_at = none;
    music_held = some p.playback_starts;
  }

  -- `get_or_insert_with(Instant::now)`
  abbrev running_from : ℕ → Option ℕ → Option ℕ
  running_from now none = some now
  running_from now (some started) = some started

  unfoldable pub release_music : ℕ → Player E R → Player E R
  release_music now p = elim p.music_held [
    | none ↦ p
    | some held ↦ record p {
      music_held = none;
      started_at =
          if is_playing p.state && held == p.playback_starts
          then running_from now p.started_at
          else p.started_at;
    }
  ]

  -- A failure is only logged.
  unfoldable pub set_music_gain : Gain → Player E R → Player E R
  set_music_gain gain p =
      if is_playing p.state
      then elim p.playback [
        | none ↦ p
        | some h ↦ record p { engine = (set_levels h gain full_gain p.engine).0 }
      ]
      else p

  -- Whether the announcement that plays wins over a new one.
  abbrev pub keeps_playing : Player E R → Priority → Bool
  keeps_playing p priority = elim p.announcement [
    | none ↦ false
    | some a ↦ not (is_finished a.playback p.engine) && outranks a.priority priority
  ]

  -- Ends the announcement that is there; a failure is left out of account.
  unfoldable pub end_announcement : Player E R → Player E R
  end_announcement p = elim p.announcement [
    | none ↦ p
    | some a ↦ record p { announcement = none; engine = (stop a.playback p.engine).0 }
  ]

  unfoldable pub lower_music : ℕ → Player E R → Player E R
  unfolding set_music_gain hold_music
  lower_music now p =
      let under = p.announcement_levels.music_under in
      let q = set_music_gain under p in
      if is_silent under && not (E.has_rear_speakers q.engine) then hold_music now q else q

  unfoldable pub announced :
      ℕ → Player E R → Playback → Priority → E.State × Bool → Player E R × Reply
  unfolding lower_music
  announced now p h priority (s, false) = (record p { engine = s }, fails)
  announced now p h priority (s, true) = (
    lower_music now (record p {
      engine = s;
      announcement = some (record { playback = h; priority = priority });
    }),
    plays,
  )

  unfoldable pub started_announcement :
      ℕ → Player E R → Priority → E.State × Option Playback → Player E R × Reply
  unfolding announced
  started_announcement now p priority (s, none) = (record p { engine = s }, fails)
  started_announcement now p priority (s, some h) =
      announced now p h priority (set_levels h p.announcement_levels.volume no_gain s)

  unfoldable pub play_announcement : List ℕ → Priority → ℕ → Player E R → Player E R × Reply
  unfolding end_announcement started_announcement
  play_announcement path priority now p =
      if keeps_playing p priority
      then (p, dropped)
      else (let q = end_announcement p in started_announcement now q priority (start path q.engine))

  unfoldable pub follow_announcement : ℕ → Player E R → Player E R
  unfolding end_announcement release_music set_music_gain
  follow_announcement now p = elim p.announcement [
    | none ↦ p
    | some a ↦
        if is_finished a.playback p.engine || not (E.output_available p.engine)
        then set_music_gain full_gain (release_music now (end_announcement p))
        else set_music_gain p.announcement_levels.music_under p
  ]
