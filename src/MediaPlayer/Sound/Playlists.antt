-- ===== src/MediaPlayer/Sound/Playlists.antt =====
-- The queue when a playlist is loaded or forgotten (src/backend/src/media_player.rs).
use carnine.Prelude.{
  ℕ, suc, ◌≡◌, inl, inr, refl, ap, subst, true, Option, none, some, List, [], ◌∷◌, arith, length,
  leb, Option-cases,
}
use carnine.Prelude.Int.{ℤ}
use carnine.MediaPlayer.Engine.{Engine}
use carnine.MediaPlayer.Queue.{Shuffler, Queue, find_from, current_queue_path}
use carnine.MediaPlayer.Queue.Order.{Fair}
use carnine.MediaPlayer.Queue.Slots.{if_then_else_lem, find_from-lt}
use carnine.MediaPlayer.Queue.Sound.{IsSound, reshuffle_if_enabled-IsSound, reorder-IsSound}
use carnine.MediaPlayer.Player.{Player, Outcome, publish, stop_active_playback}
use carnine.MediaPlayer.Playlist.{
  Entry, load, restore, ids_of, paths_of, selected, is_id, ResumeMode, is_auto_play, play_playlist,
  loaded, restore_path, restored, forget_playlist, alone, mode_of,
}
use carnine.MediaPlayer.Untouched.{stop_active_playback-queue}
use carnine.MediaPlayer.Sound.{IsGood, kept, and_then-IsGood, loose-IsSound, start_if-IsGood}

length-ids_of : (entries : List Entry) → length (ids_of entries) ≡ length (paths_of entries)
length-ids_of [] = refl
length-ids_of (e ∷ es) = ap suc (length-ids_of es)

selected-within :
    (entries : List Entry) (resume_entry_id : Option ℕ)
    → leb (selected entries resume_entry_id) (length (ids_of entries)) ≡ true
selected-within entries none = ground arith
selected-within entries (some id) = elim (Option-cases (find_from 0 id (ids_of entries))) [
  | inl e ↦ rw e (ground arith)
  | inr (i, e) ↦ rw e (ground (arith, find_from-lt 0 id (ids_of entries) i e))
]

module _ (E : Engine) (R : Shuffler) where
  module _ (fair : Fair R) where
    pub load-IsGood :
        (playlist_id : ℕ) (entries : List Entry) (resume_entry_id : Option ℕ) (position : ℤ)
        (mode : Option ResumeMode) (now : ℕ) (p : Player E R)
        → IsGood E R p
        → IsGood E R (load E R playlist_id entries resume_entry_id position mode now p).0
    unfolding loaded
    load-IsGood playlist_id entries resume_entry_id position none now p g = g
    load-IsGood playlist_id entries resume_entry_id position (some mode) now p g =
        let same = length-ids_of entries in
        start_if-IsGood E R fair (is_auto_play mode) now
          (loaded E R playlist_id entries resume_entry_id position mode p)
          (reshuffle_if_enabled-IsSound R fair
            (record (p.queue) {
              tracks = paths_of entries;
              entry_ids = ids_of entries;
              index = some (selected entries resume_entry_id);
            })
            (
              inr same,
              subst (λ n. leb (selected entries resume_entry_id) n ≡ true) same
                  (selected-within entries resume_entry_id),
            ))

    pub play_playlist-IsGood :
        (playlist_id : ℕ) (entries : List Entry) (resume_entry_id : Option ℕ) (position : ℤ)
        (mode : List ℕ) (now : ℕ) (p : Player E R)
        → IsGood E R p
        → IsGood E R (play_playlist E R playlist_id entries resume_entry_id position mode now p).0
    unfolding play_playlist
    play_playlist-IsGood playlist_id [] resume_entry_id position mode now p g = g
    play_playlist-IsGood playlist_id (e ∷ es) resume_entry_id position mode now p g =
        and_then-IsGood E R (stop_active_playback E R p)
          (load E R playlist_id (e ∷ es) resume_entry_id position (mode_of mode) now)
          (kept E R (stop_active_playback-queue E R p) g)
          (load-IsGood playlist_id (e ∷ es) resume_entry_id position (mode_of mode) now)

    pub restore-IsGood :
        (path : List ℕ) (position : ℤ) (mode : ResumeMode) (now : ℕ) (p : Player E R)
        → IsGood E R (restore E R path position mode now p).0
    unfolding restored
    restore-IsGood path position mode now p =
        start_if-IsGood E R fair (is_auto_play mode) now (restored E R path position mode p)
          (loose-IsSound E R fair p.queue path)

    pub restore_path-IsGood :
        (path : List ℕ) (position : ℤ) (mode : List ℕ) (now : ℕ) (p : Player E R)
        → IsGood E R p
        → IsGood E R (restore_path E R path position mode now p).0
    unfolding restore_path
    restore_path-IsGood path position mode now p g = elim (Option-cases (mode_of mode)) [
      | inl e ↦ rw (restore_path, e) g
      | inr (m, e) ↦
          rw (restore_path, e)
            (if_then_else_lem (λ (o : Outcome E R). IsGood E R o.0) (E.is_file path p.engine)
              (λ _.
                and_then-IsGood E R (stop_active_playback E R p) (restore E R path position m now)
                  (kept E R (stop_active_playback-queue E R p) g)
                  (λ q _. restore-IsGood path position m now q))
              (λ _. g))
    ]

    pub alone-IsSound : (q : Queue R) → IsSound R (alone E R q)
    unfolding alone
    alone-IsSound q = elim (Option-cases (current_queue_path R q)) [
      | inl e ↦
          rw (alone, e)
            (reorder-IsSound R fair (record q { tracks = []; entry_ids = []; index = none }) none
              (inl refl, refl))
      | inr (path, e) ↦
          rw (alone, e)
            (reorder-IsSound R fair
              (record q { tracks = path ∷ []; entry_ids = []; index = some 0 }) (some 0)
              (inl refl, ground arith))
    ]

    pub forget_playlist-IsGood :
        (id now : ℕ) (p : Player E R) → IsGood E R p → IsGood E R (forget_playlist E R id now p)
    unfolding forget_playlist publish
    forget_playlist-IsGood id now p g =
        if_then_else_lem (IsGood E R) (is_id p.playlist_id id) (λ _. alone-IsSound p.queue) (λ _. g)
