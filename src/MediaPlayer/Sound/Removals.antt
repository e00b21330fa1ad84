-- ===== src/MediaPlayer/Sound/Removals.antt =====
-- The queue when an entry is removed (src/backend/src/media_player.rs).
use carnine.Prelude.{
  ℕ, ◌-◌, ◌<◌, ◌≡◌, inl, inr, refl, subst, Bool, true, false, Option, none, some, arith, length,
  ltb, leb, ◌==◌, Option-cases,
}
use carnine.MediaPlayer.Engine.{Engine}
use carnine.MediaPlayer.Queue.{Shuffler, find_from, take_out, following}
use carnine.MediaPlayer.Queue.Order.{Fair}
use carnine.MediaPlayer.Queue.Slots.{if_then_else_lem, find_from-lt}
use carnine.MediaPlayer.Queue.Sound.{
  IsSound, is_within, following-IsNext, take_out-IsSound, take_out-IsSound_here,
}
use carnine.MediaPlayer.Player.{Player, Outcome, is_playing, publish, stop_active_playback}
use carnine.MediaPlayer.Playlist.{
  remove_playlist_entry, after_removal, go_on_after_removed, go_to_following,
}
use carnine.MediaPlayer.Untouched.{stop_active_playback-queue}
use carnine.MediaPlayer.Sound.{IsGood, kept, and_then_lem, start_at_index-IsGood}

module _ (E : Engine) (R : Shuffler) where
  module _ (fair : Fair R) where
    go_to_following-IsGood :
        (next : Option ℕ) (was_playing : Bool) (now : ℕ) (p : Player E R)
        → IsGood E R p
        → is_within (length p.queue.tracks) next ≡ true
        → IsGood E R (go_to_following E R next was_playing now p).0
    unfolding go_to_following publish
    go_to_following-IsGood none was_playing now p g w = ((g.0.0, refl), g.1)
    go_to_following-IsGood (some i) true now p g w = start_at_index-IsGood E R i now p g
    go_to_following-IsGood (some i) false now p g w = ((g.0.0, w), g.1)

    go_on_after_removed-IsGood :
        (next : Option ℕ) (now : ℕ) (p : Player E R)
        → IsGood E R p
        → is_within (length p.queue.tracks) next ≡ true
        → IsGood E R (go_on_after_removed E R next now p).0
    unfolding go_on_after_removed
    go_on_after_removed-IsGood next now p g w =
        let same = stop_active_playback-queue E R p in
        and_then_lem E R (λ q. IsGood E R q × (is_within (length q.queue.tracks) next ≡ true))
          (stop_active_playback E R p) (go_to_following E R next (is_playing p.state) now)
          (kept E R same g, rw same w) (λ q h. h.0)
          (λ q h. go_to_following-IsGood next (is_playing p.state) now q h.0 h.1)

    after_removal-IsGood :
        (r : ℕ) (now : ℕ) (p : Player E R) (index : Option ℕ)
        → IsGood E R p
        → p.queue.index ≡ index
        → length p.queue.entry_ids ≡ length p.queue.tracks
        → r < length p.queue.tracks
        → IsGood E R (after_removal E R r (take_out R p.queue r) now p index).0
    unfolding after_removal publish
    after_removal-IsGood r now p none g at same low =
        take_out-IsSound_here R fair p.queue r g same low (rw at refl)
    after_removal-IsGood r now p (some i) g at same low =
        let within : leb i (length p.queue.tracks) ≡ true =
          subst (λ j. is_within (length p.queue.tracks) j ≡ true) at g.0.1 in
        let (q, slot) = take_out R p.queue r in
        let (q', next) = following R q r slot in
        if_then_else_lem (λ (o : Outcome E R). IsGood E R o.0) (i == r)
          (λ e.
            let n = following-IsNext R fair q r slot (
              take_out-IsSound_here R fair p.queue r g same low (rw at (ground (arith, e, low)))) in
            go_on_after_removed-IsGood next now (record p { queue = q' }) n.0 n.1)
          (λ e.
            if_then_else_lem (IsSound R) (ltb r i)
              (λ after.
                take_out-IsSound R fair p.queue r (some (i - 1)) g same low
                  (ground (arith, after, within)))
              (λ before.
                take_out-IsSound_here R fair p.queue r g same low
                  (rw at (ground (arith, e, before, low)))))

    pub remove_playlist_entry-IsGood :
        (entry_id now : ℕ) (p : Player E R)
        → IsGood E R p
        → IsGood E R (remove_playlist_entry E R entry_id now p).0
    unfolding remove_playlist_entry
    remove_playlist_entry-IsGood entry_id now p g =
        elim (Option-cases (find_from 0 entry_id p.queue.entry_ids)) [
          | inl e ↦ rw (remove_playlist_entry, e) g
          | inr (r, e) ↦
              let low = find_from-lt 0 entry_id p.queue.entry_ids r e in
              rw (remove_playlist_entry, e)
                (elim g.0.0 [
                  | inl empty ↦ absurd (omega (arith, low, empty))
                  | inr same ↦
                      after_removal-IsGood r now p p.queue.index g refl same
                        (omega (arith, low, same))
                ])
        ]
