-- ===== src/MediaPlayer/Removal.antt =====
-- Removing an entry that is not the current one (src/backend/src/media_player.rs).
use carnine.Prelude.{
  ℕ, zero, suc, ◌-◌, ◌<◌, ◌≤◌, ◌≡◌, ◌≢◌, refl, none, some, List, [], ◌∷◌, arith, get_elem?, ltb,
  if◌then◌else◌,
}
use carnine.MediaPlayer.Engine.{Engine}
use carnine.MediaPlayer.Queue.{
  Shuffler, remove_at, find_from, take_out, drop_from_shuffle_order, current_queue_path,
}
use carnine.MediaPlayer.Player.{Player, publish}
use carnine.MediaPlayer.Playlist.{remove_playlist_entry, after_removal, playlist_entry_id}

module _ {ℓ} {A : Type ℓ} where
  pub get_elem?-remove_at_before :
      (r : ℕ) (xs : List A) (i : ℕ) → i < r → get_elem? (remove_at r xs) i ≡ get_elem? xs i
  get_elem?-remove_at_before r [] i h = refl
  get_elem?-remove_at_before zero (x ∷ xs) i h = absurd (omega arith)
  get_elem?-remove_at_before (suc r) (x ∷ xs) zero h = refl
  get_elem?-remove_at_before (suc r) (x ∷ xs) (suc i) h =
      get_elem?-remove_at_before r xs i (omega arith)

  pub get_elem?-remove_at_after :
      (r : ℕ) (xs : List A) (i : ℕ) → r ≤ i → get_elem? (remove_at r xs) i ≡ get_elem? xs (suc i)
  get_elem?-remove_at_after r [] i h = refl
  get_elem?-remove_at_after zero (x ∷ xs) i h = refl
  get_elem?-remove_at_after (suc r) (x ∷ xs) zero h = absurd (omega arith)
  get_elem?-remove_at_after (suc r) (x ∷ xs) (suc i) h =
      get_elem?-remove_at_after r xs i (omega arith)

-- Where the item at `i` stands after the removal at `r`.
pub get_elem?-remove_at_moved :
    {A : Type 0} (r : ℕ) (xs : List A) (i : ℕ)
    → i ≢ r
    → get_elem? (remove_at r xs) (if ltb r i then i - 1 else i) ≡ get_elem? xs i
get_elem?-remove_at_moved r xs zero h = ground (arith, get_elem?-remove_at_before r xs 0)
get_elem?-remove_at_moved r xs (suc i) h =
    ground (arith, get_elem?-remove_at_before r xs (suc i), get_elem?-remove_at_after r xs i)

module _ (E : Engine) (R : Shuffler) where
  -- Removing an entry of the loaded playlist that is not the current one leaves everything that can
  -- be heard and seen of the current track alone: its path and its entry in the queue, the playback,
  -- the state and the position. The entry itself is out of the queue.
  pub remove_playlist_entry_other :
      (p : Player E R) (entry_id now removed i : ℕ)
      → find_from 0 entry_id p.queue.entry_ids ≡ some removed
      → p.queue.index ≡ some i
      → i ≢ removed
      → let (q, failure) = remove_playlist_entry E R entry_id now p in
        (failure ≡ none)
        × (q.queue.tracks ≡ remove_at removed p.queue.tracks)
        × (current_queue_path R q.queue ≡ current_queue_path R p.queue)
        × (playlist_entry_id E R q ≡ playlist_entry_id E R p)
        × (q.playback ≡ p.playback)
        × (q.media_path ≡ p.media_path)
        × (q.state ≡ p.state)
        × (q.position_ms ≡ p.position_ms)
        × (q.started_at ≡ p.started_at)
  unfolding remove_playlist_entry after_removal take_out drop_from_shuffle_order publish
      playlist_entry_id
  remove_playlist_entry_other p entry_id now removed i found at other = ground (
    arith,
    found,
    at,
    other,
    get_elem?-remove_at_moved removed p.queue.tracks i other,
    get_elem?-remove_at_moved removed p.queue.entry_ids i other,
  )
