-- ===== src/MediaPlayer/Rounds.antt =====
-- The order in which the media player (src/backend/src/media_player.rs) plays a queue by itself.
use carnine.Prelude.{
  ℕ, zero, suc, ◌+◌, ◌<◌, ◌≤◌, ◌≡◌, refl, sym, ap, subst, ◌∙◌, ◌⊎◌, inl, inr, none, some, arith,
  true, false, List, [], ◌∷◌, get_elem?, length, ltb, Bool-cases,
}
use carnine.MediaPlayer.Engine.{Engine}
use carnine.MediaPlayer.Queue.{
  Shuffler, Queue, repeat_off, forward, resolve_next_index, resolve_next_shuffled_index,
  is_repeat_track, set_shuffle_mode, reorder, shuffled_order,
}
use carnine.MediaPlayer.Queue.Order.{Fair, IsOrder, IsOrder-lt, shuffled_order-IsOrder}
use carnine.MediaPlayer.Player.{Player, stopped}
use carnine.MediaPlayer.Transport.{handle_track_finished}
use carnine.MediaPlayer.Commands.{set_shuffle}
use carnine.MediaPlayer.Advance.{Works, IsHeard, goes_on, ends}

-- An index that is in range has an item.
pub get_elem?-lt {ℓ} :
    {A : Type ℓ} (xs : List A) (i : ℕ) → i < length xs → (a : A) × (get_elem? xs i ≡ some a)
get_elem?-lt [] i h = absurd (omega arith)
get_elem?-lt (x ∷ xs) zero h = (x, refl)
get_elem?-lt (x ∷ xs) (suc i) h = get_elem?-lt xs i (omega arith)

get_elem?-low {ℓ} :
    {A : Type ℓ} (xs : List A) (i : ℕ) (a : A) → get_elem? xs i ≡ some a → i < length xs
get_elem?-low [] i a e = absurd (ground (arith, e))
get_elem?-low (x ∷ xs) zero a e = omega arith
get_elem?-low (x ∷ xs) (suc i) a e = omega (arith, get_elem?-low xs i a e)

module _ (E : Engine) (R : Shuffler) where
  -- The tracks that end one after the other, each at its instant.
  unfoldable pub finish_all : List ℕ → Player E R → Player E R
  finish_all [] p = p
  finish_all (now ∷ turns) p = finish_all turns (handle_track_finished E R now p)

  -- Repeat and shuffle off, the current track at `i`.
  abbrev Plain : List (List ℕ) → ℕ → Player E R → Type 0
  Plain tracks i p =
      (p.queue.tracks ≡ tracks)
      × (p.queue.index ≡ some i)
      × (p.queue.repeat_mode ≡ repeat_off)
      × (p.queue.shuffle_enabled ≡ false)
      × IsHeard E R tracks i p

  plain_next :
      (q : Queue R) (i : ℕ)
      → q.index ≡ some i
      → q.repeat_mode ≡ repeat_off
      → q.shuffle_enabled ≡ false
      → suc i < length q.tracks
      → resolve_next_index R q forward ≡ (q, some (suc i))
  unfolding resolve_next_index
  plain_next q i at off plain more = ground (arith, at, off, plain, more)

  plain_end :
      (q : Queue R) (i : ℕ)
      → q.index ≡ some i
      → q.repeat_mode ≡ repeat_off
      → q.shuffle_enabled ≡ false
      → length q.tracks ≤ suc i
      → resolve_next_index R q forward ≡ (q, none)
  unfolding resolve_next_index
  plain_end q i at off plain last = ground (arith, at, off, plain, last)

  -- One round of shuffle, at the slot `k` of an order.
  abbrev Shuffled : List (List ℕ) → List ℕ → ℕ → Player E R → Type 0
  Shuffled tracks order k p =
      (p.queue.tracks ≡ tracks)
      × (p.queue.shuffle_order ≡ order)
      × (p.queue.shuffle_position ≡ k)
      × (is_repeat_track p.queue.repeat_mode ≡ false)
      × (p.queue.shuffle_enabled ≡ true)
      × (i : ℕ) × (get_elem? order k ≡ some i)
      × (p.queue.index ≡ some i)
      × IsHeard E R tracks i p

  shuffled_next :
      (q : Queue R) (k j : ℕ)
      → length q.shuffle_order ≡ length q.tracks
      → q.shuffle_position ≡ k
      → is_repeat_track q.repeat_mode ≡ false
      → q.shuffle_enabled ≡ true
      → suc k < length q.tracks
      → get_elem? q.shuffle_order (suc k) ≡ some j
      → resolve_next_index R q forward ≡ (record q { shuffle_position = suc k }, some j)
  unfolding resolve_next_index resolve_next_shuffled_index
  shuffled_next q k j full at mode on more next = ground (arith, full, at, mode, on, more, next)

  pinned_first :
      (p : Player E R) {i : ℕ}
      → p.queue.index ≡ some i
      → i < length p.queue.tracks
      → get_elem? (set_shuffle E R true p).queue.shuffle_order 0 ≡ some i
  unfolding set_shuffle set_shuffle_mode reorder shuffled_order
  pinned_first p at low = ground (arith, at, low)

  module _ (works : Works E R) where
    handle_track_finished-Plain :
        (tracks : List (List ℕ)) (i now : ℕ) (p : Player E R)
        → Plain tracks i p
        → suc i < length tracks
        → Plain tracks (suc i) (handle_track_finished E R now p)
    handle_track_finished-Plain tracks i now p plain more =
        let more' : suc i < length p.queue.tracks = rw plain.0 more in
        let (path, at) = get_elem?-lt p.queue.tracks (suc i) more' in
        let next = plain_next p.queue i plain.1 plain.2 plain.3 more' in
        let g = goes_on E R works p p.queue now (suc i) path next at in
        (
          ap (λ q. q.tracks) g.0 ∙ plain.0,
          ap (λ q. q.index) g.0,
          ap (λ q. q.repeat_mode) g.0 ∙ plain.2,
          ap (λ q. q.shuffle_enabled) g.0 ∙ plain.3,
          subst (λ l. IsHeard E R l (suc i) (handle_track_finished E R now p)) plain.0 g.1,
        )

    finish_all-Plain :
        (tracks : List (List ℕ)) (i : ℕ) (turns : List ℕ) (p : Player E R)
        → Plain tracks i p
        → i + length turns < length tracks
        → Plain tracks (i + length turns) (finish_all turns p)
    unfolding finish_all
    finish_all-Plain tracks i [] p plain more = subst (λ k. Plain tracks k p) (omega arith) plain
    finish_all-Plain tracks i (now ∷ turns) p plain more =
        subst (λ k. Plain tracks k (finish_all turns (handle_track_finished E R now p)))
          (omega arith)
          (finish_all-Plain tracks (suc i) turns (handle_track_finished E R now p)
            (handle_track_finished-Plain tracks i now p plain (omega arith)) (omega arith))

    -- With repeat and shuffle off, over an engine that starts every file and stops every playback:
    -- the tracks after the current one are played one after the other, in the order of the queue,
    -- each by the playback that the engine started for it, and once the last one has ended the player
    -- stops and has no playback.
    pub finish_all_in_order :
        (p : Player E R) (i last : ℕ) (turns : List ℕ)
        → p.queue.index ≡ some i
        → p.queue.repeat_mode ≡ repeat_off
        → p.queue.shuffle_enabled ≡ false
        → IsHeard E R p.queue.tracks i p
        → i + length turns < length p.queue.tracks
        → let q = finish_all turns p in
          let r = handle_track_finished E R last q in
          (q.queue.index ≡ some (i + length turns))
          × IsHeard E R p.queue.tracks (i + length turns) q
          × ((suc (i + length turns) < length p.queue.tracks)
              ⊎ ((r.state ≡ stopped) × (r.playback ≡ none)))
    finish_all_in_order p i last turns at off plain heard more =
        let k = i + length turns in
        let q = finish_all turns p in
        let h : Plain p.queue.tracks k q =
          finish_all-Plain p.queue.tracks i turns p (refl, at, off, plain, heard) more in
        (
          h.1,
          h.4,
          elim (Bool-cases (ltb (suc k) (length p.queue.tracks))) [
            | inl there ↦ inl (ground (arith, there))
            | inr over ↦ inr (
                ends E R works q q.queue last
                  (plain_end q.queue k h.1 h.2 h.3 (let e = h.0 in rw e (ground (arith, over)))))
          ],
        )

    handle_track_finished-Shuffled :
        (tracks : List (List ℕ)) (order : List ℕ) (k now : ℕ) (p : Player E R)
        → IsOrder (length tracks) order
        → Shuffled tracks order k p
        → suc k < length tracks
        → Shuffled tracks order (suc k) (handle_track_finished E R now p)
    handle_track_finished-Shuffled tracks order k now p o s more =
        let (j, next) = get_elem?-lt order (suc k) (omega (arith, o.0, more)) in
        let low : j < length p.queue.tracks =
          rw s.0 (IsOrder-lt (length tracks) order (suc k) j o next) in
        let (path, at) = get_elem?-lt p.queue.tracks j low in
        let e =
          shuffled_next p.queue k j (ap length s.1 ∙ o.0 ∙ ap length (sym s.0)) s.2 s.3 s.4
            (rw s.0 more) (rw s.1 next) in
        let g =
          goes_on E R works p (record (p.queue) { shuffle_position = suc k }) now j path e at in
        (
          ap (λ q. q.tracks) g.0 ∙ s.0,
          ap (λ q. q.shuffle_order) g.0 ∙ s.1,
          ap (λ q. q.shuffle_position) g.0,
          ap (λ (q : Queue R). is_repeat_track q.repeat_mode) g.0 ∙ s.3,
          ap (λ q. q.shuffle_enabled) g.0 ∙ s.4,
          j,
          next,
          ap (λ q. q.index) g.0,
          subst (λ l. IsHeard E R l j (handle_track_finished E R now p)) s.0 g.1,
        )

    finish_all-Shuffled :
        (tracks : List (List ℕ)) (order : List ℕ) (k : ℕ) (turns : List ℕ) (p : Player E R)
        → IsOrder (length tracks) order
        → Shuffled tracks order k p
        → k + length turns < length tracks
        → Shuffled tracks order (k + length turns) (finish_all turns p)
    unfolding finish_all
    finish_all-Shuffled tracks order k [] p o s more =
        subst (λ n. Shuffled tracks order n p) (omega arith) s
    finish_all-Shuffled tracks order k (now ∷ turns) p o s more =
        subst (λ n. Shuffled tracks order n (finish_all turns (handle_track_finished E R now p)))
          (omega arith)
          (finish_all-Shuffled tracks order (suc k) turns (handle_track_finished E R now p) o
            (handle_track_finished-Shuffled tracks order k now p o s (omega arith)) (omega arith))

    -- Switching shuffle on while a track plays, repeat=track aside, over an engine that starts every
    -- file and stops every playback: the new order begins with that track and has every track of the
    -- queue exactly once, and the tracks that end one after the other go through it, each played by
    -- the playback that the engine started for it, so a round plays each track once.
    pub finish_all_shuffled :
        (fair : Fair R) (p : Player E R) (i : ℕ) (turns : List ℕ)
        → p.queue.index ≡ some i
        → is_repeat_track p.queue.repeat_mode ≡ false
        → IsHeard E R p.queue.tracks i p
        → length turns < length p.queue.tracks
        → let s = set_shuffle E R true p in
          let q = finish_all turns s in
          IsOrder (length p.queue.tracks) s.queue.shuffle_order
          × (get_elem? s.queue.shuffle_order 0 ≡ some i)
          × (j : ℕ) × (get_elem? s.queue.shuffle_order (length turns) ≡ some j)
          × (q.queue.index ≡ some j)
          × IsHeard E R p.queue.tracks j q
    unfolding set_shuffle set_shuffle_mode reorder
    finish_all_shuffled fair p i turns at mode heard more =
        let s = set_shuffle E R true p in
        let low = get_elem?-low p.queue.tracks i heard.0 heard.2 in
        let o : IsOrder (length p.queue.tracks) s.queue.shuffle_order =
          shuffled_order-IsOrder R fair (length p.queue.tracks) p.queue.index p.queue.rng in
        let first : get_elem? s.queue.shuffle_order 0 ≡ some i = pinned_first p at low in
        let h =
          finish_all-Shuffled p.queue.tracks s.queue.shuffle_order 0 turns s o
            (refl, refl, refl, mode, refl, i, first, at, heard) (omega arith) in
        let n : 0 + length turns ≡ length turns = omega arith in
        (o, first, h.5, ap (get_elem? s.queue.shuffle_order) (sym n) ∙ h.6, h.7, h.8)
