-- ===== src/MediaPlayer/Queue.antt =====
-- The queue of `MediaPlayer` (src/backend/src/media_player.rs): its tracks, the current one, repeat
-- and shuffle. The random order of the `rand` crate is a parameter.
pub mod Order
pub mod Slots
pub mod Sound
use carnine.Prelude.{
  ℕ, zero, suc, ◌-◌, Bool, true, false, ◌&&◌, not, Option, none, some, List, [], ◌∷◌, map, ◌==◌,
  ltb, leb, if◌then◌else◌, length, get_elem?,
}

-- `shuffle(&mut thread_rng())`
pub record Shuffler : Type 1 where
  pub Rng : Type 0
  pub shuffle : List ℕ → Rng → List ℕ × Rng

pub data RepeatMode : Type 0 where
  unspecified repeat_off repeat_queue repeat_track : RepeatMode

abbrev pub is_repeat_queue : RepeatMode → Bool
is_repeat_queue repeat_queue = true
is_repeat_queue _ = false

abbrev pub is_repeat_track : RepeatMode → Bool
is_repeat_track repeat_track = true
is_repeat_track _ = false

-- `(0..len)`, counted from `i`.
abbrev pub range_from : ℕ → ℕ → List ℕ
range_from i zero = []
range_from i (suc n) = i ∷ range_from (suc i) n

-- `retain`
abbrev pub without : ℕ → List ℕ → List ℕ
without a [] = []
without a (x ∷ xs) = if x == a then without a xs else x ∷ without a xs

-- `iter().position(…)`, counted from `i`.
abbrev pub find_from : ℕ → ℕ → List ℕ → Option ℕ
find_from i a [] = none
find_from i a (x ∷ xs) = if x == a then some i else find_from (suc i) a xs

-- `Vec::remove`, which panics out of range; here that changes nothing.
abbrev pub remove_at {ℓ} : {A : Type ℓ} → ℕ → List A → List A
remove_at i [] = []
remove_at zero (x ∷ xs) = xs
remove_at (suc i) (x ∷ xs) = x ∷ remove_at i xs

abbrev pub or_else {ℓ} : {A : Type ℓ} → Option A → A → A
or_else none d = d
or_else (some a) d = a

-- `pinned_first.filter(|index| *index < len)`
abbrev pub in_range : ℕ → Option ℕ → Option ℕ
in_range len none = none
in_range len (some p) = if ltb p len then some p else none

-- The direction of a switch, an `isize` of -1, 0 or 1 in the source.
pub data Direction : Type 0 where
  backward restart forward : Direction

abbrev pub step : Direction → ℕ → Option ℕ
step backward zero = none
step backward (suc n) = some n
step restart n = some n
step forward n = some (suc n)

-- An index after the removal of `removed`.
abbrev pub renumber : ℕ → ℕ → ℕ
renumber removed i = if ltb removed i then i - 1 else i

module _ (R : Shuffler) where
  open R use {Rng, shuffle}

  pub record Queue : Type 0 where
    pub tracks : List (List ℕ)
    pub entry_ids : List ℕ
    pub index : Option ℕ
    pub repeat_mode : RepeatMode
    pub shuffle_enabled : Bool
    pub shuffle_order : List ℕ
    pub shuffle_position : ℕ
    pub rng : Rng

  abbrev shuffle_pinned : ℕ → Option ℕ → Rng → List ℕ × Rng
  shuffle_pinned len none rng = shuffle (range_from 0 len) rng
  shuffle_pinned len (some p) rng =
      let (order, rng') = shuffle (without p (range_from 0 len)) rng in (p ∷ order, rng')

  unfoldable pub shuffled_order : ℕ → Option ℕ → Rng → List ℕ × Rng
  shuffled_order len pinned rng = shuffle_pinned len (in_range len pinned) rng

  -- A new order at its start.
  unfoldable pub reorder : Queue → Option ℕ → Queue
  reorder q pinned =
      let (order, rng) = shuffled_order (length q.tracks) pinned q.rng in
      record q { shuffle_order = order; shuffle_position = 0; rng = rng }

  abbrev pub reshuffle_from_current : Queue → Queue
  reshuffle_from_current q = reorder q q.index

  abbrev pub current_queue_path : Queue → Option (List ℕ)
  current_queue_path q = elim q.index [ none ↦ none | some i ↦ get_elem? q.tracks i ]

  abbrev drop_slot : Queue → ℕ → Option ℕ → Queue
  drop_slot q removed none = record q { shuffle_order = map (renumber removed) q.shuffle_order }
  drop_slot q removed (some slot) = record q {
    shuffle_order = map (renumber removed) (remove_at slot q.shuffle_order);
    shuffle_position =
        if ltb slot q.shuffle_position then q.shuffle_position - 1 else q.shuffle_position;
  }

  unfoldable pub drop_from_shuffle_order : Queue → ℕ → Queue × Option ℕ
  drop_from_shuffle_order q removed =
      let slot = find_from 0 removed q.shuffle_order in (drop_slot q removed slot, slot)

  -- A new round for repeat=queue, from its first track.
  abbrev pub new_round : Queue → Queue × Option ℕ
  new_round q =
      if is_repeat_queue q.repeat_mode
      then (reorder q none, get_elem? (reorder q none).shuffle_order 0)
      else (q, none)

  unfoldable pub following_shuffled_index : Queue → Option ℕ → Queue × Option ℕ
  following_shuffled_index q slot =
      let s = or_else slot q.shuffle_position in
      if length q.tracks == 0
      then (q, none)
      else if ltb s (length q.shuffle_order)
      then (record q { shuffle_position = s }, get_elem? q.shuffle_order s)
      else new_round q

  abbrev pub go_to : Queue → Option ℕ → Queue × Option ℕ
  go_to q none = (q, none)
  go_to q (some raw_next) =
      if leb (length q.shuffle_order) raw_next
      then new_round q
      else (record q { shuffle_position = raw_next }, get_elem? q.shuffle_order raw_next)

  -- An order of the wrong length is replaced, at the same position.
  abbrev pub refreshed : Queue → Queue
  refreshed q =
      if length q.shuffle_order == length q.tracks
      then q
      else (let (order, rng) = shuffled_order (length q.tracks) none q.rng in
          record q { shuffle_order = order; rng = rng })

  unfoldable pub resolve_next_shuffled_index : Queue → Direction → Queue × Option ℕ
  resolve_next_shuffled_index q d = let q' = refreshed q in go_to q' (step d q'.shuffle_position)

  abbrev pub around : Bool → ℕ → Option ℕ → Option ℕ
  around wraps len none = if wraps then some (len - 1) else none
  around wraps len (some raw_next) =
      if leb len raw_next then (if wraps then some 0 else none) else some raw_next

  abbrev pub adjacent : Queue → Direction → Option ℕ
  adjacent q d = elim q.index [
    | none ↦ none
    | some i ↦ around (is_repeat_queue q.repeat_mode) (length q.tracks) (step d i)
  ]

  unfoldable pub resolve_next_index : Queue → Direction → Queue × Option ℕ
  resolve_next_index q d =
      if length q.tracks == 0
      then (q, none)
      else if is_repeat_track q.repeat_mode
      then (q, q.index)
      else if q.shuffle_enabled
      then resolve_next_shuffled_index q d
      else (q, adjacent q d)

  -- The part of `remove_playlist_entry` before it looks at the current track: the queue without the
  -- entry, and the entry's slot in the shuffle order.
  unfoldable pub take_out : Queue → ℕ → Queue × Option ℕ
  take_out q removed =
      drop_from_shuffle_order
        (record q {
          tracks = remove_at removed q.tracks;
          entry_ids = remove_at removed q.entry_ids;
        })
        removed

  -- The track that follows a current one that was removed.
  unfoldable pub following : Queue → ℕ → Option ℕ → Queue × Option ℕ
  following q removed slot =
      if q.shuffle_enabled
      then following_shuffled_index q slot
      else if ltb removed (length q.tracks)
      then (q, some removed)
      else (q, if is_repeat_queue q.repeat_mode && not (length q.tracks == 0) then some 0 else none)

  unfoldable pub set_shuffle_mode : Queue → Bool → Queue
  set_shuffle_mode q enabled =
      let q' = record q { shuffle_enabled = enabled } in
      if enabled then reshuffle_from_current q' else q'

  abbrev pub reshuffle_if_enabled : Queue → Queue
  reshuffle_if_enabled q = if q.shuffle_enabled then reshuffle_from_current q else q

  -- The queue of one track that is no playlist.
  abbrev pub loose : Queue → List ℕ → Queue
  loose q path =
      reshuffle_if_enabled (record q { tracks = path ∷ []; entry_ids = []; index = some 0 })
