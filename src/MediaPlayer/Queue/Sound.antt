-- ===== src/MediaPlayer/Queue/Sound.antt =====
-- What always holds of the media player's queue (src/backend/src/media_player.rs).
use carnine.Prelude.{
  ℕ, suc, ◌+◌, ◌-◌, ◌<◌, ◌≤◌, ◌≡◌, ◌∙◌, ◌⊎◌, inl, inr, refl, ap, sym, subst, Bool, true, false,
  Option, none, some, List, arith, length, get_elem?, ltb, leb, ◌==◌, Option-cases,
}
use carnine.MediaPlayer.Queue.{
  Shuffler, Queue, Direction, find_from, remove_at, reorder, set_shuffle_mode, take_out,
  drop_from_shuffle_order, following, following_shuffled_index, resolve_next_index,
  resolve_next_shuffled_index, new_round, go_to, refreshed, reshuffle_if_enabled, is_repeat_track,
  is_repeat_queue, step, or_else,
}
use carnine.MediaPlayer.Queue.Order.{Fair, IsOrder, count, IsOrder-lt, shuffled_order-IsOrder}
use carnine.MediaPlayer.Queue.Slots.{
  find_from-lt, length-remove_at, length-map-renumber, count-none, count-remove_at,
  count-map-renumber, if_then_else_lem,
}

-- An index that is at most `n`, where there is one.
abbrev pub is_within : ℕ → Option ℕ → Bool
is_within n none = true
is_within n (some i) = leb i n

module _ (R : Shuffler) where
  -- The entries are those of the tracks, or there are none; the index is at most one past the end.
  abbrev pub IsFitting : Queue R → Type 0
  IsFitting q =
      ((length q.entry_ids ≡ 0) ⊎ (length q.entry_ids ≡ length q.tracks))
      × (is_within (length q.tracks) q.index ≡ true)

  -- The shuffle order has every track exactly once.
  abbrev pub IsOrdered : Queue R → Type 0
  IsOrdered q = IsOrder (length q.tracks) q.shuffle_order × (q.shuffle_position ≤ length q.tracks)

  abbrev pub IsSound : Queue R → Type 0
  IsSound q = IsFitting q × ((q.shuffle_enabled ≡ false) ⊎ IsOrdered q)

  -- A queue, and one of its indexes where there is one.
  abbrev pub IsNext : Queue R × Option ℕ → Type 0
  IsNext r = IsSound r.0 × (is_within (length r.0.tracks) r.1 ≡ true)

  take_out_rest :
      (q : Queue R) (r : ℕ)
      → ((take_out R q r).0.tracks ≡ remove_at r q.tracks)
        × ((take_out R q r).0.entry_ids ≡ remove_at r q.entry_ids)
        × ((take_out R q r).0.index ≡ q.index)
        × ((take_out R q r).0.shuffle_enabled ≡ q.shuffle_enabled)
  unfolding take_out drop_from_shuffle_order
  take_out_rest q r = ground arith

  module _ (fair : Fair R) where
    pub reorder-IsOrdered : (q : Queue R) (pinned : Option ℕ) → IsOrdered (reorder R q pinned)
    unfolding reorder
    reorder-IsOrdered q pinned =
        (shuffled_order-IsOrder R fair (length q.tracks) pinned q.rng, omega arith)

    pub take_out-IsOrdered :
        (q : Queue R) (r : ℕ) → IsOrdered q → r < length q.tracks → IsOrdered (take_out R q r).0
    unfolding take_out drop_from_shuffle_order
    take_out-IsOrdered q r o low = elim (Option-cases (find_from 0 r q.shuffle_order)) [
      | inl e ↦ absurd (ground (arith, count-none 0 r q.shuffle_order e, o.0.1 r, low))
      | inr (s, e) ↦
          let e' : find_from 0 r q.shuffle_order ≡ some (0 + s) = e ∙ ap some (omega arith) in
          let there : s < length q.shuffle_order =
            omega (arith, find_from-lt 0 r q.shuffle_order s e) in
          let shorter = length-remove_at r q.tracks low in
          let gone : count r (remove_at s q.shuffle_order) ≡ 0 =
            ground (arith, count-remove_at 0 r q.shuffle_order s r e', o.0.1 r, low) in
          rw e (
            (
              omega (
                arith,
                length-map-renumber r (remove_at s q.shuffle_order),
                length-remove_at s q.shuffle_order there,
                shorter,
                o.0.0,
              ),
              λ a. ground (
                arith,
                count-map-renumber r (remove_at s q.shuffle_order) a gone,
                count-remove_at 0 r q.shuffle_order s a e',
                count-remove_at 0 r q.shuffle_order s (suc a) e',
                o.0.1 a,
                o.0.1 (suc a),
                shorter,
                low,
              ),
            ),
            ground (arith, o.1, o.0.0, there, shorter),
          )
    ]

    pub reorder-IsSound :
        (q : Queue R) (pinned : Option ℕ) → IsFitting q → IsSound (reorder R q pinned)
    unfolding reorder
    reorder-IsSound q pinned f = (f, inr (reorder-IsOrdered q pinned))

    pub set_shuffle_mode-IsSound :
        (q : Queue R) (enabled : Bool) → IsFitting q → IsSound (set_shuffle_mode R q enabled)
    unfolding set_shuffle_mode
    set_shuffle_mode-IsSound q false f = (f, inl refl)
    set_shuffle_mode-IsSound q true f =
        reorder-IsSound (record q { shuffle_enabled = true }) q.index f

    pub reshuffle_if_enabled-IsSound :
        (q : Queue R) → IsFitting q → IsSound (reshuffle_if_enabled R q)
    reshuffle_if_enabled-IsSound q f =
        if_then_else_lem IsSound q.shuffle_enabled (λ on. reorder-IsSound q q.index f)
          (λ off. (f, inl off))

    pub new_round-IsSound : (q : Queue R) → IsSound q → IsSound (new_round R q).0
    new_round-IsSound q s =
        if_then_else_lem (λ (r : Queue R × Option ℕ). IsSound r.0) (is_repeat_queue q.repeat_mode)
          (λ e. reorder-IsSound q none s.0) (λ e. s)

    at_position-IsSound :
        (q : Queue R) (k : ℕ)
        → IsSound q
        → k < length q.shuffle_order
        → IsSound (record q { shuffle_position = k })
    at_position-IsSound q k (f, inl e) low = (f, inl e)
    at_position-IsSound q k (f, inr o) low = (f, inr (o.0, omega (arith, low, o.0.0)))

    go_to-IsSound : (q : Queue R) (target : Option ℕ) → IsSound q → IsSound (go_to R q target).0
    go_to-IsSound q none s = s
    go_to-IsSound q (some k) s =
        if_then_else_lem (λ (r : Queue R × Option ℕ). IsSound r.0) (leb (length q.shuffle_order) k)
          (λ e. new_round-IsSound q s) (λ e. at_position-IsSound q k s (ground (arith, e)))

    refreshed-IsSound : (q : Queue R) → IsSound q → IsSound (refreshed R q)
    refreshed-IsSound q s =
        if_then_else_lem IsSound (length q.shuffle_order == length q.tracks) (λ e. s)
          (λ e. (s.0, elim s.1 [ inl off ↦ inl off | inr o ↦ absurd (ground (arith, e, o.0.0)) ]))

    pub resolve_next_index-IsSound :
        (q : Queue R) (d : Direction) → IsSound q → IsSound (resolve_next_index R q d).0
    unfolding resolve_next_index resolve_next_shuffled_index
    resolve_next_index-IsSound q d s =
        let P = λ (r : Queue R × Option ℕ). IsSound r.0 in
        if_then_else_lem P (length q.tracks == 0) (λ _. s)
          λ _.
            if_then_else_lem P (is_repeat_track q.repeat_mode) (λ _. s)
              λ _.
                if_then_else_lem P q.shuffle_enabled
                  (λ _.
                    go_to-IsSound (refreshed R q) (step d (refreshed R q).shuffle_position)
                      (refreshed-IsSound q s))
                  (λ _. s)

    slot-within :
        (n : ℕ) (order : List ℕ) (k : ℕ) → IsOrder n order → is_within n (get_elem? order k) ≡ true
    slot-within n order k o = elim (Option-cases (get_elem? order k)) [
      | inl e ↦ rw e refl
      | inr (j, e) ↦ rw e (ground (arith, IsOrder-lt n order k j o e))
    ]

    new_round-IsNext : (q : Queue R) → IsSound q → IsNext (new_round R q)
    unfolding reorder
    new_round-IsNext q s =
        if_then_else_lem IsNext (is_repeat_queue q.repeat_mode)
          (λ _. (
            reorder-IsSound q none s.0,
            slot-within (length q.tracks) (reorder R q none).shuffle_order 0
                (reorder-IsOrdered q none).0,
          ))
          (λ _. (s, refl))

    at_slot-IsNext :
        (q : Queue R) (k : ℕ)
        → IsSound q
        → q.shuffle_enabled ≡ true
        → k < length q.shuffle_order
        → IsNext (record q { shuffle_position = k }, get_elem? q.shuffle_order k)
    at_slot-IsNext q k (f, inl off) on low = absurd (ground (arith, on, off))
    at_slot-IsNext q k (f, inr o) on low = (
      at_position-IsSound q k (f, inr o) low,
      slot-within (length q.tracks) q.shuffle_order k o.0,
    )

    -- What follows a removed current track.
    pub following-IsNext :
        (q : Queue R) (r : ℕ) (slot : Option ℕ) → IsSound q → IsNext (following R q r slot)
    unfolding following following_shuffled_index
    following-IsNext q r slot s =
        let k = or_else slot q.shuffle_position in
        if_then_else_lem IsNext q.shuffle_enabled
          (λ on.
            if_then_else_lem IsNext (length q.tracks == 0) (λ _. (s, refl))
              λ _.
                if_then_else_lem IsNext (ltb k (length q.shuffle_order))
                  (λ low. at_slot-IsNext q k s on (ground (arith, low)))
                  (λ _. new_round-IsNext q s))
          (λ _.
            if_then_else_lem IsNext (ltb r (length q.tracks)) (λ low. (s, ground (arith, low)))
              (λ _. (s, ground arith)))

    -- A queue without its entry at `r`, whatever becomes of the index.
    pub take_out-IsSound :
        (q : Queue R) (r : ℕ) (j : Option ℕ)
        → IsSound q
        → length q.entry_ids ≡ length q.tracks
        → r < length q.tracks
        → is_within (length q.tracks - 1) j ≡ true
        → IsSound (record ((take_out R q r).0) { index = j })
    take_out-IsSound q r j s same low within =
        let rest = take_out_rest q r in
        let shorter = length-remove_at r q.tracks low in
        let shorter_ids = length-remove_at r q.entry_ids (rw same low) in
        (
          (
            inr (
                ap length rest.1
                ∙ shorter_ids
                ∙ ap (λ n. n - 1) same
                ∙ sym (ap length rest.0 ∙ shorter)),
            subst (λ n. is_within n j ≡ true) (sym (ap length rest.0 ∙ shorter)) within,
          ),
          elim s.1 [ inl off ↦ inl (rest.3 ∙ off) | inr o ↦ inr (take_out-IsOrdered q r o low) ],
        )

    pub take_out-IsSound_here :
        (q : Queue R) (r : ℕ)
        → IsSound q
        → length q.entry_ids ≡ length q.tracks
        → r < length q.tracks
        → is_within (length q.tracks - 1) q.index ≡ true
        → IsSound (take_out R q r).0
    take_out-IsSound_here q r s same low within =
        subst (λ j. IsSound (record ((take_out R q r).0) { index = j })) (sym (take_out_rest q r).2)
          (take_out-IsSound q r q.index s same low within)
