-- ===== src/MediaPlayer/Queue/Order.antt =====
-- The shuffle order of the media player's queue (src/backend/src/media_player.rs).
use carnine.Prelude.{
  ℕ, zero, suc, ◌+◌, ◌<◌, ◌≤◌, ◌≡◌, refl, ◌&&◌, Option, some, List, [], ◌∷◌, arith, length,
  get_elem?, ltb, leb, ◌==◌, if◌then◌else◌, Option-cases, inl, inr,
}
use carnine.MediaPlayer.Queue.{Shuffler, range_from, without, in_range, shuffled_order}

abbrev pub count : ℕ → List ℕ → ℕ
count a [] = 0
count a (x ∷ xs) = (if x == a then 1 else 0) + count a xs

-- What the `rand` crate says of `shuffle`: the slice has the same items afterwards, as often.
pub record Fair (R : Shuffler) : Type 0 where
  pub keeps : (l : List ℕ) (rng : R.Rng) (a : ℕ) → count a (R.shuffle l rng).0 ≡ count a l
  pub keeps_length : (l : List ℕ) (rng : R.Rng) → length (R.shuffle l rng).0 ≡ length l

-- Every index of a queue of `n` tracks, each exactly once.
abbrev pub IsOrder : ℕ → List ℕ → Type 0
IsOrder n order = (length order ≡ n) × ((a : ℕ) → count a order ≡ (if ltb a n then 1 else 0))

length-range_from : (i n : ℕ) → length (range_from i n) ≡ n
length-range_from i zero = refl
length-range_from i (suc n) = omega (arith, length-range_from (suc i) n)

count-range_from :
    (i n a : ℕ) → count a (range_from i n) ≡ (if leb i a && ltb a (i + n) then 1 else 0)
count-range_from i zero a = ground arith
count-range_from i (suc n) a = ground (arith, count-range_from (suc i) n a)

length-without : (a : ℕ) (l : List ℕ) → length (without a l) + count a l ≡ length l
length-without a [] = refl
length-without a (x ∷ l) = ground (arith, length-without a l)

count-without :
    (p : ℕ) (l : List ℕ) (a : ℕ) → count a (without p l) ≡ (if p == a then 0 else count a l)
count-without p [] a = ground arith
count-without p (x ∷ l) a = ground (arith, count-without p l a)

module _ (R : Shuffler) (fair : Fair R) where
  pub shuffled_order-IsOrder :
      (n : ℕ) (pinned : Option ℕ) (rng : R.Rng) → IsOrder n (shuffled_order R n pinned rng).0
  unfolding shuffled_order
  shuffled_order-IsOrder n pinned rng = elim (Option-cases (in_range n pinned)) [
    | inl e ↦ rw e (
      omega (arith, fair.keeps_length (range_from 0 n) rng, length-range_from 0 n),
      λ a. ground (arith, fair.keeps (range_from 0 n) rng a, count-range_from 0 n a),
    )
    | inr (p, e) ↦
        let l = without p (range_from 0 n) in
        let low : p < n = ground (arith, e) in
        rw e (
          omega (
            arith,
            fair.keeps_length l rng,
            length-without p (range_from 0 n),
            length-range_from 0 n,
            one p low,
          ),
          λ a. ground (
            arith,
            fair.keeps l rng a,
            count-without p (range_from 0 n) a,
            count-range_from 0 n a,
            low,
          ),
        )
  ]
    where
      one : (p : ℕ) → p < n → count p (range_from 0 n) ≡ 1
      one p h = ground (arith, count-range_from 0 n p)

count-get_elem? : (l : List ℕ) (k j : ℕ) → get_elem? l k ≡ some j → 1 ≤ count j l
count-get_elem? [] k j h = absurd (ground (arith, h))
count-get_elem? (x ∷ l) zero j h = ground (arith, h)
count-get_elem? (x ∷ l) (suc k) j h = omega (arith, count-get_elem? l k j h)

-- An index that stands in the order is one of the queue.
pub IsOrder-lt :
    (n : ℕ) (order : List ℕ) (k j : ℕ) → IsOrder n order → get_elem? order k ≡ some j → j < n
IsOrder-lt n order k j o h = ground (arith, o.1 j, count-get_elem? order k j h)
