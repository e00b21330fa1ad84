-- ===== src/MediaPlayer/Queue/Slots.antt =====
-- Lists of indexes without one of them, for the queue of the media player
-- (src/backend/src/media_player.rs).
use carnine.Prelude.{
  ℕ, zero, suc, ◌+◌, ◌-◌, ◌<◌, ◌≤◌, ◌≡◌, refl, Bool, true, false, none, some, List, [], ◌∷◌, arith,
  length, ltb, ◌==◌, if◌then◌else◌, map,
}
use carnine.MediaPlayer.Queue.{find_from, remove_at, renumber}
use carnine.MediaPlayer.Queue.Order.{count}

pub find_from-le : (k a : ℕ) (l : List ℕ) (s : ℕ) → find_from k a l ≡ some s → k ≤ s
find_from-le k a [] s h = absurd (ground (arith, h))
find_from-le k a (x ∷ l) s h = ground (arith, h, find_from-le (suc k) a l s)

-- A position that was found is one of the list.
pub find_from-lt : (k a : ℕ) (l : List ℕ) (s : ℕ) → find_from k a l ≡ some s → s < k + length l
find_from-lt k a [] s h = absurd (ground (arith, h))
find_from-lt k a (x ∷ l) s h = ground (arith, h, find_from-lt (suc k) a l s)

pub length-remove_at {ℓ} :
    {A : Type ℓ} (i : ℕ) (l : List A) → i < length l → length (remove_at i l) ≡ length l - 1
length-remove_at i [] h = refl
length-remove_at zero (x ∷ l) h = omega arith
length-remove_at (suc i) (x ∷ l) h = omega (arith, length-remove_at i l (omega arith))

pub length-map-renumber : (r : ℕ) (l : List ℕ) → length (map (renumber r) l) ≡ length l
length-map-renumber r [] = refl
length-map-renumber r (x ∷ l) = omega (arith, length-map-renumber r l)

pub count-none : (k a : ℕ) (l : List ℕ) → find_from k a l ≡ none → count a l ≡ 0
count-none k a [] h = refl
count-none k a (x ∷ l) h = ground (arith, h, count-none (suc k) a l)

pub count-remove_at :
    (k r : ℕ) (l : List ℕ) (j a : ℕ)
    → find_from k r l ≡ some (k + j)
    → count a (remove_at j l) + (if r == a then 1 else 0) ≡ count a l
count-remove_at k r [] j a h = absurd (ground (arith, h))
count-remove_at k r (x ∷ l) zero a h = ground (arith, h, find_from-le (suc k) r l (k + 0))
count-remove_at k r (x ∷ l) (suc j) a h = ground (arith, h, count-remove_at (suc k) r l j a)

pub count-map-renumber :
    (r : ℕ) (l : List ℕ) (a : ℕ)
    → count r l ≡ 0
    → count a (map (renumber r) l) ≡ (if ltb a r then count a l else count (suc a) l)
count-map-renumber r [] a h = ground arith
count-map-renumber r (x ∷ l) a h = ground (arith, h, count-map-renumber r l a)

-- What holds of both branches holds of the whole.
pub if_then_else_lem {ℓ κ} :
    {A : Type ℓ} (P : A → Type κ) (b : Bool) {x y : A}
    → (b ≡ true → P x)
    → (b ≡ false → P y)
    → P (if b then x else y)
if_then_else_lem P true then_holds else_holds = then_holds refl
if_then_else_lem P false then_holds else_holds = else_holds refl
