-- ===== src/MediaService/Entries.antt =====
-- The entries of a playlist by their ids (src/backend/src/main.rs).
use carnine.Prelude.{
  All, ℕ, zero, suc, ◌+◌, ◌<◌, ◌≡◌, ◌≢◌, refl, subst, arith, some, List, [], ◌∷◌, get_elem?, length,
}
use carnine.MediaPlayer.Queue.{find_from}
use carnine.MediaPlayer.Playlist.{Entry, ids_of, paths_of}

-- No id stands twice.
abbrev pub AreDistinct : List ℕ → Type 0
AreDistinct [] = Unit
AreDistinct (a ∷ l) = All (λ b. a ≢ b) l × AreDistinct l

pub All-get_elem? :
    (P : ℕ → Type 0) (i : ℕ) (l : List ℕ) (a : ℕ) → All P l → get_elem? l i ≡ some a → P a
All-get_elem? P i [] a h e = absurd (ground (arith, e))
All-get_elem? P zero (b ∷ l) a h e = subst P (ground (arith, e)) h.0
All-get_elem? P (suc i) (b ∷ l) a h e = All-get_elem? P i l a h.1 e

pub find_from-get_elem? :
    (k i : ℕ) (l : List ℕ) (a : ℕ)
    → AreDistinct l
    → get_elem? l i ≡ some a
    → find_from k a l ≡ some (k + i)
find_from-get_elem? k i [] a d e = absurd (ground (arith, e))
find_from-get_elem? k zero (b ∷ l) a d e = ground (arith, e)
find_from-get_elem? k (suc i) (b ∷ l) a d e =
    ground (arith, All-get_elem? (λ c. b ≢ c) i l a d.0 e, find_from-get_elem? (suc k) i l a d.1 e)

pub get_elem?-ids_of :
    (entries : List Entry) (i : ℕ)
    → i < length entries
    → (e : Entry) × (get_elem? entries i ≡ some e)
      × (get_elem? (ids_of entries) i ≡ some e.0)
      × (get_elem? (paths_of entries) i ≡ some e.1)
get_elem?-ids_of [] i h = absurd (omega (arith, h))
get_elem?-ids_of (e ∷ entries) zero h = (e, refl, refl, refl)
get_elem?-ids_of (e ∷ entries) (suc i) h = get_elem?-ids_of entries i (omega (arith, h))
