-- ===== src/Storage/Replayed.antt =====
-- Clients that follow the reported changes know the mounted volumes
-- (src/backend/src/storage_events.rs).
use carnine.Prelude.{ℕ, ◌≡◌, refl, ◌∙◌, arith, ◌&&◌, not, List, [], ◌∷◌, ◌++◌}
use carnine.Prelude.Bytes.{contains}
use carnine.Prelude.Bytes.Texts.{contains-append, contains-same}
use carnine.Storage.{Volume, VolumeChanges, paths_of, to_set, difference, not_among, update}

pub contains-to_set :
    (q : List ℕ) (paths : List (List ℕ)) → contains q (to_set paths) ≡ contains q paths
contains-to_set q [] = refl
contains-to_set q (p ∷ paths) = ground (arith, contains-to_set q paths, contains-same p q paths)

pub contains-difference :
    (q : List ℕ) (paths other : List (List ℕ))
    → contains q (difference paths other) ≡ contains q paths && not (contains q other)
contains-difference q [] other = refl
contains-difference q (p ∷ paths) other =
    ground (arith, contains-difference q paths other, contains-same p q other)

pub contains-not_among :
    (q : List ℕ) (known : List (List ℕ)) (volumes : List Volume)
    → contains q (paths_of (not_among known volumes))
      ≡ contains q (paths_of volumes) && not (contains q known)
contains-not_among q known [] = refl
contains-not_among q known (v ∷ volumes) =
    ground (arith, contains-not_among q known volumes, contains-same v.1 q known)

-- A client that has followed the changes so far, at the next ones.
abbrev pub replay : VolumeChanges → List (List ℕ) → List (List ℕ)
replay changes view = paths_of changes.added ++ difference view changes.removed

abbrev pub replay_all : List VolumeChanges → List (List ℕ) → List (List ℕ)
replay_all [] view = view
replay_all (c ∷ changes) view = replay_all changes (replay c view)

-- What is documented of `Vec::sort`, as far as a set goes: the items stay.
abbrev pub KeepsItems : (List (List ℕ) → List (List ℕ)) → Type 0
KeepsItems sort = (q : List ℕ) (paths : List (List ℕ)) → contains q (sort paths) ≡ contains q paths

module _ (sort : List (List ℕ) → List (List ℕ)) where
  -- The changes of a row of inspections.
  abbrev pub changes_of : List (List ℕ) → List (List Volume) → List VolumeChanges
  changes_of mounted [] = []
  changes_of mounted (present ∷ row) =
      let (now, changes) = update sort mounted present in changes ∷ changes_of now row

  abbrev pub mounted_after : List (List ℕ) → List (List Volume) → List (List ℕ)
  mounted_after mounted [] = mounted
  mounted_after mounted (present ∷ row) = mounted_after (update sort mounted present).0 row

  module _ (keeps : KeepsItems sort) where
    replay-update :
        (q : List ℕ) (mounted view : List (List ℕ)) (present : List Volume)
        → ((p : List ℕ) → contains p view ≡ contains p mounted)
        → let (now, changes) = update sort mounted present in
          (contains q (replay changes view) ≡ contains q now)
          × (contains q now ≡ contains q (paths_of present))
    unfolding update
    replay-update q mounted view present same_view =
        let now = to_set (paths_of present) in
        let gone = difference mounted now in
        let new = paths_of (not_among mounted present) in
        let there = contains-to_set q (paths_of present) in
        (
          ground (
            arith,
            contains-append q new (difference view (sort gone)),
            contains-difference q view (sort gone),
            keeps q gone,
            contains-difference q mounted now,
            contains-not_among q mounted present,
            same_view q,
            there,
          ),
          there,
        )

    replay_all-mounted_after :
        (row : List (List Volume)) (mounted view : List (List ℕ))
        → ((p : List ℕ) → contains p view ≡ contains p mounted)
        → (q : List ℕ)
        → contains q (replay_all (changes_of mounted row) view)
          ≡ contains q (mounted_after mounted row)
    replay_all-mounted_after [] mounted view same_view q = same_view q
    replay_all-mounted_after (present ∷ row) mounted view same_view q =
        let (now, changes) = update sort mounted present in
        replay_all-mounted_after row now (replay changes view)
          (λ p. (replay-update p mounted view present same_view).0) q

    mounted_after-last :
        (row : List (List Volume)) (present : List Volume) (mounted : List (List ℕ)) (q : List ℕ)
        → contains q (mounted_after mounted (row ++ present ∷ [])) ≡ contains q (paths_of present)
    mounted_after-last [] present mounted q =
        (replay-update q mounted mounted present (λ p. refl)).1
    mounted_after-last (p ∷ row) present mounted q =
        mounted_after-last row present (update sort mounted p).0 q

    -- Whatever was mounted at the inspections so far: who starts with nothing, takes away the removed
    -- volumes of each report and adds the added ones has exactly the volumes that were mounted at the
    -- last inspection.
    pub replay_all-changes_of :
        (row : List (List Volume)) (present : List Volume) (q : List ℕ)
        → contains q (replay_all (changes_of [] (row ++ present ∷ [])) [])
          ≡ contains q (paths_of present)
    replay_all-changes_of row present q =
        replay_all-mounted_after (row ++ present ∷ []) [] [] (λ p. refl) q
        ∙ mounted_after-last row present [] q
