-- ===== src/Storage/Tests.antt =====
-- Two sticks (src/backend/src/storage_events.rs).
use carnine.Prelude.{ℕ, ◌+◌, ◌≡◌, refl, false, Option, none, some, List, [], ◌∷◌, ◌++◌}
use carnine.Prelude.Bytes.{codes, contains}
use carnine.Storage.{
  Signal, Burst, settle, settle_from, quiet_time, max_settle_time, Volume, Volumes, music_found,
  paths_of, update, inspect_and_report, opening, music_volume_gone, discover_music_volume,
}
use carnine.Storage.Settled.{IsSettled, settle-IsSettled}
use carnine.Storage.Replayed.{KeepsItems, replay_all, changes_of, replay_all-changes_of}
use carnine.Storage.Offered.{Action, inspects, act_all, IsOfferOf, act_all-IsOfferOf}

abbrev signal : ℕ → Signal
signal moment = record { moment = moment; is_error = false }

-- A burst of three signals, and one that belongs to the next.
abbrev signals : List Signal
signals = signal 300 ∷ signal 800 ∷ signal 1301 ∷ []

settled :
    settle 0 quiet_time max_settle_time (signal 0 ∷ signals)
    ≡ some (record { count = 3; has_error = false }, signal 1301 ∷ [])
unfolding settle settle_from
settled = refl

-- After a long inspection the four signals are there already.
backlog :
    settle 2000 quiet_time max_settle_time (signal 0 ∷ signals)
    ≡ some (record { count = 4; has_error = false }, [])
unfolding settle settle_from
backlog = refl

settle-IsSettled_example :
    (b : Burst) × (rest taken : List Signal) × (settle 0 quiet_time max_settle_time
        (signal 0 ∷ signals)
      ≡ some (b, rest))
    × (signals ≡ taken ++ rest)
    × IsSettled quiet_time (0 + max_settle_time) 0 1 taken rest b
settle-IsSettled_example = settle-IsSettled 0 quiet_time max_settle_time (signal 0) signals refl

-- Sorting leaves a row of one as it is.
abbrev sort : List (List ℕ) → List (List ℕ)
sort paths = paths

sort-KeepsItems : KeepsItems sort
sort-KeepsItems q paths = refl

abbrev stick : Volume
stick = (codes "MUSIK", codes "/media/a")

abbrev other : Volume
other = (codes "Musik", codes "/media/b")

replay_all-changes_of_example :
    contains
      (codes "/media/b")
      (replay_all (changes_of sort [] ((stick ∷ []) ∷ (other ∷ []) ∷ [])) [])
    ≡ contains (codes "/media/b") (paths_of (other ∷ []))
replay_all-changes_of_example =
    replay_all-changes_of sort sort-KeepsItems ((stick ∷ []) ∷ []) (other ∷ []) (codes "/media/b")

abbrev no_volumes : Volumes
no_volumes = record {
  mounted = [];
  pending = none;
  next_scan_id = 1;
  media_tools_missing = false;
  events = [];
}

abbrev scan : List ℕ → Option ℕ
scan path = some 12

-- The first stick is swapped for the other one, and an inspection fails.
abbrev actions : List (Action sort)
actions =
    inspects scan (some (stick ∷ [])) ∷ inspects scan (some (other ∷ [])) ∷ inspects scan none ∷ []

abbrev swapped : Volumes
swapped = act_all sort no_volumes actions

offer :
    opening swapped
    ≡ music_found (record {
      scan_id = 2;
      label = codes "Musik";
      path = codes "/media/b";
      matching_files = 12;
    })
      ∷ []
unfolding opening inspect_and_report update music_volume_gone discover_music_volume
offer = refl

act_all-IsOfferOf_example : IsOfferOf swapped.mounted swapped.pending
act_all-IsOfferOf_example = act_all-IsOfferOf sort sort-KeepsItems actions no_volumes tt
