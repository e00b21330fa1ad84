-- ===== src/Storage.antt =====
-- Music volumes that come and go: src/backend/src/storage_events.rs, with what
-- src/backend/src/main.rs makes of them for the clients. The mounted volumes themselves come from
-- UDisks2; a set of paths is a list of them.
pub mod Settled
pub mod Replayed
pub mod Offered
mod Tests
use carnine.Prelude.{
  ℕ, suc, ◌+◌, ◌-◌, Bool, true, false, ◌||◌, ◌&&◌, not, Option, none, some, List, [], ◌∷◌, ◌++◌,
  min, max, leb, ◌==◌, if◌then◌else◌,
}
use carnine.Prelude.Bytes.{same, contains}

-- A change of a volume, or an error of the stream, with the moment of its arrival in milliseconds.
pub record Signal : Type 0 where
  pub moment : ℕ
  pub is_error : Bool

pub record Burst : Type 0 where
  pub count : ℕ
  pub has_error : Bool

abbrev pub quiet_time : ℕ
quiet_time = 500

abbrev pub max_settle_time : ℕ
max_settle_time = 5000

-- The loop of `settle`: what it takes, and what is left of the stream.
unfoldable pub settle_from : ℕ → ℕ → ℕ → ℕ → List Signal → Burst × List Signal
settle_from quiet deadline now count [] = (record { count = count; has_error = false }, [])
settle_from quiet deadline now count (s ∷ signals) =
    let wait = min quiet (deadline - now) in
    let rest = settle_from quiet deadline (max now s.moment) (suc count) signals in
    if leb s.moment (now + wait)
    then if s.is_error then (record { count = count; has_error = true }, signals) else rest
    else (record { count = count; has_error = false }, s ∷ signals)

-- `settle`, called at an instant; signals that came before that are taken at once.
unfoldable pub settle : ℕ → ℕ → ℕ → List Signal → Option (Burst × List Signal)
unfolding settle_from
settle called quiet longest [] = none
settle called quiet longest (s ∷ signals) =
    let began = max called s.moment in
    if s.is_error
    then some (record { count = 0; has_error = true }, signals)
    else some (settle_from quiet (began + longest) began 1 signals)

-- A label and a mount path.
abbrev pub Volume : Type 0
Volume = List ℕ × List ℕ

abbrev pub paths_of : List Volume → List (List ℕ)
paths_of [] = []
paths_of (v ∷ volumes) = v.1 ∷ paths_of volumes

-- A path that stands twice stands once in a set.
abbrev pub to_set : List (List ℕ) → List (List ℕ)
to_set [] = []
to_set (p ∷ paths) = if contains p paths then to_set paths else p ∷ to_set paths

abbrev pub difference : List (List ℕ) → List (List ℕ) → List (List ℕ)
difference [] other = []
difference (p ∷ paths) other =
    if contains p other then difference paths other else p ∷ difference paths other

abbrev pub not_among : List (List ℕ) → List Volume → List Volume
not_among known [] = []
not_among known (v ∷ volumes) =
    if contains v.1 known then not_among known volumes else v ∷ not_among known volumes

pub record VolumeChanges : Type 0 where
  pub added : List Volume
  pub removed : List (List ℕ)

-- `Vec::sort` is a parameter.
module _ (sort : List (List ℕ) → List (List ℕ)) where
  -- `KnownVolumes::update`; the known volumes are the mounted paths.
  unfoldable pub update : List (List ℕ) → List Volume → List (List ℕ) × VolumeChanges
  update mounted present =
      let now = to_set (paths_of present) in
      (now, record { added = not_among mounted present; removed = sort (difference mounted now) })

-- The offer of a volume to the clients.
pub record Offer : Type 0 where
  pub scan_id : ℕ
  pub label : List ℕ
  pub path : List ℕ
  pub matching_files : ℕ

pub data VolumeEvent : Type 0 where
  tools_missing : VolumeEvent
  music_found : Offer → VolumeEvent
  music_gone : List ℕ → VolumeEvent

-- What `MediaServiceImpl` keeps of the volumes, and the known volumes of the listener.
pub record Volumes : Type 0 where
  pub mounted : List (List ℕ)
  pub pending : Option Offer
  pub next_scan_id : ℕ
  pub media_tools_missing : Bool
  -- The latest first.
  pub events : List VolumeEvent

abbrev pub is_offered : List ℕ → Option Offer → Bool
is_offered path none = false
is_offered path (some offer) = same offer.path path

unfoldable pub music_volume_gone : List ℕ → Volumes → Volumes
music_volume_gone path v = record v {
  pending = if is_offered path v.pending then none else v.pending;
  events = music_gone path ∷ v.events;
}

abbrev pub found : Volume → ℕ → Volumes → Volumes
found volume files v =
    let offer : Offer = record {
      scan_id = v.next_scan_id;
      label = volume.0;
      path = volume.1;
      matching_files = files;
    } in
    record v {
      next_scan_id = suc v.next_scan_id;
      pending = some offer;
      events = music_found offer ∷ v.events;
    }

-- With the number of music files that a scan of the path finds; none is an error.
unfoldable pub discover_music_volume : (List ℕ → Option ℕ) → Volume → Volumes → Volumes
discover_music_volume scan volume v = elim (scan volume.1) [
  | none ↦ v
  | some files ↦ if files == 0 then v else found volume files v
]

unfoldable pub clear_pending_music_volume : Volumes → Volumes
clear_pending_music_volume v = record v { pending = none }

abbrev pub all_gone : List (List ℕ) → Volumes → Volumes
all_gone [] v = v
all_gone (path ∷ paths) v = all_gone paths (music_volume_gone path v)

abbrev pub all_found : (List ℕ → Option ℕ) → List Volume → Volumes → Volumes
all_found scan [] v = v
all_found scan (volume ∷ volumes) v = all_found scan volumes (discover_music_volume scan volume v)

module _ (sort : List (List ℕ) → List (List ℕ)) where
  -- With the mounted volumes that UDisks2 answers, or none for an error.
  unfoldable pub inspect_and_report : (List ℕ → Option ℕ) → Option (List Volume) → Volumes → Volumes
  unfolding update
  inspect_and_report scan none v = v
  inspect_and_report scan (some present) v =
      let (mounted, changes) = update sort v.mounted present in
      all_found scan changes.added (all_gone changes.removed (record v { mounted = mounted }))

abbrev pub replayed : Option Offer → List VolumeEvent
replayed none = []
replayed (some offer) = music_found offer ∷ []

-- How the stream of a client that connects begins.
unfoldable pub opening : Volumes → List VolumeEvent
opening v = if v.media_tools_missing then tools_missing ∷ replayed v.pending else replayed v.pending
