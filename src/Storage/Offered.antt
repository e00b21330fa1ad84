-- ===== src/Storage/Offered.antt =====
-- What is offered to the clients is there (src/backend/src/storage_events.rs,
-- src/backend/src/main.rs).
use carnine.Prelude.{
  All, ℕ, ◌≡◌, inl, inr, refl, sym, subst, ◌∙◌, arith, true, ◌||◌, Option, none, some, List, [],
  ◌∷◌, ◌==◌, if◌then◌else◌, Option-cases,
}
use carnine.Prelude.Bytes.{same, contains}
use carnine.Prelude.Bytes.Texts.{same_refl, same_sym}
use carnine.MediaPlayer.Queue.Slots.{if_then_else_lem}
use carnine.Storage.{
  Volume, Volumes, Offer, paths_of, to_set, difference, not_among, update, all_gone, all_found,
  music_volume_gone, discover_music_volume, inspect_and_report, clear_pending_music_volume,
  is_offered,
}
use carnine.Storage.Replayed.{KeepsItems, contains-difference, contains-to_set}

-- The offer, if there is one, is of a path in the list.
abbrev pub IsOfferOf : List (List ℕ) → Option Offer → Type 0
IsOfferOf paths none = Unit
IsOfferOf paths (some offer) = contains offer.path paths ≡ true

-- An offer of a volume that is mounted, or about to be reported as gone.
abbrev IsOfferOfEither : List (List ℕ) → List (List ℕ) → Option Offer → Type 0
IsOfferOfEither mounted gone none = Unit
IsOfferOfEither mounted gone (some offer) =
    contains offer.path mounted || contains offer.path gone ≡ true

gone-IsOfferOfEither :
    (path : List ℕ) (gone : List (List ℕ)) (mounted : List (List ℕ)) (offer : Option Offer)
    → IsOfferOfEither mounted (path ∷ gone) offer
    → IsOfferOfEither mounted gone (if is_offered path offer then none else offer)
gone-IsOfferOfEither path gone mounted none h = tt
gone-IsOfferOfEither path gone mounted (some offer) h =
    if_then_else_lem (IsOfferOfEither mounted gone) (same offer.path path) (λ e. tt)
      λ e. ground (arith, h, e, same_sym path offer.path)

none_gone :
    (mounted : List (List ℕ)) (offer : Option Offer)
    → IsOfferOfEither mounted [] offer
    → IsOfferOf mounted offer
none_gone mounted none h = tt
none_gone mounted (some offer) h = ground (arith, h)

all_gone-IsOfferOf :
    (gone : List (List ℕ)) (mounted : List (List ℕ)) (v : Volumes)
    → v.mounted ≡ mounted
    → IsOfferOfEither mounted gone v.pending
    → let w = all_gone gone v in IsOfferOf mounted w.pending × (w.mounted ≡ mounted)
unfolding music_volume_gone
all_gone-IsOfferOf [] mounted v e h = (none_gone mounted v.pending h, e)
all_gone-IsOfferOf (path ∷ gone) mounted v e h =
    all_gone-IsOfferOf gone mounted (music_volume_gone path v) e
      (gone-IsOfferOfEither path gone mounted v.pending h)

-- All of these are mounted.
abbrev AreMounted : List (List ℕ) → List Volume → Type 0
AreMounted mounted volumes = All (λ (v : Volume). contains v.1 mounted ≡ true) volumes

discover-IsOfferOf :
    (scan : List ℕ → Option ℕ) (volume : Volume) (mounted : List (List ℕ)) (v : Volumes)
    → contains volume.1 mounted ≡ true
    → IsOfferOf mounted v.pending
    → let w = discover_music_volume scan volume v in
      IsOfferOf mounted w.pending × (w.mounted ≡ v.mounted)
unfolding discover_music_volume
discover-IsOfferOf scan volume mounted v there h = elim (Option-cases (scan volume.1)) [
  | inl e ↦ rw (discover_music_volume, e) (h, refl)
  | inr (files, e) ↦
      rw (discover_music_volume, e)
        (if_then_else_lem (λ (w : Volumes). IsOfferOf mounted w.pending × (w.mounted ≡ v.mounted))
          (files == 0) (λ _. (h, refl)) (λ _. (there, refl)))
]

all_found-IsOfferOf :
    (scan : List ℕ → Option ℕ) (volumes : List Volume) (mounted : List (List ℕ)) (v : Volumes)
    → AreMounted mounted volumes
    → IsOfferOf mounted v.pending
    → let w = all_found scan volumes v in IsOfferOf mounted w.pending × (w.mounted ≡ v.mounted)
all_found-IsOfferOf scan [] mounted v there h = (h, refl)
all_found-IsOfferOf scan (volume ∷ volumes) mounted v there h =
    let one = discover-IsOfferOf scan volume mounted v there.0 h in
    let all =
      all_found-IsOfferOf scan volumes mounted (discover_music_volume scan volume v) there.1
        one.0 in
    (all.0, all.1 ∙ one.1)

not_among-AreMounted :
    (known now : List (List ℕ)) (volumes : List Volume)
    → ((q : List ℕ) → contains q (paths_of volumes) ≡ true → contains q now ≡ true)
    → AreMounted now (not_among known volumes)
not_among-AreMounted known now [] within = tt
not_among-AreMounted known now (v ∷ volumes) within =
    let rest = not_among-AreMounted known now volumes (λ q h. within q (ground (arith, h))) in
    if_then_else_lem (AreMounted now) (contains v.1 known) (λ _. rest)
      λ _. (within v.1 (ground (arith, same_refl v.1)), rest)

module _ (sort : List (List ℕ) → List (List ℕ)) where
  -- What the listener and an import that has been completed do.
  pub data Action : Type 0 where
    inspects : (List ℕ → Option ℕ) → Option (List Volume) → Action
    imports : Action

  abbrev pub act : Volumes → Action → Volumes
  act v (inspects scan present) = inspect_and_report sort scan present v
  act v imports = clear_pending_music_volume v

  abbrev pub act_all : Volumes → List Action → Volumes
  act_all v [] = v
  act_all v (a ∷ actions) = act_all (act v a) actions

  module _ (keeps : KeepsItems sort) where
    before-IsOfferOfEither :
        (old now : List (List ℕ)) (offer : Option Offer)
        → IsOfferOf old offer
        → IsOfferOfEither now (sort (difference old now)) offer
    before-IsOfferOfEither old now none h = tt
    before-IsOfferOfEither old now (some offer) h =
        ground
          (arith, h, keeps offer.path (difference old now), contains-difference offer.path old now)

    inspect-IsOfferOf :
        (scan : List ℕ → Option ℕ) (present : Option (List Volume)) (v : Volumes)
        → IsOfferOf v.mounted v.pending
        → let w = inspect_and_report sort scan present v in IsOfferOf w.mounted w.pending
    unfolding inspect_and_report update
    inspect-IsOfferOf scan none v h = h
    inspect-IsOfferOf scan (some present) v h =
        let now = to_set (paths_of present) in
        let gone = sort (difference v.mounted now) in
        let added = not_among v.mounted present in
        let v' = record v { mounted = now } in
        let left =
          all_gone-IsOfferOf gone now v' refl (before-IsOfferOfEither v.mounted now v.pending h) in
        let offered =
          all_found-IsOfferOf scan added now (all_gone gone v')
            (not_among-AreMounted v.mounted now present
              (λ q e. contains-to_set q (paths_of present) ∙ e))
            left.0 in
        subst (λ m. IsOfferOf m (all_found scan added (all_gone gone v')).pending)
          (sym (offered.1 ∙ left.1)) offered.0

    -- Whatever the inspections find, some of which may fail, and whatever is imported meanwhile: a
    -- volume that is pending, for the clients that connect, was mounted at the last inspection that
    -- did not fail.
    pub act_all-IsOfferOf :
        (actions : List Action) (v : Volumes)
        → IsOfferOf v.mounted v.pending
        → let w = act_all v actions in IsOfferOf w.mounted w.pending
    unfolding clear_pending_music_volume
    act_all-IsOfferOf [] v h = h
    act_all-IsOfferOf (inspects scan present ∷ actions) v h =
        act_all-IsOfferOf actions (inspect_and_report sort scan present v)
          (inspect-IsOfferOf scan present v h)
    act_all-IsOfferOf (imports ∷ actions) v h =
        act_all-IsOfferOf actions (clear_pending_music_volume v) tt
