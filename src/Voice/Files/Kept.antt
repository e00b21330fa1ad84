-- ===== src/Voice/Files/Kept.antt =====
-- `speech_file` keeps the cache and its files together (src/backend/src/voice.rs).
use carnine.Prelude.Bytes.Texts.{same_refl, contains-append}
use carnine.Prelude.Bytes.{contains}
use carnine.Prelude.{
  ℕ, suc, ◌<◌, ◌≤◌, ◌≡◌, ◌≢◌, inl, inr, refl, ◌∙◌, Bool, true, false, Option, none, some, List, [],
  ◌∷◌, ◌++◌, arith, length, ltb, if◌then◌else◌, Option-cases,
}
use carnine.MediaPlayer.Queue.Slots.{if_then_else_lem}
use carnine.Voice.Synthesizer.{Synthesizer}
use carnine.Voice.Cache.{
  Store, cache_entries, find_file, without_file, evict, keep, written, synthesized, speech_file,
  drop_oldest,
}
use carnine.Voice.Files.Cover.{IsCovered, without_file-IsCovered, grown-IsCovered}
use carnine.Voice.Files.There.{
  Disk, AreThere, AreThere-le, AreThere-after, AreThere-without_file, AreThere-remove_old,
}

module _ (S : Synthesizer) (disk : Disk S) where
  -- The store with the files of its cache, covered by `order`.
  abbrev KeptWith : List (List ℕ) → Store S → Type 0
  KeptWith order s =
      AreThere S disk s.state s.next_file s.cache.files
      × IsCovered order s.cache.pinned s.cache.files

  abbrev pub IsKept : Store S → Type 0
  IsKept s = KeptWith s.cache.order s × (length s.cache.order ≤ cache_entries)

  evict-IsKept : (order : List (List ℕ)) (s : Store S) → KeptWith order s → IsKept (evict S order s)
  unfolding evict
  evict-IsKept [] s k = (k, omega arith)
  evict-IsKept (oldest ∷ order) s k =
      if_then_else_lem IsKept (ltb cache_entries (length (oldest ∷ order)))
        (λ _. evict-IsKept order (drop_oldest S oldest s) (
          AreThere-remove_old S disk s.state s.next_file oldest s.cache.files k.0,
          without_file-IsCovered oldest order s.cache.pinned s.cache.files k.1,
        ))
        (λ e. (k, ground (arith, e)))

  keep-IsKept :
      (text : List ℕ) (file : ℕ) (s : Store S)
      → AreThere S disk s.state file s.cache.files
      → file < s.next_file
      → disk.is_there file s.state ≡ true
      → IsCovered s.cache.order s.cache.pinned s.cache.files
      → IsKept (keep S text file s)
  unfolding keep
  keep-IsKept text file s there low written c =
      let pinned = s.cache.pinned in
      let wider = s.cache.order ++ text ∷ [] in
      let old = without_file text s.cache.files in
      let order = if contains text pinned then s.cache.order else wider in
      evict-IsKept order (record s { cache = record (s.cache) { files = (text, file) ∷ old } })
        (
          (low, written, AreThere-without_file S disk s.state file text s.cache.files there),
          if_then_else_lem (λ o. IsCovered o pinned ((text, file) ∷ old)) (contains text pinned)
              (λ e. (
                ground (arith, e),
                grown-IsCovered text s.cache.order s.cache.order pinned s.cache.files (λ t h. h) c,
              ))
              (λ _. (
                ground (arith, contains-append text s.cache.order (text ∷ []), same_refl text),
                grown-IsCovered text s.cache.order wider pinned s.cache.files
                    (λ t h. ground (arith, h, contains-append t s.cache.order (text ∷ []))) c,
              )),
        )

  written-IsKept :
      (text : List ℕ) (s : Store S) (r : S.State × Bool)
      → ((m : ℕ) → m ≢ s.next_file → disk.is_there m r.0 ≡ disk.is_there m s.state)
      → (r.1 ≡ true → disk.is_there s.next_file r.0 ≡ true)
      → IsKept s
      → IsKept (written S text s.next_file (record s { next_file = suc s.next_file }) r).0
  written-IsKept text s (t, false) apart done k =
      let there =
        AreThere-after S disk s.state t s.next_file s.cache.files
          (λ m low. apart m (λ e. omega (arith, e, low))) k.0.0 in
      (
        (
          AreThere-le S disk t s.next_file (suc s.next_file) s.cache.files (omega arith) there,
          k.0.1,
        ),
        k.1,
      )
  written-IsKept text s (t, true) apart done k =
      let there =
        AreThere-after S disk s.state t s.next_file s.cache.files
          (λ m low. apart m (λ e. omega (arith, e, low))) k.0.0 in
      keep-IsKept text s.next_file (record s { next_file = suc s.next_file; state = t }) there
        (omega arith) (done refl) k.0.1

  synthesized-IsKept :
      (text : List ℕ) (s : Store S) (r : S.State × Option S.Speech)
      → ((m : ℕ) → disk.is_there m r.0 ≡ disk.is_there m s.state)
      → IsKept s
      → IsKept (synthesized S text s r).0
  synthesized-IsKept text s (t, none) apart k = (
    (AreThere-after S disk s.state t s.next_file s.cache.files (λ m low. apart m) k.0.0, k.0.1),
    k.1,
  )
  synthesized-IsKept text s (t, some speech) apart k =
      written-IsKept text s (S.write_wav s.next_file speech t)
        (λ m other. disk.writes_apart m s.next_file speech t other ∙ apart m)
        (disk.writes s.next_file speech t) k

  pub speech_file-IsKept :
      (text : List ℕ) (s : Store S) → IsKept s → IsKept (speech_file S text s).0
  unfolding speech_file
  speech_file-IsKept text s k = elim (Option-cases (find_file text s.cache.files)) [
    | inl e ↦
        rw (speech_file, e)
          (synthesized-IsKept text s (S.synthesize text s.state)
            (λ m. disk.synthesis_apart text m s.state) k)
    | inr (file, e) ↦ rw (speech_file, e) k
  ]
