-- ===== src/Voice/Files/There.antt =====
-- The files of the voice's cache are there (src/backend/src/voice.rs).
use carnine.Prelude.{
  ℕ, ◌<◌, ◌≤◌, ◌≡◌, ◌≢◌, inl, inr, refl, ◌∙◌, Bool, true, Option, none, some, List, [], ◌∷◌, arith,
  Bool-cases,
}
use carnine.Prelude.Bytes.{same}
use carnine.MediaPlayer.Queue.Slots.{if_then_else_lem}
use carnine.Voice.Synthesizer.{Synthesizer}
use carnine.Voice.Cache.{find_file, without_file, remove_old}

module _ (S : Synthesizer) where
  -- What the voice takes for granted of its directory: a file that was written is there, and no
  -- other file comes or goes with it, with a removal, or with a synthesis.
  pub record Disk : Type 0 where
    pub is_there : ℕ → S.State → Bool
    pub synthesis_apart :
        (text : List ℕ) (n : ℕ) (s : S.State) → is_there n (S.synthesize text s).0 ≡ is_there n s
    pub writes :
        (n : ℕ) (speech : S.Speech) (s : S.State)
        → (S.write_wav n speech s).1 ≡ true
        → is_there n (S.write_wav n speech s).0 ≡ true
    pub writes_apart :
        (m n : ℕ) (speech : S.Speech) (s : S.State)
        → m ≢ n
        → is_there m (S.write_wav n speech s).0 ≡ is_there m s
    pub removes_apart :
        (m n : ℕ) (s : S.State) → m ≢ n → is_there m (S.remove_file n s) ≡ is_there m s

  module _ (disk : Disk) where
    -- The files of the cache are there; their numbers are below `n` and fall strictly.
    abbrev pub AreThere : S.State → ℕ → List (List ℕ × ℕ) → Type 0
    AreThere s n [] = Unit
    AreThere s n (e ∷ files) = (e.1 < n) × (disk.is_there e.1 s ≡ true) × AreThere s e.1 files

    pub AreThere-le :
        (s : S.State) (m n : ℕ) (files : List (List ℕ × ℕ))
        → m ≤ n
        → AreThere s m files
        → AreThere s n files
    AreThere-le s m n [] h f = tt
    AreThere-le s m n (e ∷ files) h f = (omega (arith, f.0, h), f.1, f.2)

    pub AreThere-after :
        (s t : S.State) (n : ℕ) (files : List (List ℕ × ℕ))
        → ((m : ℕ) → m < n → disk.is_there m t ≡ disk.is_there m s)
        → AreThere s n files
        → AreThere t n files
    AreThere-after s t n [] apart f = tt
    AreThere-after s t n (e ∷ files) apart f = (
      f.0,
      apart e.1 f.0 ∙ f.1,
      AreThere-after s t e.1 files (λ m low. apart m (omega (arith, low, f.0))) f.2,
    )

    pub AreThere-without_file :
        (s : S.State) (n : ℕ) (text : List ℕ) (files : List (List ℕ × ℕ))
        → AreThere s n files
        → AreThere s n (without_file text files)
    AreThere-without_file s n text [] f = tt
    AreThere-without_file s n text (e ∷ files) f =
        let rest = AreThere-without_file s e.1 text files f.2 in
        if_then_else_lem (AreThere s n) (same e.0 text)
          (λ _. AreThere-le s e.1 n (without_file text files) (omega (arith, f.0)) rest)
          (λ _. (f.0, f.1, rest))

    pub find_file-lt :
        (s : S.State) (n : ℕ) (text : List ℕ) (files : List (List ℕ × ℕ)) (m : ℕ)
        → AreThere s n files
        → find_file text files ≡ some m
        → (m < n) × (disk.is_there m s ≡ true)
    find_file-lt s n text [] m f e = absurd (ground (arith, e))
    find_file-lt s n text (x ∷ files) m f e =
        ground (arith, e, f.0, f.1, find_file-lt s x.1 text files m f.2)

    pub remove_old_apart :
        (s : S.State) (n : ℕ) (found : Option ℕ)
        → ((m : ℕ) → found ≡ some m → m < n)
        → disk.is_there n (remove_old S found s) ≡ disk.is_there n s
    remove_old_apart s n none low = refl
    remove_old_apart s n (some m) low = disk.removes_apart n m s (λ e. omega (arith, e, low m refl))

    pub AreThere-remove_old :
        (s : S.State) (n : ℕ) (text : List ℕ) (files : List (List ℕ × ℕ))
        → AreThere s n files
        → AreThere (remove_old S (find_file text files) s) n (without_file text files)
    AreThere-remove_old s n text [] f = tt
    AreThere-remove_old s n text (e ∷ files) f = elim (Bool-cases (same e.0 text)) [
      | inl h ↦
          let t = S.remove_file e.1 s in
          rw h (
            AreThere-le t e.1 n (without_file text files) (omega (arith, f.0)) (
              AreThere-without_file t e.1 text files (
                AreThere-after s t e.1 files
                  (λ m low. disk.removes_apart m e.1 s (λ q. omega (arith, q, low))) f.2)))
      | inr h ↦ rw h (
        f.0,
        remove_old_apart s e.1 (find_file text files)
              (λ m q. (find_file-lt s e.1 text files m f.2 q).0)
            ∙ f.1,
        AreThere-remove_old s e.1 text files f.2,
      )
    ]
