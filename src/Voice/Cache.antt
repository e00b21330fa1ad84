-- ===== src/Voice/Cache.antt =====
-- `Cache` and `speech_file` of src/backend/src/voice.rs: the texts that were synthesized, and their
-- files.
use carnine.Prelude.{
  ℕ, suc, Bool, true, false, Option, none, some, List, [], ◌∷◌, ◌++◌, ltb, if◌then◌else◌, length,
}
use carnine.Prelude.Bytes.{same, contains}
use carnine.Voice.Synthesizer.{Synthesizer}

-- `CACHE_ENTRIES`
abbrev pub cache_entries : ℕ
cache_entries = 200

-- `HashMap::get` and `HashMap::remove`, over a list of the keys with their values.
abbrev pub find_file : List ℕ → List (List ℕ × ℕ) → Option ℕ
find_file text [] = none
find_file text (e ∷ files) = if same e.0 text then some e.1 else find_file text files

abbrev pub without_file : List ℕ → List (List ℕ × ℕ) → List (List ℕ × ℕ)
without_file text [] = []
without_file text (e ∷ files) =
    if same e.0 text then without_file text files else e ∷ without_file text files

pub record Cache : Type 0 where
  pub files : List (List ℕ × ℕ)
  pub order : List (List ℕ)
  pub pinned : List (List ℕ)

module _ (S : Synthesizer) where
  open S use {State, Speech, synthesize, write_wav, remove_file}

  -- The cache with the files behind it, and the number of the next file.
  pub record Store : Type 0 where
    pub state : State
    pub cache : Cache
    pub next_file : ℕ

  abbrev pub remove_old : Option ℕ → State → State
  remove_old none s = s
  remove_old (some file) s = remove_file file s

  abbrev pub drop_oldest : List ℕ → Store → Store
  drop_oldest oldest s = record s {
    state = remove_old (find_file oldest s.cache.files) s.state;
    cache = record (s.cache) { files = without_file oldest s.cache.files };
  }

  abbrev pub with_order : List (List ℕ) → Store → Store
  with_order order s = record s { cache = record (s.cache) { order = order } }

  -- The loop that drops the oldest texts above the limit, over what is left of the order.
  unfoldable pub evict : List (List ℕ) → Store → Store
  evict [] s = with_order [] s
  evict (oldest ∷ order) s =
      let dropped = evict order (drop_oldest oldest s) in
      if ltb cache_entries (length (oldest ∷ order)) then dropped else with_order (oldest ∷ order) s

  -- A text whose file was written.
  unfoldable pub keep : List ℕ → ℕ → Store → Store
  unfolding evict
  keep text file s =
      let c = s.cache in
      let order = if contains text c.pinned then c.order else c.order ++ text ∷ [] in
      evict order
        (record s { cache = record c { files = (text, file) ∷ without_file text c.files } })

  abbrev pub written : List ℕ → ℕ → Store → State × Bool → Store × Option ℕ
  written text file s (t, false) = (record s { state = t }, none)
  written text file s (t, true) = (keep text file (record s { state = t }), some file)

  abbrev pub synthesized : List ℕ → Store → State × Option Speech → Store × Option ℕ
  synthesized text s (t, none) = (record s { state = t }, none)
  synthesized text s (t, some speech) =
      written text s.next_file (record s { next_file = suc s.next_file })
        (write_wav s.next_file speech t)

  unfoldable pub speech_file : List ℕ → Store → Store × Option ℕ
  speech_file text s = elim (find_file text s.cache.files) [
    | some file ↦ (s, some file)
    | none ↦ synthesized text s (synthesize text s.state)
  ]
