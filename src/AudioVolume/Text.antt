-- ===== src/AudioVolume/Text.antt =====
-- The texts of src/backend/src/audio_volume.rs: the state file, the arguments and the output of the
-- programs. A text is a list of ASCII codes.
use carnine.Prelude.{
  ℕ, Bool, ◌^◌, Option, none, some, List, [], ◌∷◌, ◌++◌, ◌==◌, leb, if◌then◌else◌,
}
use carnine.Prelude.Bytes.{codes, same, is_digit, parse_unsigned, words_from}
use carnine.Prelude.Bytes.Decimal.{decimal}

pub data SavedVolume : Type 0 where
  raw mapped : ℕ → SavedVolume

abbrev pub mapped_marker : List ℕ
mapped_marker = codes "mapped"

-- `filter(|p| *p <= 100)`
abbrev pub at_most_100 : Option ℕ → Option ℕ
at_most_100 none = none
at_most_100 (some n) = if leb n 100 then some n else none

abbrev pub percent_of : List ℕ → Option ℕ
percent_of word = at_most_100 (parse_unsigned (2 ^ 8) word)

-- The words after the number.
abbrev pub marked : ℕ → List (List ℕ) → Option SavedVolume
marked percent [] = some (raw percent)
marked percent (w ∷ []) = if same w mapped_marker then some (mapped percent) else none
marked percent (w ∷ v ∷ vs) = none

abbrev pub saved_of : List (List ℕ) → Option SavedVolume
saved_of [] = none
saved_of (w ∷ ws) = elim (percent_of w) [ none ↦ none | some percent ↦ marked percent ws ]

unfoldable pub parse_state : List ℕ → Option SavedVolume
parse_state text = saved_of (words_from [] text)

unfoldable pub format_state : ℕ → List ℕ
format_state percent = decimal percent ++ (b' ' ∷ (mapped_marker ++ (b'\n' ∷ [])))

unfoldable pub initial_percent : Option SavedVolume → ℕ
initial_percent none = 50
initial_percent (some (raw percent)) = percent
initial_percent (some (mapped percent)) = percent

-- `match_indices('%')`, with the digits that stand right before.
unfoldable pub percent_from : List ℕ → List ℕ → Option ℕ
percent_from digits [] = none
percent_from digits (c ∷ text) =
    if is_digit c
    then percent_from (digits ++ c ∷ []) text
    else if c == b'%'
    then (elim (percent_of digits) [ none ↦ percent_from [] text | some n ↦ some n ])
    else percent_from [] text

unfoldable pub parse_first_percent : List ℕ → Option ℕ
parse_first_percent text = percent_from [] text

abbrev pub value_args : Option ℕ → List (List ℕ)
value_args none = []
value_args (some percent) = (decimal percent ++ b'%' ∷ []) ∷ []

unfoldable pub amixer_args : Bool → List ℕ → Option ℕ → List (List ℕ)
amixer_args is_mapped command value =
    (if is_mapped then codes "-M" ∷ [] else [])
    ++ codes "-c" ∷ codes "0" ∷ command ∷ codes "PCM" ∷ value_args value
