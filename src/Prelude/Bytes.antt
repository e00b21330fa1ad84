-- ===== src/Prelude/Bytes.antt =====
-- Bytes and ASCII text as lists of numbers: classes of characters, decimal numbers, trimming, and
-- splitting as Rust's `str` methods do it on ASCII.
pub mod Trim
pub mod Decimal
pub mod Texts
use carnine.Prelude.Tests.{leb, ltb, ◌==◌, if◌then◌else◌}
use Prim.Native.Nat.{ℕ, ◌+◌, ◌-◌, ◌*◌}
use Prim.Native.Char.{code}
use Prim.Native.String.{String}
use mathlib.Core.Bool.{Bool, true, false, not, ◌&&◌, ◌||◌}
use mathlib.Core.Option.{Option, none, some}
use mathlib.Core.List.{List, [], ◌∷◌, ◌++◌}
use carnine.Prelude.Lists.{all}

-- The code points of a text: its bytes, if it is ASCII.
abbrev pub codes : String → List ℕ
codes String.[] = []
codes (String.◌∷◌ c s) = code c ∷ codes s

-- `u8::is_ascii_digit`
abbrev pub is_digit : ℕ → Bool
is_digit c = leb b'0' c && leb c b'9'

-- `u8::is_ascii_graphic`
abbrev pub is_graphic : ℕ → Bool
is_graphic c = leb 0x21 c && leb c 0x7e

-- `char::is_whitespace` on ASCII
abbrev pub is_whitespace : ℕ → Bool
is_whitespace c = (leb 9 c && leb c 13) || c == 32

abbrev pub is_empty {ℓ} : {A : Type ℓ} → List A → Bool
is_empty [] = true
is_empty (x ∷ xs) = false

-- `str::trim_start` and `str::trim_end`: what is cut away is white space only.
abbrev pub trim_start : List ℕ → List ℕ
trim_start [] = []
trim_start (c ∷ s) = if is_whitespace c then trim_start s else c ∷ s

abbrev pub keep_end : ℕ → List ℕ → List ℕ
keep_end c [] = if is_whitespace c then [] else c ∷ []
keep_end c (d ∷ s) = c ∷ d ∷ s

abbrev pub trim_end : List ℕ → List ℕ
trim_end [] = []
trim_end (c ∷ s) = keep_end c (trim_end s)

abbrev pub trim : List ℕ → List ℕ
trim s = trim_end (trim_start s)

-- The value of a row of digits, with what stands to their left.
abbrev pub decimal_from : ℕ → List ℕ → ℕ
decimal_from acc [] = acc
decimal_from acc (d ∷ ds) = decimal_from (acc * 10 + (d - b'0')) ds

-- `str::parse` to an unsigned type with `limit` values, on a text of digits: an overflow is an error.
abbrev pub parse_below : ℕ → List ℕ → Option ℕ
parse_below limit ds = let n = decimal_from 0 ds in if ltb n limit then some n else none

-- `str::parse` to an unsigned type with `limit` values: a plus sign may stand before the digits.
abbrev pub digits_below : ℕ → List ℕ → Option ℕ
digits_below limit s = if is_empty s || not (all is_digit s) then none else parse_below limit s

abbrev pub parse_unsigned : ℕ → List ℕ → Option ℕ
parse_unsigned limit [] = none
parse_unsigned limit (c ∷ s) =
    if c == b'+' then digits_below limit s else digits_below limit (c ∷ s)

-- `str::split_whitespace`, with the word that has begun.
abbrev pub flush : List ℕ → List (List ℕ) → List (List ℕ)
flush [] rest = rest
flush (c ∷ w) rest = (c ∷ w) ∷ rest

abbrev pub words_from : List ℕ → List ℕ → List (List ℕ)
words_from w [] = flush w []
words_from w (c ∷ s) =
    if is_whitespace c then flush w (words_from [] s) else words_from (w ++ c ∷ []) s

-- Byte-wise equality of two texts.
abbrev pub same : List ℕ → List ℕ → Bool
same [] [] = true
same [] (d ∷ ds) = false
same (c ∷ cs) [] = false
same (c ∷ cs) (d ∷ ds) = c == d && same cs ds

-- `contains` of a list or a set of texts.
abbrev pub contains : List ℕ → List (List ℕ) → Bool
contains text [] = false
contains text (t ∷ ts) = same t text || contains text ts

-- `char::to_ascii_lowercase`
abbrev pub to_lower : ℕ → ℕ
to_lower c = if leb b'A' c && leb c b'Z' then c + 32 else c
