-- ===== src/Navigation/Polyline.antt =====
-- `decode_polyline` of src/backend/src/navigation/valhalla.rs. A byte is a number; an `i64` is its
-- 64 bits, a number below 2 ^ 64 in two's complement. The division by the precision is a parameter.
pub mod Encoding
pub mod Total
mod Tests
use carnine.Prelude.{
  ℕ, zero, suc, ◌+◌, ◌-◌, ◌*◌, ◌/◌, ◌%◌, ◌^◌, Bool, true, false, ◌||◌, Option, none, some, List, [],
  ◌∷◌, map, ltb, leb, ◌==◌, if◌then◌else◌, length,
}

-- A signed shift to the right by one bit.
abbrev pub half : ℕ → ℕ
half r = if ltb r (2 ^ 63) then r / 2 else r / 2 + 2 ^ 63

-- The value of a number whose lowest bit is the sign.
unfoldable pub signed : ℕ → ℕ
signed r = if r % 2 == 1 then 2 ^ 64 - 1 - half r else half r

-- The loop of `next_value`, from what has been read. The bits that a byte brings in by `|=` are above
-- all that are there, so they are added.
unfoldable pub next_from : ℕ → ℕ → List ℕ → Option (ℕ × List ℕ)
next_from shift result [] = none
next_from shift result (c ∷ bytes) =
    let byte = c - 63 in
    let read = result + byte % 32 * 2 ^ shift % 2 ^ 64 in
    let more = next_from (shift + 5) read bytes in
    if ltb c 63 || (leb 64 byte || ltb 60 shift)
    then none
    else if ltb byte 32
    then some (signed read, bytes)
    else more

abbrev pub next_value : List ℕ → Option (ℕ × List ℕ)
next_value bytes = next_from 0 0 bytes

-- How decoding ends; `tired` is a loop that has no fuel left.
pub data Decoded : Type 0 where
  points : List (ℕ × ℕ) → Decoded
  refused tired : Decoded

abbrev pub with_point : ℕ × ℕ → Decoded → Decoded
with_point p (points ps) = points (p ∷ ps)
with_point p refused = refused
with_point p tired = tired

-- `i64` addition.
abbrev pub plus : ℕ → ℕ → ℕ
plus a b = (a + b) % 2 ^ 64

-- The loop of `decode_polyline`, from the point before.
unfoldable pub decode_from : ℕ → ℕ × ℕ → List ℕ → Decoded
decode_from fuel before [] = points []
decode_from zero before (c ∷ bytes) = tired
decode_from (suc fuel) before (c ∷ bytes) = elim (next_value (c ∷ bytes)) [
  | none ↦ refused
  | some first ↦ elim (next_value first.1) [
    | none ↦ refused
    | some second ↦
        let p : ℕ × ℕ = (plus before.0 first.0, plus before.1 second.0) in
        with_point p (decode_from fuel p second.1)
  ]
]

abbrev pub decode : List ℕ → Decoded
decode bytes = decode_from (length bytes) (0, 0) bytes

-- The points as `f64` pairs, by what `as f64 / precision` makes of a value.
abbrev as_degrees : {F : Type 0} → (ℕ → F) → Decoded → Option (List (F × F))
as_degrees degrees (points ps) = some (map (λ p. (degrees p.0, degrees p.1)) ps)
as_degrees degrees refused = none
as_degrees degrees tired = none

unfoldable pub decode_polyline : {F : Type 0} → (ℕ → F) → List ℕ → Option (List (F × F))
decode_polyline degrees encoded = as_degrees degrees (decode encoded)
