-- ===== src/Navigation/Polyline/Tests.antt =====
-- Encoded polylines (src/backend/src/navigation/valhalla.rs), with the example of the format's
-- description.
use carnine.Prelude.{ℕ, ◌-◌, ◌^◌, ◌≡◌, inl, inr, refl, arith, none, [], ◌∷◌}
use carnine.Prelude.Bytes.{codes}
use carnine.Navigation.Polyline.{
  points, refused, signed, next_from, decode_from, decode, decode_polyline,
}
use carnine.Navigation.Polyline.Total.{Ends, decode-Ends}
use carnine.Navigation.Polyline.Encoding.{chunks, encode_from, AreNear, decode-encode_from}

-- 38.5 north and 120.2 west, with five digits.
abbrev place : ℕ × ℕ
place = (3_850_000, 2 ^ 64 - 12_020_000)

encoded : encode_from (0, 0) (place ∷ []) ≡ codes "_p~iF~ps|U"
unfolding encode_from chunks
encoded = refl

decoded : decode (codes "_p~iF~ps|U") ≡ points (place ∷ [])
unfolding decode_from next_from signed
decoded = refl

half_a_point : decode (codes "_p~iF") ≡ refused
unfolding decode_from next_from signed
half_a_point = refl

no_polyline : decode_polyline (λ n. n) (codes "_p~iF ~") ≡ none
unfolding decode_polyline decode_from next_from signed
no_polyline = refl

place_near : AreNear (0, 0) (place ∷ place ∷ [])
place_near = (
  omega arith,
  omega arith,
  inl (omega arith),
  inr (omega arith, omega arith),
  (omega arith, omega arith, inl (omega arith), inl (omega arith), tt),
)

decode-encode_from_example :
    decode (encode_from (0, 0) (place ∷ place ∷ [])) ≡ points (place ∷ place ∷ [])
decode-encode_from_example = decode-encode_from (place ∷ place ∷ []) place_near

decode-Ends_example : Ends 5 (decode (codes "_p~iF"))
decode-Ends_example = decode-Ends (codes "_p~iF")
