-- ===== src/Navigation/Polyline/Total.antt =====
-- Decoding a polyline (src/backend/src/navigation/valhalla.rs) ends.
use carnine.Prelude.{
  ℕ, zero, suc, ◌+◌, ◌-◌, ◌*◌, ◌%◌, ◌^◌, ◌<◌, ◌≤◌, ◌≡◌, inl, inr, some, List, [], ◌∷◌, arith,
  length, Option-cases,
}
use carnine.Navigation.Polyline.{
  next_from, next_value, with_point, plus, Decoded, points, refused, tired, decode_from, decode,
}

-- Each number takes a byte at least.
next_from-shorter :
    (shift result : ℕ) (bytes rest : List ℕ) (v : ℕ)
    → next_from shift result bytes ≡ some (v, rest)
    → length rest < length bytes
unfolding next_from
next_from-shorter shift result [] rest v e = absurd (ground (arith, e))
next_from-shorter shift result (c ∷ bytes) rest v e = ground (
  arith,
  e,
  next_from-shorter (shift + 5) (result + (c - 63) % 32 * 2 ^ shift % 2 ^ 64) bytes rest v,
)

-- The loop came to its end, with at most `n` numbers.
abbrev pub Ends : ℕ → Decoded → Type 0
Ends n (points ps) = 2 * length ps ≤ n
Ends n refused = Unit
Ends n tired = ⊥

with_point-Ends :
    (n m : ℕ) (p : ℕ × ℕ) (d : Decoded) → 2 + m ≤ n → Ends m d → Ends n (with_point p d)
with_point-Ends n m p (points ps) h e = omega (arith, h, e)
with_point-Ends n m p refused h e = tt
with_point-Ends n m p tired h e = e

decode_from-Ends :
    (fuel : ℕ) (before : ℕ × ℕ) (bytes : List ℕ)
    → length bytes ≤ fuel
    → Ends (length bytes) (decode_from fuel before bytes)
unfolding decode_from
decode_from-Ends fuel before [] enough = omega arith
decode_from-Ends zero before (c ∷ bytes) enough = absurd (omega (arith, enough))
decode_from-Ends (suc fuel) before (c ∷ bytes) enough =
    elim (Option-cases (next_value (c ∷ bytes))) [
      | inl e ↦ rw (decode_from, e) tt
      | inr (first, e) ↦ elim (Option-cases (next_value first.1)) [
        | inl f ↦ rw (decode_from, e, f) tt
        | inr (second, f) ↦
            let p : ℕ × ℕ = (plus before.0 first.0, plus before.1 second.0) in
            let shorter = next_from-shorter 0 0 (c ∷ bytes) first.1 first.0 e in
            let shortest = next_from-shorter 0 0 first.1 second.1 second.0 f in
            rw (decode_from, e, f)
              (with_point-Ends (length (c ∷ bytes)) (length second.1) p
                (decode_from fuel p second.1) (omega (arith, shorter, shortest))
                (decode_from-Ends fuel p second.1 (omega (arith, enough, shorter, shortest))))
      ]
    ]

-- Decoding ends on every text: with as much fuel as there are bytes the loop never runs out of it,
-- and a result has at most half as many points as the text has bytes.
pub decode-Ends : (bytes : List ℕ) → Ends (length bytes) (decode bytes)
decode-Ends bytes = decode_from-Ends (length bytes) (0, 0) bytes (omega arith)
