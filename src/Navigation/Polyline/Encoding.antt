-- ===== src/Navigation/Polyline/Encoding.antt =====
-- The encoding that `decode_polyline` (src/backend/src/navigation/valhalla.rs) reads, as the format
-- of encoded polylines describes it, and the round trip.
use carnine.Prelude.{
  ℕ, zero, suc, ◌+◌, ◌-◌, ◌*◌, ◌/◌, ◌%◌, ◌^◌, ◌<◌, ◌≤◌, ◌≡◌, ◌⊎◌, inl, inr, refl, ap, ◌∙◌, some,
  List, [], ◌∷◌, ◌++◌, arith, ltb, if◌then◌else◌, length, Bool-cases,
}
use native.Mathlib.Nat.{pow-suc}
use carnine.Navigation.Polyline.{
  signed, next_from, next_value, points, plus, with_point, decode_from, decode,
}

-- The number without its sign, which becomes the lowest bit.
abbrev pub unsigned : ℕ → ℕ
unsigned v = if ltb v (2 ^ 63) then 2 * v else 2 * (2 ^ 64 - 1 - v) + 1

-- Five bits in a byte, the lowest first.
unfoldable pub chunks : ℕ → ℕ → List ℕ
chunks zero z = (z + 63) ∷ []
chunks (suc n) z = if ltb z 32 then (z + 63) ∷ [] else (z % 32 + 32 + 63) ∷ chunks n (z / 32)

ring_step : (q r m : ℕ) → (q * 32 + r) * m ≡ q * (m * 32) + r * m
ring_step q r m = grind arith

split_low : (z m : ℕ) → z * m ≡ z / 32 * (m * 32) + z % 32 * m
split_low z m =
    let whole : z ≡ z / 32 * 32 + z % 32 = omega arith in
    ap (λ x. x * m) whole ∙ ring_step (z / 32) (z % 32) m

signed-unsigned :
    (v : ℕ) → (v < 2 ^ 62) ⊎ (2 ^ 64 - 2 ^ 62 ≤ v × v < 2 ^ 64) → signed (unsigned v) ≡ v
unfolding signed
signed-unsigned v h = ground (arith, h)

pow_five : (shift : ℕ) → 2 ^ (shift + 5) ≡ 2 ^ shift * 32
pow_five shift = grind (
  arith,
  pow-suc 2 shift,
  pow-suc 2 (shift + 1),
  pow-suc 2 (shift + 2),
  pow-suc 2 (shift + 3),
  pow-suc 2 (shift + 4),
)

-- A byte that ends a number, and one that does not.
next_from-last :
    (shift result z : ℕ) (rest : List ℕ)
    → shift ≤ 60
    → z < 32
    → z * 2 ^ shift < 2 ^ 64
    → next_from shift result ((z + 63) ∷ rest) ≡ some (signed (result + z * 2 ^ shift), rest)
unfolding next_from
next_from-last shift result z rest low small fits =
    let byte : z + 63 - 63 ≡ z = omega arith in
    let five : z % 32 ≡ z = omega (arith, small) in
    let whole : z * 2 ^ shift % 2 ^ 64 ≡ z * 2 ^ shift = omega (arith, fits) in
    rw (byte, five, whole) (ground (arith, low, small))

next_from-more :
    (shift result z : ℕ) (bytes : List ℕ)
    → shift ≤ 60
    → z * 2 ^ shift < 2 ^ 64
    → next_from shift result ((z % 32 + 32 + 63) ∷ bytes)
      ≡ next_from (shift + 5) (result + z % 32 * 2 ^ shift) bytes
unfolding next_from
next_from-more shift result z bytes low fits =
    let byte : z % 32 + 32 + 63 - 63 ≡ z % 32 + 32 = omega arith in
    let five : (z % 32 + 32) % 32 ≡ z % 32 = omega arith in
    let part : z % 32 * 2 ^ shift < 2 ^ 64 = omega (arith, fits, split_low z (2 ^ shift)) in
    let whole : z % 32 * 2 ^ shift % 2 ^ 64 ≡ z % 32 * 2 ^ shift = omega (arith, part) in
    rw (byte, five, whole) (ground (arith, low))

next_from-chunks :
    (n z shift result : ℕ) (rest : List ℕ)
    → shift + 5 * n ≤ 60
    → z < 32 * 32 ^ n
    → result + z * 2 ^ shift < 2 ^ 64
    → next_from shift result (chunks n z ++ rest) ≡ some (signed (result + z * 2 ^ shift), rest)
unfolding chunks
next_from-chunks zero z shift result rest low small fits =
    next_from-last shift result z rest (omega (arith, low)) small (omega (arith, fits))
next_from-chunks (suc n) z shift result rest low small fits = elim (Bool-cases (ltb z 32)) [
  | inl e ↦ rw e (
      next_from-last shift result z rest (omega (arith, low)) (ground (arith, e))
        (omega (arith, fits)))
  | inr e ↦
      let all_in : result + z % 32 * 2 ^ shift + z / 32 * 2 ^ (shift + 5) ≡ result + z * 2 ^ shift =
        rw (pow_five shift) (omega (arith, split_low z (2 ^ shift))) in
      rw e (
        next_from-more shift result z (chunks n (z / 32) ++ rest) (omega (arith, low))
          (omega (arith, fits))
        ∙ next_from-chunks n (z / 32) (shift + 5) (result + z % 32 * 2 ^ shift) rest
            (omega (arith, low)) (omega (arith, small, pow-suc 32 n)) (rw all_in fits)
        ∙ ap (λ r. some (signed r, rest)) all_in)
]

-- A value as bytes: 13 bytes hold the 64 bits.
abbrev pub encode_value : ℕ → List ℕ
encode_value v = chunks 12 (unsigned v)

-- A value that keeps its sign when it is doubled.
abbrev pub IsSmall : ℕ → Type 0
IsSmall v = (v < 2 ^ 62) ⊎ (2 ^ 64 - 2 ^ 62 ≤ v × v < 2 ^ 64)

next_value-encode_value :
    (v : ℕ) (rest : List ℕ) → IsSmall v → next_value (encode_value v ++ rest) ≡ some (v, rest)
next_value-encode_value v rest h =
    let fits : unsigned v < 2 ^ 64 = ground (arith, h) in
    next_from-chunks 12 (unsigned v) 0 0 rest (omega arith) (omega (arith, fits))
      (omega (arith, fits))
    ∙ ap (λ r. some (r, rest)) (ap signed (omega arith) ∙ signed-unsigned v h)

-- The way from one value to another, `i64` subtraction.
abbrev pub minus : ℕ → ℕ → ℕ
minus a b = (a + (2 ^ 64 - b)) % 2 ^ 64

-- The points as the steps between them.
unfoldable pub encode_from : ℕ × ℕ → List (ℕ × ℕ) → List ℕ
encode_from before [] = []
encode_from before (p ∷ ps) =
    encode_value (minus p.0 before.0) ++ (encode_value (minus p.1 before.1) ++ encode_from p ps)

-- Values of 64 bits, with steps between them that stay small.
abbrev pub AreNear : ℕ × ℕ → List (ℕ × ℕ) → Type 0
AreNear before [] = Unit
AreNear before (p ∷ ps) =
    (p.0 < 2 ^ 64)
    × (p.1 < 2 ^ 64)
    × IsSmall (minus p.0 before.0)
    × IsSmall (minus p.1 before.1)
    × AreNear p ps

plus-minus : (a b : ℕ) → a < 2 ^ 64 → b < 2 ^ 64 → plus b (minus a b) ≡ a
plus-minus a b h k = omega (arith, h, k)

decode_from-point :
    (fuel : ℕ) (before : ℕ × ℕ) (bytes second rest : List ℕ) (a b : ℕ)
    → next_value bytes ≡ some (a, second)
    → next_value second ≡ some (b, rest)
    → decode_from (suc fuel) before bytes
      ≡ with_point
          (plus before.0 a, plus before.1 b)
          (decode_from fuel (plus before.0 a, plus before.1 b) rest)
unfolding decode_from next_from
decode_from-point fuel before [] second rest a b e f = absurd (ground (arith, e))
decode_from-point fuel before (c ∷ bytes) second rest a b e f = rw (decode_from, e, f) refl

is_longer : (n z : ℕ) (rest : List ℕ) → length rest < length (chunks n z ++ rest)
unfolding chunks
is_longer zero z rest = omega arith
is_longer (suc n) z rest = elim (Bool-cases (ltb z 32)) [
  | inl e ↦ rw e (omega arith)
  | inr e ↦ rw e (omega (arith, is_longer n (z / 32) rest))
]

le_absurd : {n m : ℕ} → n ≤ 0 → m < n → ⊥
le_absurd h k = omega (arith, h, k)

le_down : {m n k : ℕ} → m < n → n ≤ suc k → m ≤ k
le_down h k = omega (arith, h, k)

lt_trans : {n m k : ℕ} → m < n → n < k → m < k
lt_trans h k = omega (arith, h, k)

encode_from-longer :
    (before p : ℕ × ℕ) (ps : List (ℕ × ℕ))
    → length (encode_from p ps) < length (encode_from before (p ∷ ps))
unfolding encode_from
encode_from-longer before p ps =
    let second = encode_value (minus p.1 before.1) ++ encode_from p ps in
    lt_trans (is_longer 12 (unsigned (minus p.1 before.1)) (encode_from p ps))
      (is_longer 12 (unsigned (minus p.0 before.0)) second)

decode_from-encode_from :
    (fuel : ℕ) (before : ℕ × ℕ) (ps : List (ℕ × ℕ))
    → before.0 < 2 ^ 64
    → before.1 < 2 ^ 64
    → AreNear before ps
    → length (encode_from before ps) ≤ fuel
    → decode_from fuel before (encode_from before ps) ≡ points ps
unfolding encode_from decode_from
decode_from-encode_from fuel before [] h k near enough = refl
decode_from-encode_from zero before (p ∷ ps) h k near enough =
    let longer : length (encode_from p ps) < length (encode_from before (p ∷ ps)) =
      encode_from-longer before p ps in
    let none_left : length (encode_from before (p ∷ ps)) ≤ 0 = enough in
    absurd (le_absurd none_left longer)
decode_from-encode_from (suc fuel) before (p ∷ ps) h k near enough =
    let second = encode_value (minus p.1 before.1) ++ encode_from p ps in
    let there : (plus before.0 (minus p.0 before.0), plus before.1 (minus p.1 before.1)) ≡ p =
      cc (plus-minus p.0 before.0 near.0 h, plus-minus p.1 before.1 near.1 k) in
    decode_from-point fuel before (encode_value (minus p.0 before.0) ++ second) second
      (encode_from p ps) (minus p.0 before.0) (minus p.1 before.1)
      (next_value-encode_value (minus p.0 before.0) second near.2)
      (next_value-encode_value (minus p.1 before.1) (encode_from p ps) near.3)
    ∙ ap (λ q. with_point q (decode_from fuel q (encode_from p ps))) there
    ∙ ap (with_point p) (
        decode_from-encode_from fuel p ps near.0 near.1 near.4
          (le_down (encode_from-longer before p ps) enough))

-- A row of points whose steps stay below 2 ^ 62 is read back from its encoding.
pub decode-encode_from :
    (ps : List (ℕ × ℕ)) → AreNear (0, 0) ps → decode (encode_from (0, 0) ps) ≡ points ps
decode-encode_from ps near =
    decode_from-encode_from (length (encode_from (0, 0) ps)) (0, 0) ps (omega arith) (omega arith)
      near (omega arith)
