-- ===== src/Prelude/Bytes/Decimal.antt =====
-- Decimal numerals: how an unsigned number is printed, and that reading it back gives the number.
use carnine.Prelude.Tests.{ltb, if◌then◌else◌, Bool-cases, lt→ltb}
use carnine.Prelude.Lists.{length, length-append, all, All, All-append}
use carnine.Prelude.Bytes.{is_digit, is_empty, decimal_from, parse_below}
use Prim.Native.Nat.{ℕ, zero, suc, ◌+◌, ◌-◌, ◌*◌, ◌/◌, ◌%◌, ◌^◌, ◌≤◌, ◌<◌}
use mathlib.Core.Path.{◌≡◌, refl}
use mathlib.Core.Logic.{inl, inr}
use mathlib.Core.Bool.{true, false}
use mathlib.Core.Option.{some}
use mathlib.Core.List.{List, [], ◌∷◌, ◌++◌}
use native.Mathlib.Nat.{pow-suc}
use native.Mathlib.Omega.{arith}

-- The digits of `n`, first the leading one; a number has fewer digits than `n + 1`.
unfoldable pub decimal_digits : ℕ → ℕ → List ℕ
decimal_digits zero n = []
decimal_digits (suc fuel) n =
    let rest = decimal_digits fuel (n / 10) in
    if ltb n 10 then (b'0' + n) ∷ [] else rest ++ (b'0' + n % 10) ∷ []

unfoldable pub decimal : ℕ → List ℕ
unfolding decimal_digits
decimal n = decimal_digits (suc n) n

decimal_from-append :
    (acc : ℕ) (xs : List ℕ) (d : ℕ)
    → decimal_from acc (xs ++ d ∷ []) ≡ decimal_from acc xs * 10 + (d - b'0')
decimal_from-append acc [] d = refl
decimal_from-append acc (x ∷ xs) d = decimal_from-append (acc * 10 + (x - b'0')) xs d

decimal_from-decimal_digits : (f n : ℕ) → n < f → decimal_from 0 (decimal_digits f n) ≡ n
unfolding decimal_digits
decimal_from-decimal_digits zero n h = elim h [ ]
decimal_from-decimal_digits (suc f) n h = elim (Bool-cases (ltb n 10)) [
  | inl one ↦ rw one (omega arith)
  | inr more ↦
      rw (more, decimal_from-append 0 (decimal_digits f (n / 10)) (b'0' + n % 10))
        (ground (arith, decimal_from-decimal_digits f (n / 10)))
]

pub decimal_from-decimal : (n : ℕ) → decimal_from 0 (decimal n) ≡ n
unfolding decimal
decimal_from-decimal n = decimal_from-decimal_digits (suc n) n (omega arith)

-- A decimal digit, as a character.
abbrev pub IsDigit : ℕ → Type 0
IsDigit c = is_digit c ≡ true

decimal_digits-IsDigit : (f n : ℕ) → All IsDigit (decimal_digits f n)
unfolding decimal_digits
decimal_digits-IsDigit zero n = tt
decimal_digits-IsDigit (suc f) n = elim (Bool-cases (ltb n 10)) [
  | inl one ↦ rw one (ground arith)
  | inr more ↦ rw more (
      All-append IsDigit (decimal_digits f (n / 10)) ((b'0' + n % 10) ∷ [])
        (decimal_digits-IsDigit f (n / 10)) (ground arith))
]

pub decimal-IsDigit : (n : ℕ) → All IsDigit (decimal n)
unfolding decimal
decimal-IsDigit n = decimal_digits-IsDigit (suc n) n

is_empty-snoc {ℓ} : {A : Type ℓ} (xs : List A) (x : A) → is_empty (xs ++ x ∷ []) ≡ false
is_empty-snoc [] x = refl
is_empty-snoc (y ∷ xs) x = refl

pub is_empty-decimal : (n : ℕ) → is_empty (decimal n) ≡ false
unfolding decimal
is_empty-decimal n = elim (Bool-cases (ltb n 10)) [
  | inl one ↦ rw one
  | inr more ↦ rw more (is_empty-snoc (decimal_digits n (n / 10)) (b'0' + n % 10))
]

pub all-digits : (s : List ℕ) → All IsDigit s → all is_digit s ≡ true
all-digits [] h = refl
all-digits (c ∷ s) h = rw (h.0) (all-digits s h.1)

-- A printed number is read back, if the type holds it.
pub parse_below-decimal : (limit n : ℕ) → n < limit → parse_below limit (decimal n) ≡ some n
parse_below-decimal limit n h = rw (decimal_from-decimal n, lt→ltb n limit h)

-- What is read fits the type.
pub parse_below-lt : (limit : ℕ) (s : List ℕ) {n : ℕ} → parse_below limit s ≡ some n → n < limit
parse_below-lt limit s h = ground arith

length-decimal_digits : (f k n : ℕ) → n < 10 ^ suc k → length (decimal_digits f n) ≤ suc k
unfolding decimal_digits
length-decimal_digits zero k n h = omega arith
length-decimal_digits (suc f) zero n h = ground arith
length-decimal_digits (suc f) (suc k) n h = ground (
  arith,
  pow-suc 10 (suc k),
  length-decimal_digits f k (n / 10),
  length-append (decimal_digits f (n / 10)) ((b'0' + n % 10) ∷ []),
)

-- A number below 10 ^ (k + 1) has at most k + 1 digits.
pub length-decimal : (k n : ℕ) → n < 10 ^ suc k → length (decimal n) ≤ suc k
unfolding decimal
length-decimal k n h = length-decimal_digits (suc n) k n h
