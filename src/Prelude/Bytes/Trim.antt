-- ===== src/Prelude/Bytes/Trim.antt =====
-- Laws of `trim`.
use carnine.Prelude.Tests.{Bool-cases}
use carnine.Prelude.Lists.{length, All}
use carnine.Prelude.Bytes.{is_whitespace, trim_start, keep_end, trim_end, trim}
use Prim.Native.Nat.{ℕ, ◌≤◌}
use mathlib.Core.Path.{◌≡◌, refl, ap, ◌∙◌}
use mathlib.Core.Logic.{inl, inr}
use mathlib.Core.Bool.{false}
use mathlib.Core.List.{List, [], ◌∷◌}
use native.Mathlib.Omega.{arith}

-- No white space at the front.
abbrev StartsClean : List ℕ → Type 0
StartsClean [] = Unit
StartsClean (c ∷ s) = is_whitespace c ≡ false

trim_start-StartsClean : (s : List ℕ) → StartsClean (trim_start s)
trim_start-StartsClean [] = tt
trim_start-StartsClean (c ∷ s) = ground (arith, trim_start-StartsClean s)

trim_start_fixed : (s : List ℕ) → StartsClean s → trim_start s ≡ s
trim_start_fixed [] h = refl
trim_start_fixed (c ∷ s) h = rw h

keep_end-StartsClean : (c : ℕ) (s : List ℕ) → is_whitespace c ≡ false → StartsClean (keep_end c s)
keep_end-StartsClean c [] h = rw h h
keep_end-StartsClean c (d ∷ s) h = h

trim_end-StartsClean : (s : List ℕ) → StartsClean s → StartsClean (trim_end s)
trim_end-StartsClean [] h = tt
trim_end-StartsClean (c ∷ s) h = keep_end-StartsClean c (trim_end s) h

keep_end_idem : (c : ℕ) (s : List ℕ) → trim_end s ≡ s → trim_end (keep_end c s) ≡ keep_end c s
keep_end_idem c [] h = ground arith
keep_end_idem c (d ∷ s) h = ap (keep_end c) h

trim_end_idem : (s : List ℕ) → trim_end (trim_end s) ≡ trim_end s
trim_end_idem [] = refl
trim_end_idem (c ∷ s) = keep_end_idem c (trim_end s) (trim_end_idem s)

pub trim_idem : (s : List ℕ) → trim (trim s) ≡ trim s
trim_idem s =
    ap trim_end
      (trim_start_fixed (trim s) (trim_end-StartsClean (trim_start s) (trim_start-StartsClean s)))
    ∙ trim_end_idem (trim_start s)

trim_end_fixed : (s : List ℕ) → All (λ c. is_whitespace c ≡ false) s → trim_end s ≡ s
trim_end_fixed [] h = refl
trim_end_fixed (c ∷ []) h = rw (h.0)
trim_end_fixed (c ∷ d ∷ s) h = rw (trim_end_fixed (d ∷ s) h.1)

-- A text without white space is trimmed.
pub trim_fixed : (s : List ℕ) → All (λ c. is_whitespace c ≡ false) s → trim s ≡ s
trim_fixed [] h = refl
trim_fixed (c ∷ s) h = rw (h.0) (trim_end_fixed (c ∷ s) h)

length-keep_end : (c : ℕ) (s : List ℕ) → length (keep_end c s) ≤ length (c ∷ s)
length-keep_end c [] = ground arith
length-keep_end c (d ∷ s) = omega arith

length-trim_end : (s : List ℕ) → length (trim_end s) ≤ length s
length-trim_end [] = omega arith
length-trim_end (c ∷ s) = omega (arith, length-keep_end c (trim_end s), length-trim_end s)

length-trim_start : (s : List ℕ) → length (trim_start s) ≤ length s
length-trim_start [] = omega arith
length-trim_start (c ∷ s) = ground (arith, length-trim_start s)

pub length-trim : (s : List ℕ) → length (trim s) ≤ length s
length-trim s = omega (arith, length-trim_end (trim_start s), length-trim_start s)

module _ {κ} (P : ℕ → Type κ) where
  All-keep_end : (c : ℕ) (s : List ℕ) → P c → All P s → All P (keep_end c s)
  All-keep_end c [] hc h = ground (arith, hc)
  All-keep_end c (d ∷ s) hc h = (hc, h)

  All-trim_end : (s : List ℕ) → All P s → All P (trim_end s)
  All-trim_end [] h = tt
  All-trim_end (c ∷ s) h = All-keep_end c (trim_end s) h.0 (All-trim_end s h.1)

  All-trim_start : (s : List ℕ) → All P s → All P (trim_start s)
  All-trim_start [] h = tt
  All-trim_start (c ∷ s) h = elim (Bool-cases (is_whitespace c)) [
    | inl space ↦ rw space (All-trim_start s h.1)
    | inr other ↦ rw other h
  ]

  pub All-trim : (s : List ℕ) → All P s → All P (trim s)
  All-trim s h = All-trim_end (trim_start s) (All-trim_start s h)
