-- ===== src/Prelude/Bytes/Texts.antt =====
-- Texts compared with each other and looked for in a list.
use Prim.Native.Nat.{ℕ}
use mathlib.Core.Path.{◌≡◌, refl, ap, ◌∙◌}
use mathlib.Core.Bool.{true, ◌||◌}
use mathlib.Core.List.{List, [], ◌∷◌, ◌++◌}
use native.Mathlib.Omega.{arith}
use carnine.Prelude.Bytes.{same, contains}

pub same_refl : (s : List ℕ) → same s s ≡ true
same_refl [] = refl
same_refl (c ∷ s) = ground (arith, same_refl s)

pub same_sym : (s t : List ℕ) → same s t ≡ same t s
same_sym [] [] = refl
same_sym [] (d ∷ t) = refl
same_sym (c ∷ s) [] = refl
same_sym (c ∷ s) (d ∷ t) = ground (arith, same_sym s t)

pub same_eq : (s t : List ℕ) → same s t ≡ true → s ≡ t
same_eq [] [] e = refl
same_eq [] (d ∷ t) e = absurd (ground (arith, e))
same_eq (c ∷ s) [] e = absurd (ground (arith, e))
same_eq (c ∷ s) (d ∷ t) e =
    let head : c ≡ d = ground (arith, e) in
    let tail : same s t ≡ true = ground (arith, e) in
    ap (λ x. x ∷ s) head ∙ ap (λ l. d ∷ l) (same_eq s t tail)

pub contains-append :
    (t : List ℕ) (front back : List (List ℕ))
    → contains t (front ++ back) ≡ contains t front || contains t back
contains-append t [] back = refl
contains-append t (u ∷ front) back = ground (arith, contains-append t front back)

-- A text that is the same as another is in the same lists.
pub contains-same :
    (s t : List ℕ) (l : List (List ℕ)) → same s t ≡ true → contains s l ≡ contains t l
contains-same s t l e = ap (λ x. contains x l) (same_eq s t e)
