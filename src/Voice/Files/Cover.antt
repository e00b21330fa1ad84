-- ===== src/Voice/Files/Cover.antt =====
-- The texts that the order and the fixed texts cover (src/backend/src/voice.rs).
use carnine.Prelude.Bytes.Texts.{same_sym}
use carnine.Prelude.{ℕ, ◌≡◌, ◌⊎◌, inl, inr, refl, true, ◌||◌, List, [], ◌∷◌, arith}
use carnine.Prelude.Bytes.{same, contains}
use carnine.MediaPlayer.Queue.Slots.{if_then_else_lem}
use carnine.Voice.Cache.{without_file}

-- Every text that has a file is in the order or pinned.
abbrev pub IsCovered : List (List ℕ) → List (List ℕ) → List (List ℕ × ℕ) → Type 0
IsCovered order pinned [] = Unit
IsCovered order pinned (e ∷ files) =
    (contains e.0 order || contains e.0 pinned ≡ true) × IsCovered order pinned files

pub without_file-IsCovered :
    (oldest : List ℕ) (order pinned : List (List ℕ)) (files : List (List ℕ × ℕ))
    → IsCovered (oldest ∷ order) pinned files
    → IsCovered order pinned (without_file oldest files)
without_file-IsCovered oldest order pinned [] h = tt
without_file-IsCovered oldest order pinned (e ∷ files) h =
    let rest = without_file-IsCovered oldest order pinned files h.1 in
    if_then_else_lem (IsCovered order pinned) (same e.0 oldest) (λ _. rest)
      λ other. (ground (arith, h.0, same_sym e.0 oldest, other), rest)

-- A text that is covered in the order, or any text that is left out.
pub grown-IsCovered :
    (text : List ℕ) (order wider pinned : List (List ℕ)) (files : List (List ℕ × ℕ))
    → ((t : List ℕ) → contains t order ≡ true → contains t wider ≡ true)
    → IsCovered order pinned files
    → IsCovered wider pinned (without_file text files)
grown-IsCovered text order wider pinned [] wide h = tt
grown-IsCovered text order wider pinned (e ∷ files) wide h =
    let rest = grown-IsCovered text order wider pinned files wide h.1 in
    if_then_else_lem (IsCovered wider pinned) (same e.0 text) (λ _. rest)
      λ other. (ground (arith, h.0, wide e.0), rest)

pub List-cases {ℓ} : {A : Type ℓ} (l : List A) → (l ≡ []) ⊎ ((x : A) × (xs : List A) × (l ≡ x ∷ xs))
List-cases [] = inl refl
List-cases (x ∷ xs) = inr (x, xs, refl)
