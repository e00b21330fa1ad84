-- ===== src/Voice/Order/Row.antt =====
-- Announcements that wait in the order of their numbers (src/backend/src/voice.rs).
use carnine.Prelude.{
  ℕ, suc, ◌<◌, ◌≤◌, ◌≡◌, ◌≢◌, refl, sym, ◌∙◌, Bool, true, false, Option, none, some, List, [], ◌∷◌,
  ◌++◌, max, arith,
}
use carnine.MediaPlayer.Player.{Priority, info, maneuver}
use carnine.Voice.Worker.{
  Announcement, Command, to_prepare, to_fix, to_speak, was_spoken, Phase, Played, at_least,
  is_newer,
}

-- The numbers fall strictly, from below `n`.
abbrev pub Falling : ℕ → List Played → Type 0
Falling n [] = Unit
Falling n (x ∷ played) = (x.announcement.number < n) × Falling x.announcement.number played

pub Falling-le : (m n : ℕ) (played : List Played) → m ≤ n → Falling m played → Falling n played
Falling-le m n [] h f = tt
Falling-le m n (x ∷ played) h f = (omega (arith, f.0, h), f.1)

pub at_least_refl : (p : Priority) → at_least p p ≡ true
at_least_refl info = refl
at_least_refl maneuver = refl

pub at_least_same : (p q : Priority) → p ≡ q → at_least p q ≡ true
at_least_same p q e = rw e (at_least_refl q)

module _ (p : Priority) where
  -- The queued announcements, all of priority `p`, have rising numbers above `w` and at most `top`,
  -- none of them `d`.
  abbrev pub Rising : ℕ → ℕ → ℕ → List Command → Type 0
  Rising d top w [] = Unit
  Rising d top w (to_speak a ∷ commands) =
      (w < a.number)
      × (a.number ≢ d)
      × (a.number ≤ top)
      × (a.priority ≡ p)
      × Rising d top a.number commands
  Rising d top w (to_prepare texts ∷ commands) = Rising d top w commands
  Rising d top w (to_fix texts ∷ commands) = Rising d top w commands
  Rising d top w (was_spoken text ∷ commands) = Rising d top w commands

  abbrev pub is_other : Command → Bool
  is_other (to_speak a) = false
  is_other _ = true

  pub Rising-send :
      (d top w : ℕ) (commands : List Command) (c : Command)
      → is_other c ≡ true
      → Rising d top w commands
      → Rising d top w (commands ++ c ∷ [])
  Rising-send d top w [] (to_speak a) o r = absurd (ground (arith, o))
  Rising-send d top w [] (to_prepare texts) o r = tt
  Rising-send d top w [] (to_fix texts) o r = tt
  Rising-send d top w [] (was_spoken text) o r = tt
  Rising-send d top w (to_speak a ∷ commands) c o r =
      (r.0, r.1, r.2, r.3, Rising-send d top a.number commands c o r.4)
  Rising-send d top w (to_prepare texts ∷ commands) c o r = Rising-send d top w commands c o r
  Rising-send d top w (to_fix texts ∷ commands) c o r = Rising-send d top w commands c o r
  Rising-send d top w (was_spoken text ∷ commands) c o r = Rising-send d top w commands c o r

  -- A new announcement at the end, of the next number.
  pub Rising-ask :
      (d top w : ℕ) (commands : List Command) (a : Announcement)
      → a.number ≡ suc top
      → a.priority ≡ p
      → d ≤ top
      → w ≤ top
      → Rising d top w commands
      → Rising d (suc top) w (commands ++ to_speak a ∷ [])
  Rising-ask d top w [] a n q low low' r =
      (omega (arith, n, low'), λ e. omega (arith, e, n, low), omega (arith, n), q, tt)
  Rising-ask d top w (to_speak b ∷ commands) a n q low low' r =
      (r.0, r.1, omega (arith, r.2), r.3, Rising-ask d top b.number commands a n q low r.2 r.4)
  Rising-ask d top w (to_prepare texts ∷ commands) a n q low low' r =
      Rising-ask d top w commands a n q low low' r
  Rising-ask d top w (to_fix texts ∷ commands) a n q low low' r =
      Rising-ask d top w commands a n q low low' r
  Rising-ask d top w (was_spoken text ∷ commands) a n q low low' r =
      Rising-ask d top w commands a n q low low' r

  -- The next number was played directly.
  pub Rising-direct :
      (d top w n : ℕ) (commands : List Command)
      → n ≡ suc top
      → Rising d top w commands
      → Rising n (suc top) w commands
  Rising-direct d top w n [] e r = tt
  Rising-direct d top w n (to_speak b ∷ commands) e r = (
    r.0,
    (λ x. omega (arith, x, e, r.2)),
    omega (arith, r.2),
    r.3,
    Rising-direct d top b.number n commands e r.4,
  )
  Rising-direct d top w n (to_prepare texts ∷ commands) e r = Rising-direct d top w n commands e r
  Rising-direct d top w n (to_fix texts ∷ commands) e r = Rising-direct d top w n commands e r
  Rising-direct d top w n (was_spoken text ∷ commands) e r = Rising-direct d top w n commands e r

  abbrev pub direct_number : Option (ℕ × Priority) → ℕ
  direct_number none = 0
  direct_number (some direct) = direct.0

  abbrev pub IsOf : Option (ℕ × Priority) → Type 0
  IsOf none = Unit
  IsOf (some direct) = direct.1 ≡ p

  -- The commands, with the announcement that is being synthesized in front.
  abbrev pub waiting : Phase → List Command → List Command
  waiting (Phase.speaking a) commands = to_speak a ∷ commands
  waiting _ commands = commands

  -- What holds of the parts of a voice that announcements go through.
  abbrev pub Timely : ℕ → Option (ℕ × Priority) → ℕ → List Command → List Played → Type 0
  Timely w direct top commands played =
      Rising (direct_number direct) top w commands
      × IsOf direct
      × (direct_number direct ≤ top)
      × (w ≤ top)
      × Falling (suc (max (direct_number direct) w)) played

  pub direct_before :
      (direct : Option (ℕ × Priority)) (a : Announcement)
      → is_newer direct a ≡ false
      → IsOf direct
      → a.priority ≡ p
      → 0 < a.number
      → a.number ≢ direct_number direct
      → direct_number direct < a.number
  direct_before none a free same q some_number other = some_number
  direct_before (some m) a free same q some_number other =
      ground (arith, free, other, at_least_same m.1 a.priority (same ∙ sym q))
