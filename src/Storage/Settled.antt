-- ===== src/Storage/Settled.antt =====
-- Which signals a burst takes (src/backend/src/storage_events.rs).
use carnine.Prelude.{
  ℕ, suc, ◌+◌, ◌-◌, ◌<◌, ◌≤◌, ◌≡◌, ◌⊎◌, inl, inr, refl, ap, arith, true, false, some, List, [], ◌∷◌,
  ◌++◌, min, max, leb,
}
use carnine.MediaPlayer.Queue.Slots.{if_then_else_lem}
use carnine.Storage.{Signal, Burst, settle_from, settle}

-- After a signal that was taken at `now`, the burst takes `taken` and leaves `rest`: each signal comes
-- within the quiet time after the one before was taken, and by the deadline; an error is the last. The
-- signal that is left comes too late for one of the two. A signal that has come before is taken at
-- once.
abbrev pub IsSettled : ℕ → ℕ → ℕ → ℕ → List Signal → List Signal → Burst → Type 0
IsSettled quiet deadline now count [] [] b = b ≡ record { count = count; has_error = false }
IsSettled quiet deadline now count [] (s ∷ rest) b =
    (b ≡ record { count = count; has_error = false })
    × ((now + quiet < s.moment) ⊎ (deadline < s.moment))
IsSettled quiet deadline now count (s ∷ taken) rest b =
    (s.moment ≤ now + quiet)
    × (s.moment ≤ deadline)
    × (((s.is_error ≡ true) × (taken ≡ []) × (b ≡ record { count = count; has_error = true }))
        ⊎ ((s.is_error ≡ false)
            × IsSettled quiet deadline (max now s.moment) (suc count) taken rest b))

abbrev Splits : ℕ → ℕ → ℕ → ℕ → List Signal → Burst × List Signal → Type 0
Splits quiet deadline now count signals (b, rest) =
    (taken : List Signal) × (signals ≡ taken ++ rest)
    × IsSettled quiet deadline now count taken rest b

too_late :
    (quiet deadline now moment : ℕ)
    → now ≤ deadline
    → leb moment (now + min quiet (deadline - now)) ≡ false
    → (now + quiet < moment) ⊎ (deadline < moment)
too_late quiet deadline now moment low late = ground (arith, low, late)

settle_from-Splits :
    (quiet deadline now count : ℕ) (signals : List Signal)
    → now ≤ deadline
    → Splits quiet deadline now count signals (settle_from quiet deadline now count signals)
unfolding settle_from
settle_from-Splits quiet deadline now count [] low = ([], refl, refl)
settle_from-Splits quiet deadline now count (s ∷ signals) low =
    let Parts = Splits quiet deadline now count (s ∷ signals) in
    if_then_else_lem Parts (leb s.moment (now + min quiet (deadline - now)))
      (λ early.
        let soon : s.moment ≤ now + quiet = ground (arith, early) in
        let due : s.moment ≤ deadline = ground (arith, early, low) in
        if_then_else_lem Parts s.is_error (λ e. (s ∷ [], refl, (soon, due, inl (e, refl, refl))))
          (λ e.
            let (taken, split, settled) =
              settle_from-Splits quiet deadline (max now s.moment) (suc count) signals
                (omega (arith, low, due)) in
            (s ∷ taken, ap (λ l. s ∷ l) split, (soon, due, inr (e, settled)))))
      (λ late. ([], refl, (refl, too_late quiet deadline now s.moment low late)))

-- A burst that begins with no error ends. It begins when its first signal has come and `settle` was
-- called; it takes the signals up to the first that comes more than the quiet time after the one
-- before was taken, or after the longest time since the beginning, or up to the first error, and
-- leaves all others. Its count is that of the signals without the error.
pub settle-IsSettled :
    (called quiet longest : ℕ) (s : Signal) (signals : List Signal)
    → s.is_error ≡ false
    → let began = max called s.moment in
      (b : Burst) × (rest taken : List Signal) × (settle called quiet longest (s ∷ signals)
        ≡ some (b, rest))
      × (signals ≡ taken ++ rest)
      × IsSettled quiet (began + longest) began 1 taken rest b
unfolding settle
settle-IsSettled called quiet longest s signals e =
    let began = max called s.moment in
    let (b, rest) = settle_from quiet (began + longest) began 1 signals in
    let (taken, split, settled) =
      settle_from-Splits quiet (began + longest) began 1 signals (omega arith) in
    (b, rest, taken, rw e refl, split, settled)
