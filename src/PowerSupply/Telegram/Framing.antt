-- ===== src/PowerSupply/Telegram/Framing.antt =====
-- What one framed telegram does to the parser of src/backend/src/power_supply.rs, whatever came
-- before it.
use carnine.Prelude.{
  ℕ, suc, ◌+◌, ◌≤◌, ◌<◌, ◌≡◌, ◌≢◌, refl, ap, ◌∙◌, true, false, Option, none, some, List, [], ◌∷◌,
  ◌++◌, append_assoc, append-nil, arith, leb, ltb, if◌then◌else◌, length, length-append, to_list,
  All, Bool-cases, inl, inr,
}
use carnine.PowerSupply.Telegram.{
  stx, etx, Telegram, TelegramParser, new_parser, max_payload, decode, line_of, push, push_frame,
  take_text, feed,
}

-- A byte that stands inside a frame.
abbrev pub IsInner : ℕ → Type 0
IsInner c = (c ≢ stx) × (c ≢ etx)

pub feed-append :
    (p : TelegramParser) (xs ys : List ℕ)
    → feed p (xs ++ ys) ≡ ((feed (feed p xs).0 ys).0, (feed p xs).1 ++ (feed (feed p xs).0 ys).1)
unfolding feed
feed-append p [] ys = refl
feed-append p (x ∷ xs) ys = ground (arith, feed-append (push p x).0 xs ys)

push-stx :
    (p : TelegramParser)
    → push p stx
      ≡ (record { frame = some []; overflow = false; text_line = [] }, line_of p.text_line)
unfolding push take_text
push-stx p = refl

push-etx :
    (p : TelegramParser) (body : List ℕ)
    → p.frame ≡ some body
    → push p etx
      ≡ (record p { frame = none; overflow = false }, if p.overflow then none else decode body)
unfolding push push_frame
push-etx p body f = ground arith

-- A byte within a frame is taken while there is room, and marks the frame as too long otherwise.
push_inner :
    (p : TelegramParser) (body : List ℕ) (c : ℕ)
    → p.frame ≡ some body
    → c ≢ stx
    → c ≢ etx
    → push p c ≡ (
      if ltb max_payload (length body)
          then record p { overflow = true }
          else record p { frame = some (body ++ c ∷ []) },
      none,
    )
unfolding push push_frame
push_inner p body c f h k = ground arith

abbrev framed : List ℕ → TelegramParser
framed body = record { frame = some body; overflow = false; text_line = [] }

abbrev overlong : List ℕ → TelegramParser
overlong body = record { frame = some body; overflow = true; text_line = [] }

feed_silent :
    (p q : TelegramParser) (c : ℕ) (s : List ℕ) → push p c ≡ (q, none) → feed p (c ∷ s) ≡ feed q s
unfolding feed
feed_silent p q c s h = ground arith

feed-overlong :
    (pre body : List ℕ)
    → All IsInner body
    → max_payload < length pre
    → feed (overlong pre) body ≡ (overlong pre, [])
unfolding feed
feed-overlong pre [] h l = refl
feed-overlong pre (c ∷ body) h l =
    feed_silent (overlong pre) (overlong pre) c body
      (ground (arith, push_inner (overlong pre) pre c refl h.0.0 h.0.1))
    ∙ feed-overlong pre body h.1 l

feed_fits :
    (pre body : List ℕ)
    → All IsInner body
    → length pre + length body ≤ suc max_payload
    → feed (framed pre) body ≡ (framed (pre ++ body), [])
unfolding feed
feed_fits pre [] h l = ground (arith, append-nil pre)
feed_fits pre (c ∷ body) h l =
    feed_silent (framed pre) (framed (pre ++ c ∷ [])) c body
      (ground (arith, push_inner (framed pre) pre c refl h.0.0 h.0.1))
    ∙ feed_fits (pre ++ c ∷ []) body h.1 (omega (arith, length-append pre (c ∷ [])))
    ∙ ap (λ l. (framed l, [])) (append_assoc pre (c ∷ []) body)

-- Past nine bytes the frame is only marked.
feed_too_long :
    (pre body : List ℕ)
    → All IsInner body
    → length pre ≤ suc max_payload
    → suc max_payload < length pre + length body
    → (kept : List ℕ) × (feed (framed pre) body ≡ (overlong kept, []))
unfolding feed
feed_too_long pre [] h l k = absurd (omega arith)
feed_too_long pre (c ∷ body) h l k = elim (Bool-cases (ltb max_payload (length pre))) [
  | inl full ↦ (
    pre,
    feed_silent (framed pre) (overlong pre) c body
          (ground (arith, push_inner (framed pre) pre c refl h.0.0 h.0.1))
        ∙ feed-overlong pre body h.1 (ground arith),
  )
  | inr room ↦
      let (kept, e) =
        feed_too_long (pre ++ c ∷ []) body h.1 (ground (arith, length-append pre (c ∷ [])))
          (ground (arith, length-append pre (c ∷ []))) in
      (
        kept,
        feed_silent (framed pre) (framed (pre ++ c ∷ [])) c body
              (ground (arith, push_inner (framed pre) pre c refl h.0.0 h.0.1))
            ∙ e,
      )
]

feed-etx :
    (p : TelegramParser) (body : List ℕ)
    → p.frame ≡ some body
    → feed p (etx ∷ []) ≡ (
      record p { frame = none; overflow = false },
      to_list (if p.overflow then none else decode body),
    )
unfolding feed
feed-etx p body f = ground (arith, push-etx p body f)

-- What a frame with this body says: nothing where it is longer than an id and eight bytes.
abbrev pub frame_telegram : List ℕ → Option Telegram
frame_telegram body = if leb (length body) (suc max_payload) then decode body else none

feed_body :
    (body : List ℕ)
    → All IsInner body
    → feed (framed []) (body ++ etx ∷ []) ≡ (new_parser, to_list (frame_telegram body))
feed_body body h = elim (Bool-cases (leb (length body) (suc max_payload))) [
  | inl fits ↦
      feed-append (framed []) body (etx ∷ [])
      ∙ ground (arith, feed_fits [] body h, feed-etx (framed body) body refl)
  | inr long ↦
      let (kept, e) = feed_too_long [] body h (omega arith) (ground arith) in
      feed-append (framed []) body (etx ∷ [])
      ∙ ground (arith, e, feed-etx (overlong kept) kept refl)
]

-- Whatever the parser holds, also half a frame, a complete frame `STX body ETX` first hands out the
-- debug line that is pending, if there is one, then exactly the telegram that the body decodes to,
-- or none where the body is longer than an id and eight bytes, and leaves a fresh parser.
pub feed_frame :
    (p : TelegramParser) (body : List ℕ)
    → All IsInner body
    → feed p (stx ∷ body ++ etx ∷ [])
      ≡ (new_parser, to_list (line_of p.text_line) ++ to_list (frame_telegram body))
unfolding feed
feed_frame p body h = ground (arith, push-stx p, feed_body body h)
