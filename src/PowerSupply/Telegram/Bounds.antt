-- ===== src/PowerSupply/Telegram/Bounds.antt =====
-- Bounds that `TelegramParser` of src/backend/src/power_supply.rs keeps: of its own buffers and of
-- the telegrams that it hands out.
use carnine.Prelude.{
  ℕ, suc, min, ◌≤◌, ◌≡◌, inl, inr, Bool, true, false, ◌||◌, Option, none, some, List, [], ◌∷◌,
  arith, ◌==◌, length, length-append, All, All-append, Bool-cases, Option-cases,
}
use mathlib.Core.Option
use carnine.Prelude.Bytes.{is_graphic, is_empty, trim}
use carnine.Prelude.Bytes.Trim.{trim_idem, length-trim, All-trim}
use carnine.PowerSupply.Telegram.{
  Telegram, alive, voltage, text, TelegramParser, new_parser, max_payload, max_text_line, decode,
  decode_payload, line_of, push, push_text, push_frame, take_text, feed, ignition_of, state_of,
  result_of, number,
}

-- A byte of a text line.
abbrev pub IsPrintable : ℕ → Type 0
IsPrintable c = (is_graphic c || c == b' ') ≡ true

-- A frame holds an id and eight bytes at most, and only a frame overflows.
abbrev pub FrameValid : Option (List ℕ) → Bool → Type 0
FrameValid none overflow = overflow ≡ false
FrameValid (some body) overflow = length body ≤ suc max_payload

-- Buffers within their limits, and only printable text.
pub record IsValid (p : TelegramParser) : Type 0 where
  pub frame_valid : FrameValid p.frame p.overflow
  pub text_short : length p.text_line ≤ max_text_line
  pub text_printable : All IsPrintable p.text_line

-- The numbers fit their types, and a line is trimmed, printable, not empty and not too long.
abbrev pub IsWellFormed : Telegram → Type 0
IsWellFormed (alive n) = n ≤ 255
IsWellFormed (voltage n) = n ≤ 65535
IsWellFormed (text line) =
    (is_empty line ≡ false)
    × (length line ≤ max_text_line)
    × All IsPrintable line
    × (trim line ≡ line)
IsWellFormed _ = Unit

-- What a byte may complete.
abbrev pub IsFine : Option Telegram → Type 0
IsFine none = Unit
IsFine (some t) = IsWellFormed t

pub new_parser-IsValid : IsValid new_parser
new_parser-IsValid = ground arith

line_of-IsFine : (s : List ℕ) → length s ≤ max_text_line → All IsPrintable s → IsFine (line_of s)
unfolding line_of
line_of-IsFine s l h = elim (Bool-cases (is_empty (trim s))) [
  | inl none_left ↦ rw none_left tt
  | inr some_left ↦
      rw some_left (some_left, omega (arith, length-trim s), All-trim IsPrintable s h, trim_idem s)
]

number-IsFine :
    (f : ℕ → Telegram) (o : Option ℕ) → ((n : ℕ) → IsWellFormed (f n)) → IsFine (Option.map f o)
number-IsFine f none h = tt
number-IsFine f (some n) h = h n

ignition_of-IsFine : (payload : List ℕ) → IsFine (ignition_of payload)
unfolding ignition_of
ignition_of-IsFine [] = tt
ignition_of-IsFine (c ∷ []) = ground arith
ignition_of-IsFine (c ∷ d ∷ s) = tt

state_of-IsFine : (payload : List ℕ) → IsFine (state_of payload)
unfolding state_of
state_of-IsFine [] = tt
state_of-IsFine (c ∷ []) = ground arith
state_of-IsFine (c ∷ d ∷ s) = tt

result_of-IsFine : (payload : List ℕ) → IsFine (result_of payload)
unfolding result_of
result_of-IsFine [] = tt
result_of-IsFine (c ∷ []) = tt
result_of-IsFine (c ∷ d ∷ s) = tt

decode_payload-IsFine : (id : ℕ) (payload : List ℕ) → IsFine (decode_payload id payload)
unfolding decode_payload
decode_payload-IsFine id payload = ground (
  arith,
  ignition_of-IsFine payload,
  number-IsFine (λ (n : ℕ). alive (min n 255)) (number payload) (λ n. omega arith),
  state_of-IsFine payload,
  number-IsFine (λ (n : ℕ). voltage (min n 65535)) (number payload) (λ n. omega arith),
  result_of-IsFine payload,
)

decode-IsFine : (body : List ℕ) → IsFine (decode body)
unfolding decode
decode-IsFine [] = tt
decode-IsFine (id ∷ payload) = decode_payload-IsFine id payload

push_text-IsValid : (p : TelegramParser) (c : ℕ) → IsValid p → IsValid (push_text p c).0
unfolding push_text take_text
push_text-IsValid p c v = ground (
  arith,
  length-append p.text_line (c ∷ []),
  All-append IsPrintable p.text_line (c ∷ []) v.text_printable,
)

push_frame-IsValid :
    (p : TelegramParser) (body : List ℕ) (c : ℕ)
    → p.frame ≡ some body
    → IsValid p
    → IsValid (push_frame p body c).0
unfolding push_frame
push_frame-IsValid p body c f v = ground (arith, length-append body (c ∷ []))

-- One byte keeps the parser within its limits, whatever it is.
pub push-IsValid : (p : TelegramParser) (c : ℕ) → IsValid p → IsValid (push p c).0
unfolding push take_text
push-IsValid p c v = elim (Option-cases p.frame) [
  | inl e ↦ ground (arith, e, push_text-IsValid p c v)
  | inr (body, e) ↦ ground (arith, e, push_frame-IsValid p body c e v)
]

push_text-IsFine : (p : TelegramParser) (c : ℕ) → IsValid p → IsFine (push_text p c).1
unfolding push_text take_text
push_text-IsFine p c v = ground (arith, line_of-IsFine p.text_line v.text_short v.text_printable)

push_frame-IsFine : (p : TelegramParser) (body : List ℕ) (c : ℕ) → IsFine (push_frame p body c).1
unfolding push_frame
push_frame-IsFine p body c = ground (arith, decode-IsFine body)

-- What one byte completes is well formed.
pub push-IsFine : (p : TelegramParser) (c : ℕ) → IsValid p → IsFine (push p c).1
unfolding push take_text
push-IsFine p c v = elim (Option-cases p.frame) [
  | inl e ↦
      ground
        (arith, e, push_text-IsFine p c v, line_of-IsFine p.text_line v.text_short v.text_printable)
  | inr (body, e) ↦ ground (
    arith,
    e,
    push_frame-IsFine p body c,
    line_of-IsFine p.text_line v.text_short v.text_printable,
  )
]

feed-bounds :
    (p : TelegramParser) (s : List ℕ)
    → IsValid p
    → IsValid (feed p s).0 × All IsWellFormed (feed p s).1
unfolding feed
feed-bounds p [] v = (v, tt)
feed-bounds p (c ∷ s) v =
    let rest = feed-bounds (push p c).0 s (push-IsValid p c v) in
    ground (arith, rest, push-IsFine p c v)

-- Whatever bytes the line delivers, from a fresh parser on: the frame holds nine bytes at most, the
-- text 160, all of it printable, and every telegram handed out is well formed.
pub feed-new_parser_bounds :
    (s : List ℕ) → IsValid (feed new_parser s).0 × All IsWellFormed (feed new_parser s).1
feed-new_parser_bounds s = feed-bounds new_parser s new_parser-IsValid
