-- ===== src/PowerSupply/Version.antt =====
-- `FirmwareVersion` of src/backend/src/power_supply.rs: the text line that answers `v`.
mod Laws
mod Tests
use carnine.Prelude.{
  ℕ, ◌^◌, Bool, true, false, ◌||◌, not, Option, none, some, List, [], ◌∷◌, ◌++◌, ◌==◌,
  if◌then◌else◌, all,
}
use carnine.Prelude.Bytes.{is_digit, is_empty, trim, parse_below}
use carnine.Prelude.Bytes.Decimal.{decimal}

pub record FirmwareVersion : Type 0 where
  pub major : ℕ
  pub minor : ℕ
  pub patch : ℕ

infixl 5 ◌>>=◌ ◌>>◌
abbrev ◌>>=◌ {ℓ κ} : {A : Type ℓ} {B : Type κ} → Option A → (A → Option B) → Option B
none >>= f = none
some a >>= f = f a

abbrev ◌>>◌ {ℓ} : {B : Type ℓ} → Option (Unit {0}) → Option B → Option B
m >> k = m >>= λ _. k

abbrev guard : Bool → Option (Unit {0})
guard true = some tt
guard false = none

-- What stands before the next `.`, and what stands after it, if there is one.
pub split_dot : List ℕ → List ℕ × Option (List ℕ)
split_dot [] = ([], none)
split_dot (c ∷ s) =
    let (part, rest) = split_dot s in if c == b'.' then ([], some s) else (c ∷ part, rest)

-- `parts.next()`, with the parts that are left: none once the text is used up.
pub next_part : Option (List ℕ) → Option (List ℕ × Option (List ℕ))
next_part none = none
next_part (some s) = some (split_dot s)

-- The closure `part` of `parse`.
pub part : Option (List ℕ) → Option (ℕ × Option (List ℕ))
part parts = do
  next ← next_part parts
  guard (not (is_empty next.0 || not (all is_digit next.0)))
  n ← parse_below (2 ^ 16) next.0
  some (n, next.1)

-- `strip_prefix('V')`
pub strip_v : List ℕ → Option (List ℕ)
strip_v [] = none
strip_v (c ∷ s) = if c == b'V' then some s else none

is_none : Option (List ℕ × Option (List ℕ)) → Bool
is_none none = true
is_none (some s) = false

-- `FirmwareVersion::parse`
unfoldable pub parse : List ℕ → Option FirmwareVersion
unfolding split_dot next_part part strip_v is_none
parse line = do
  digits ← strip_v (trim line)
  major ← part (some digits)
  minor ← part major.1
  patch ← part minor.1
  guard (is_none (next_part patch.1))
  some (record { major = major.0; minor = minor.0; patch = patch.0 })

-- `Display`
unfoldable pub display : FirmwareVersion → List ℕ
display v = b'V' ∷ decimal v.major ++ (b'.' ∷ decimal v.minor ++ (b'.' ∷ decimal v.patch))
