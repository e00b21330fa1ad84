-- ===== src/PowerSupply/Version/Laws.antt =====
-- `FirmwareVersion` reads back what it prints (src/backend/src/power_supply.rs).
use carnine.Prelude.{
  ℕ, ◌^◌, ◌<◌, ◌≡◌, refl, false, none, some, List, [], ◌∷◌, ◌++◌, arith, All, All-append,
}
use carnine.Prelude.Bytes.{is_whitespace}
use carnine.Prelude.Bytes.Trim.{trim_fixed}
use carnine.Prelude.Bytes.Decimal.{
  decimal, IsDigit, decimal-IsDigit, is_empty-decimal, all-digits, parse_below-decimal,
}
use carnine.PowerSupply.Version.{
  FirmwareVersion, split_dot, next_part, part, strip_v, parse, display,
}

split_dot-digits : (s : List ℕ) → All IsDigit s → split_dot s ≡ (s, none)
unfolding split_dot
split_dot-digits [] h = refl
split_dot-digits (c ∷ s) h = ground (arith, split_dot-digits s h.1)

split_dot-dot : (s rest : List ℕ) → All IsDigit s → split_dot (s ++ b'.' ∷ rest) ≡ (s, some rest)
unfolding split_dot
split_dot-dot [] rest h = refl
split_dot-dot (c ∷ s) rest h = ground (arith, split_dot-dot s rest h.1)

-- A printed number before a dot, and one at the end.
part-dot :
    (n : ℕ) (rest : List ℕ)
    → n < 2 ^ 16
    → part (some (decimal n ++ b'.' ∷ rest)) ≡ some (n, some rest)
unfolding part next_part
part-dot n rest h =
    rw
      (
        split_dot-dot (decimal n) rest (decimal-IsDigit n),
        is_empty-decimal n,
        all-digits (decimal n) (decimal-IsDigit n),
        parse_below-decimal (2 ^ 16) n h,
      )
      refl

part-end : (n : ℕ) → n < 2 ^ 16 → part (some (decimal n)) ≡ some (n, none)
unfolding part next_part
part-end n h =
    rw
      (
        split_dot-digits (decimal n) (decimal-IsDigit n),
        is_empty-decimal n,
        all-digits (decimal n) (decimal-IsDigit n),
        parse_below-decimal (2 ^ 16) n h,
      )
      refl

-- Fields of the source's type `u16`.
pub record Fits (v : FirmwareVersion) : Type 0 where
  pub major : v.major < 2 ^ 16
  pub minor : v.minor < 2 ^ 16
  pub patch : v.patch < 2 ^ 16

abbrev IsBlack : ℕ → Type 0
IsBlack c = is_whitespace c ≡ false

digits-IsBlack : (s : List ℕ) → All IsDigit s → All IsBlack s
digits-IsBlack [] h = tt
digits-IsBlack (c ∷ s) h = (ground (arith, h.0), digits-IsBlack s h.1)

display-IsBlack : (v : FirmwareVersion) → All IsBlack (display v)
unfolding display
display-IsBlack v = (
  refl,
  All-append IsBlack (decimal v.major) _ (black v.major)
      (refl, All-append IsBlack (decimal v.minor) _ (black v.minor) (refl, black v.patch)),
)
  where
    black : (n : ℕ) → All IsBlack (decimal n)
    black n = digits-IsBlack (decimal n) (decimal-IsDigit n)

-- A version whose fields fit `u16` is read back from its printed form.
pub parse-display : (v : FirmwareVersion) → Fits v → parse (display v) ≡ some v
unfolding parse display strip_v
parse-display v f =
    rw
      (
        trim_fixed (display v) (display-IsBlack v),
        part-dot v.major (decimal v.minor ++ (b'.' ∷ decimal v.patch)) f.major,
        part-dot v.minor (decimal v.patch) f.minor,
        part-end v.patch f.patch,
      )
      refl
