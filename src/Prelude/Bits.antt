-- ===== src/Prelude/Bits.antt =====
-- Single bits of a number, by its binary digits: what `n & (1 << p) != 0`, `n | (1 << p)` and
-- `n & !(1 << p)` are for an unsigned `n` with more than `p` bits.
use carnine.Prelude.Tests.{◌==◌}
use Prim.Native.Nat.{ℕ, zero, suc, ◌+◌, ◌*◌, ◌/◌, ◌%◌, ◌^◌, ◌<◌}
use native.Mathlib.Nat.{pow-suc}
use mathlib.Core.Path.{◌≡◌, refl, ap, ◌∙◌}
use mathlib.Core.Logic.{◌≢◌}
use mathlib.Core.Bool.{Bool, true, false}
use native.Mathlib.Omega.{arith}

unfoldable pub bit : ℕ → ℕ → Bool
bit n zero = n % 2 == 1
bit n (suc p) = bit (n / 2) p

unfoldable pub set_bit : ℕ → ℕ → ℕ
set_bit n zero = n / 2 * 2 + 1
set_bit n (suc p) = set_bit (n / 2) p * 2 + n % 2

unfoldable pub clear_bit : ℕ → ℕ → ℕ
clear_bit n zero = n / 2 * 2
clear_bit n (suc p) = clear_bit (n / 2) p * 2 + n % 2

low_digit : (m d : ℕ) → d < 2 → (m * 2 + d) / 2 ≡ m
low_digit m d h = omega arith

pub bit-set_bit_self : (n p : ℕ) → bit (set_bit n p) p ≡ true
unfolding bit set_bit
bit-set_bit_self n zero = ground arith
bit-set_bit_self n (suc p) =
    ap (λ m. bit m p) (low_digit (set_bit (n / 2) p) (n % 2) (omega arith))
    ∙ bit-set_bit_self (n / 2) p

pub bit-clear_bit_self : (n p : ℕ) → bit (clear_bit n p) p ≡ false
unfolding bit clear_bit
bit-clear_bit_self n zero = ground arith
bit-clear_bit_self n (suc p) =
    ap (λ m. bit m p) (low_digit (clear_bit (n / 2) p) (n % 2) (omega arith))
    ∙ bit-clear_bit_self (n / 2) p

pub bit-set_bit_ne : (n p q : ℕ) → p ≢ q → bit (set_bit n p) q ≡ bit n q
unfolding bit set_bit
bit-set_bit_ne n zero zero h = absurd (h refl)
bit-set_bit_ne n zero (suc q) h = ap (λ m. bit m q) (omega arith)
bit-set_bit_ne n (suc p) zero h = ground arith
bit-set_bit_ne n (suc p) (suc q) h =
    ap (λ m. bit m q) (low_digit (set_bit (n / 2) p) (n % 2) (omega arith))
    ∙ bit-set_bit_ne (n / 2) p q (λ e. h (ap suc e))

pub bit-clear_bit_ne : (n p q : ℕ) → p ≢ q → bit (clear_bit n p) q ≡ bit n q
unfolding bit clear_bit
bit-clear_bit_ne n zero zero h = absurd (h refl)
bit-clear_bit_ne n zero (suc q) h = ap (λ m. bit m q) (omega arith)
bit-clear_bit_ne n (suc p) zero h = ground arith
bit-clear_bit_ne n (suc p) (suc q) h =
    ap (λ m. bit m q) (low_digit (clear_bit (n / 2) p) (n % 2) (omega arith))
    ∙ bit-clear_bit_ne (n / 2) p q (λ e. h (ap suc e))

-- A number of `w` bits stays one.
pub set_bit-lt : (w n p : ℕ) → p < w → n < 2 ^ w → set_bit n p < 2 ^ w
unfolding set_bit
set_bit-lt zero n p h k = elim h [ ]
set_bit-lt (suc w) n zero h k = ground (arith, pow-suc 2 w)
set_bit-lt (suc w) n (suc p) h k = ground (arith, pow-suc 2 w, set_bit-lt w (n / 2) p)

pub clear_bit-lt : (w n p : ℕ) → n < 2 ^ w → clear_bit n p < 2 ^ w
unfolding clear_bit
clear_bit-lt w n zero k = omega arith
clear_bit-lt zero n (suc p) k = ground (arith, clear_bit-lt zero (n / 2) p)
clear_bit-lt (suc w) n (suc p) k = ground (arith, pow-suc 2 w, clear_bit-lt w (n / 2) p)
