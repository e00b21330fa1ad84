-- ===== src/Prelude/Int.antt =====
-- Integers over the native natural numbers.
use Prim.Native.Nat.{ℕ, suc, ◌+◌, ◌-◌}

pub data ℤ : Type 0 where
  pos negsuc : ℕ → ℤ

-- `max(0)`
abbrev pub at_least_zero : ℤ → ℕ
at_least_zero (pos n) = n
at_least_zero (negsuc n) = 0

-- `n + d`, but 0 where that is negative.
abbrev pub moved_by : ℕ → ℤ → ℕ
moved_by n (pos d) = n + d
moved_by n (negsuc d) = n - suc d
