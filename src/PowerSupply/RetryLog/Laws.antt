-- ===== src/PowerSupply/RetryLog/Laws.antt =====
-- What `RetryLog` of src/backend/src/power_supply.rs logs for a run of failures.
use Prim.Native.String.{String}
use text.Mathlib.TextEquality.{eq_iff}
use text.Mathlib.TextPositions.{eq_refl}
use carnine.Prelude.{
  ℕ, zero, suc, ◌+◌, ◌%◌, ◌≡◌, ◌≢◌, ap, ◌∙◌, ◌↔◌, true, Option, none, some, List, [], ◌∷◌, arith,
  ◌==◌, if◌then◌else◌, replicate,
}
use carnine.PowerSupply.RetryLog.{
  RetryLog, RetryNotice, is_same, new, repeated, reminder, new_log, failed, opened, fail_all,
  retry_reminder_every,
}

-- The notice of the failure number `k + 1` of one kind in a row.
abbrev pub notice_of : ℕ → RetryNotice
notice_of zero = new
notice_of (suc k) = if suc k % retry_reminder_every == 0 then reminder (suc (suc k)) else repeated

-- The notices of the failures from number `k + 1` on, `n` of them.
abbrev pub notices_from : ℕ → ℕ → List RetryNotice
notices_from k zero = []
notices_from k (suc n) = notice_of k ∷ notices_from (suc k) n

after : String → ℕ → RetryLog
after problem k = record { failing_with = some problem; repeats = k }

failed_again :
    (problem : String) (k : ℕ)
    → failed (after problem k) problem ≡ (after problem (suc k), notice_of (suc k))
unfolding failed after
failed_again problem k = rw (eq_refl problem) (ground arith)

fail_all_again :
    (problem : String) (k n : ℕ)
    → fail_all (after problem k) (replicate n problem)
      ≡ (after problem (k + n), notices_from (suc k) n)
unfolding fail_all
fail_all_again problem k zero = ap (λ m. (after problem m, [])) (omega arith)
fail_all_again problem k (suc n) =
    rw (failed_again problem k, fail_all_again problem (suc k) n)
      (ap (λ m. (after problem m, notices_from (suc k) (suc n))) (omega arith))

is_same_iff :
    (o : Option String) (problem : String) → (is_same o problem ≡ true) ↔ (o ≡ some problem)
is_same_iff none problem = ground arith
is_same_iff (some old) problem = ground (arith, eq_iff old problem)

failed_first :
    (r : RetryLog) (problem : String)
    → r.failing_with ≢ some problem
    → failed r problem ≡ (after problem 0, new)
unfolding failed after
failed_first r problem h = ground (arith, is_same_iff r.failing_with problem)

fail_all-replicate :
    (r : RetryLog) (problem : String) (n : ℕ)
    → r.failing_with ≢ some problem
    → fail_all r (replicate (suc n) problem) ≡ (after problem n, notices_from 0 (suc n))
unfolding fail_all
fail_all-replicate r problem n h =
    rw (failed_first r problem h, fail_all_again problem 0 n)
      (ap (λ m. (after problem m, notices_from 0 (suc n))) (omega arith))

opened-after : (problem : String) (n : ℕ) → opened (after problem n) ≡ (new_log, some (suc n))
unfolding opened after
opened-after problem n = ap (λ m. (new_log, some m)) (omega arith)

-- A line that was not failing just so, and then fails `n + 1` times in a row with one problem: the
-- first failure is new, the repeats are quiet, every 1200th repeat is a reminder with the number of
-- attempts, and once the line opens the attempts in a row are reported and the log starts over.
pub fail_all-same :
    (r : RetryLog) (problem : String) (n : ℕ)
    → r.failing_with ≢ some problem
    → let (q, notices) = fail_all r (replicate (suc n) problem) in
      (notices ≡ notices_from 0 (suc n)) × (opened q ≡ (new_log, some (suc n)))
fail_all-same r problem n h =
    let e = fail_all-replicate r problem n h in
    (ap (λ x. x.1) e, ap (λ x. opened x.0) e ∙ opened-after problem n)

-- A failure is announced as new exactly if the line was not failing with that very problem.
pub failed-new :
    (r : RetryLog) (problem : String)
    → ((failed r problem).1 ≡ new) ↔ (r.failing_with ≢ some problem)
unfolding failed
failed-new r problem = ground (arith, is_same_iff r.failing_with problem)
