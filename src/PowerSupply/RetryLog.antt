-- ===== src/PowerSupply/RetryLog.antt =====
-- `RetryLog` of src/backend/src/power_supply.rs: how loud a retry of the serial line is logged.
-- The count of repeats does not wrap here; in the source it is a u64.
mod Laws
mod Tests
use Prim.Native.String.{String}
use text.Mathlib.Text.{◌==◌ as str_eq}
use carnine.Prelude.{
  ℕ, suc, ◌+◌, ◌%◌, Bool, true, false, Option, none, some, List, [], ◌∷◌, ◌==◌, if◌then◌else◌,
}

abbrev pub retry_reminder_every : ℕ
retry_reminder_every = 1200

pub record RetryLog : Type 0 where
  pub failing_with : Option String
  pub repeats : ℕ

pub data RetryNotice : Type 0 where
  new repeated : RetryNotice
  reminder : ℕ → RetryNotice

-- `RetryLog::default`
abbrev pub new_log : RetryLog
new_log = record { failing_with = none; repeats = 0 }

abbrev is_same : Option String → String → Bool
is_same none problem = false
is_same (some old) problem = str_eq old problem

-- `failed`
unfoldable pub failed : RetryLog → String → RetryLog × RetryNotice
failed r problem =
    if is_same r.failing_with problem
    then (
      record r { repeats = r.repeats + 1 },
      if (r.repeats + 1) % retry_reminder_every == 0
          then reminder (r.repeats + 1 + 1)
          else repeated,
    )
    else (record { failing_with = some problem; repeats = 0 }, new)

-- `opened`: the attempts in a row before, if there were any.
unfoldable pub opened : RetryLog → RetryLog × Option ℕ
opened r = (new_log, elim r.failing_with [ none ↦ none | some p ↦ some (r.repeats + 1) ])

-- `failing`
unfoldable pub failing : RetryLog → Bool
failing r = elim r.failing_with [ none ↦ false | some p ↦ true ]

-- The retries of `spawn` while the line does not open: each problem in turn, with its notice.
unfoldable pub fail_all : RetryLog → List String → RetryLog × List RetryNotice
fail_all r [] = (r, [])
fail_all r (problem ∷ problems) =
    let (r', notice) = failed r problem in
    let (q, notices) = fail_all r' problems in (q, notice ∷ notices)
