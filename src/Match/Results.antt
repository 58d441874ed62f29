-- ===== src/Match/Results.antt =====
-- `normalizeRunnerResult` and its checks, and `executionCompletedEventPayload`, of
-- match-engine.ts. A number of the runner is a number of thousandths, or `unsafe`: negative,
-- infinite, not a number, or no number at all. What is finer than a thousandth is not modelled.
use leetbattle.Shared.{
  ℕ, ◌/◌, ◌%◌, ◌≤◌, ◌<◌, ◌≡◌, Bool, true, false, not, ◌&&◌, ◌||◌, Option, some, none, leb, nat_beq,
  ◌==◌, if◌then◌else◌, is_none, arith, is_some, ◌≢◌, ◌⊎◌,
}
use leetbattle.Domain.Types.{Verdict, verdict_eq, ExecutionKind, run, submit, Slot, Activity}
use leetbattle.Domain.Errors.{Result, ok, err, fault, ◌>>=◌, ◌>>◌}
use leetbattle.Store.Rows.{Event, run_completed, submit_completed}

pub data RunnerNumber : Type 0 where
  thousandths : ℕ → RunnerNumber
  unsafe : RunnerNumber

-- What the runner returns; `verdict` is `none` where it is not one of EXECUTION_VERDICTS.
pub record RawResult : Type 0 where
  pub verdict : Option Verdict
  pub passed_count : RunnerNumber
  pub total_count : RunnerNumber
  pub runtime : Option RunnerNumber
  pub compile : Option RunnerNumber
  pub details : Option ℕ

-- RunnerResult of types.ts, checked; durations are in thousandths of a millisecond.
pub record RunnerResult : Type 0 where
  pub verdict : Verdict
  pub passed_count : ℕ
  pub total_count : ℕ
  pub runtime : Option ℕ
  pub compile : Option ℕ
  pub details : Option ℕ

abbrev pub max_postgres_integer : ℕ
max_postgres_integer = 2147483647

-- MAX_DURATION_MS in thousandths.
abbrev pub max_duration : ℕ
max_duration = 999999999999

unfoldable pub safe_count : RunnerNumber → Result ℕ
safe_count unsafe = err fault
safe_count (thousandths n) =
    if nat_beq (n % 1000) 0 && leb (n / 1000) max_postgres_integer then ok (n / 1000) else err fault

unfoldable pub safe_duration : Option RunnerNumber → Result (Option ℕ)
safe_duration none = ok none
safe_duration (some unsafe) = err fault
safe_duration (some (thousandths n)) = if leb n max_duration then ok (some n) else err fault

abbrev pub supported : Option Verdict → Result Verdict
supported none = err fault
supported (some v) = ok v

abbrev pub check : Bool → Result (Unit {0})
check true = ok tt
check false = err fault

abbrev pub is_sound_acceptance : Verdict → ℕ → ℕ → Option ℕ → Bool
is_sound_acceptance v passed total runtime =
    not (v == Verdict.accepted)
    || (not (nat_beq total 0) && (nat_beq passed total && not (is_none runtime)))

unfoldable pub normalize_runner_result : RawResult → Result RunnerResult
unfolding safe_count safe_duration
normalize_runner_result r = do
  verdict ← supported r.verdict
  passed ← safe_count r.passed_count
  total ← safe_count r.total_count
  check (leb passed total)
  runtime ← safe_duration r.runtime
  compile ← safe_duration r.compile
  check (is_sound_acceptance verdict passed total runtime)
  ok (record {
    verdict = verdict;
    passed_count = passed;
    total_count = total;
    runtime = runtime;
    compile = compile;
    details = r.details;
  })

-- The payload of EXECUTION_COMPLETED: a sample run tells the opponent no counts and no verdict.
unfoldable pub execution_completed_event :
    Slot → ExecutionKind → RunnerResult → Activity → Option ℕ → Event
execution_completed_event slot run result activity cooldown_until = run_completed slot activity
execution_completed_event slot submit result activity cooldown_until =
    submit_completed slot (result.verdict == Verdict.accepted) result.passed_count
      result.total_count activity cooldown_until

abbrev pub Within : ℕ → Option ℕ → Type 0
Within top none = Unit
Within top (some n) = n ≤ top

-- A result that passes has its counts in order and within a PostgreSQL integer and its durations
-- within a numeric(12,3); and if its verdict is an acceptance, then all tests of a positive number
-- have passed and the runtime was measured.
pub normalize_runner_result_bounds :
    (r : RawResult) (n : RunnerResult)
    → normalize_runner_result r ≡ ok n
    → (n.passed_count ≤ n.total_count)
      × (n.total_count ≤ max_postgres_integer)
      × Within max_duration n.runtime
      × Within max_duration n.compile
      × ((n.verdict ≢ Verdict.accepted)
          ⊎ ((0 < n.total_count) × (n.passed_count ≡ n.total_count) × (is_some n.runtime ≡ true)))
unfolding normalize_runner_result
normalize_runner_result_bounds r n h = ground arith
