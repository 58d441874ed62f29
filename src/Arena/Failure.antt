-- ===== src/Arena/Failure.antt =====
-- `persistFailure` of AiMlArenaService: a failure of the judge is retried later, or ends the match
-- without a contest.
pub mod Retry
use leetbattle.Shared.{
  ℕ, ◌+◌, Bool, true, false, not, Option, some, none, List, [], ◌++◌, any, update, update_first,
  nat_beq, ◌==◌, if◌then◌else◌,
}
use leetbattle.Domain.Types.{duel, mode_eq, judging, state_eq, judge_failed}
use leetbattle.Store.Evaluations.{
  failed, FailureCode, budget_circuit_open, judge_request_failed, EvaluationRow,
}
use leetbattle.Store.Rows.{MatchRow, ParticipantRow, Event, match_finished}
use leetbattle.Store.Tx.{
  M, pure, gets, begin, ◌>>=◌, ◌>>◌, clock_timestamp, on_matches, on_participants, on_evaluations,
}
use leetbattle.Match.Config.{seconds}
use leetbattle.Match.Events.{append_event}
use leetbattle.Match.Finish.{close}
use leetbattle.Arena.Config.{Arena}
use leetbattle.Arena.Commands.{lock_arena_match}
use leetbattle.Arena.Telemetry.{Attempt, safe_attempts}
use leetbattle.Arena.Endings.{is_judging, open_arena_rematch, without_contest}
use leetbattle.Arena.Claims.{Claim, is_held}

-- AiMlJudgeFailure.
pub record JudgeFailure : Type 0 where
  pub code : FailureCode
  pub is_retryable : Bool
  pub attempt_count : ℕ
  pub attempts : List Attempt

-- What is made of an error: `none` is any other than AiMlJudgeUnavailableError.
abbrev pub failure_of : Option JudgeFailure → JudgeFailure
failure_of (some f) = f
failure_of none = record {
  code = judge_request_failed;
  is_retryable = true;
  attempt_count = 1;
  attempts = [];
}

abbrev pub is_budget_open : FailureCode → Bool
is_budget_open budget_circuit_open = true
is_budget_open _ = false

abbrev pub retry_at : Arena → JudgeFailure → ℕ → Option ℕ
retry_at a f now =
    if not f.is_retryable
    then none
    else if is_budget_open f.code
    then some (now + seconds a.budget_circuit_recovery_rate_limit_seconds)
    else some (now + seconds a.recovery_rate_limit_seconds)

abbrev pub failed_row : JudgeFailure → Option ℕ → EvaluationRow → EvaluationRow
failed_row f at w = record w {
  status = failed;
  attempt_count = w.attempt_count + f.attempt_count;
  provider_attempts = w.provider_attempts ++ safe_attempts f.attempts;
  failure_code = some f.code;
  failure_retryable = f.is_retryable;
  retry_not_before = at;
  worker_claim = none;
  claimed_at = none;
}

abbrev pub in_match : ℕ → ParticipantRow → Bool
in_match id p = nat_beq p.match_id id

unfoldable pub end_failed : Arena → MatchRow → M (Unit {0})
end_failed a m = do
  now ← clock_timestamp
  on_matches (update_first (is_judging m.id) (close none judge_failed false now))
  on_participants (update (in_match m.id) without_contest)
  append_event m.id (match_finished judge_failed none)
  if m.mode == duel then open_arena_rematch a m.id else pure tt

unfoldable pub announce_failure : Arena → MatchRow → JudgeFailure → Option ℕ → M (Unit {0})
announce_failure a m f at = do
  append_event m.id (Event.judge_failed at f.is_retryable)
  if f.is_retryable then pure tt else end_failed a m

unfoldable pub fail_held : Arena → MatchRow → Claim → JudgeFailure → M (Unit {0})
fail_held a m c f = do
  now ← clock_timestamp
  held ← gets (λ db. any (is_held c.row.id c.claim) db.evaluations)
  on_evaluations (update_first (is_held c.row.id c.claim) (failed_row f (retry_at a f now)))
  if held then announce_failure a m f (retry_at a f now) else pure tt

unfoldable pub persist_failure_tx : Arena → Claim → JudgeFailure → M (Unit {0})
persist_failure_tx a c f = do
  m ← lock_arena_match c.row.match_id
  if m.state == judging then fail_held a m c f else pure tt

unfoldable pub persist_failure : Arena → Claim → Option JudgeFailure → M (Unit {0})
persist_failure a c error = begin (persist_failure_tx a c (failure_of error))
