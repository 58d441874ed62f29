-- ===== src/Arena/Recovery.antt =====
-- `retryEvaluation`, `recoverEvaluations` and `recoverEvaluationForMatch` of AiMlArenaService.
use leetbattle.Shared.{
  ℕ, ◌+◌, min, max, Bool, true, false, ◌&&◌, Option, some, none, List, [], ◌∷◌, find, select, map,
  nat_beq, sort_by, take, ◌==◌, if◌then◌else◌,
}
use leetbattle.Domain.Types.{judging, state_eq}
use leetbattle.Domain.Errors.{domain_error, invalid_state, rate_limited}
use leetbattle.Store.Evaluations.{EvaluationStatus, pending, in_progress, EvaluationRow}
use leetbattle.Store.Rows.{MatchRow, retry_ai_ml_judging, evaluation_response}
use leetbattle.Store.Tx.{M, pure, gets, guard, expect, begin, ◌>>=◌, ◌>>◌, clock_timestamp}
use leetbattle.Match.Config.{empty_payload}
use leetbattle.Match.Locks.{require_actor, lock_participant}
use leetbattle.Match.Receipts.{Command, complete_command}
use leetbattle.Arena.Config.{Arena}
use leetbattle.Arena.Commands.{lock_arena_match, reserve}
use leetbattle.Arena.Claims.{is_ready, is_stale}
use leetbattle.Arena.Submission.{Judge, evaluate}

abbrev pub retry_command : ℕ → ℕ → List ℕ → Command
retry_command user id key = record {
  actor = user;
  key = key;
  command = retry_ai_ml_judging;
  match_id = some id;
  payload = empty_payload;
}

abbrev pub is_failed : EvaluationStatus → Bool
is_failed EvaluationStatus.failed = true
is_failed _ = false

abbrev pub evaluates : ℕ → EvaluationRow → Bool
evaluates id v = nat_beq v.match_id id

unfoldable pub retry_fresh : MatchRow → ℕ → List ℕ → M (Option ℕ)
retry_fresh m user key = do
  guard (m.state == judging) (domain_error invalid_state 409)
  now ← clock_timestamp
  found ← gets (λ db. find (evaluates m.id) db.evaluations)
  v ← expect found (domain_error invalid_state 409)
  guard (is_failed v.status) (domain_error invalid_state 409)
  guard v.failure_retryable (domain_error invalid_state 409)
  guard (is_ready now v.retry_not_before) (domain_error rate_limited 429)
  complete_command user key (evaluation_response (some v.id))
  pure (some v.id)

unfoldable pub retry_evaluation_tx : Arena → ℕ → ℕ → List ℕ → M (Option ℕ)
retry_evaluation_tx a user id key = do
  m ← lock_arena_match id
  lock_participant id user
  duplicate ← reserve a (retry_command user id key)
  if duplicate then pure none else retry_fresh m user key

unfoldable pub evaluate_found : Arena → Judge → Option ℕ → M Bool
evaluate_found a judge none = pure false
evaluate_found a judge (some id) = evaluate a judge id

unfoldable pub allow_retry : Arena → Option ℕ → ℕ → List ℕ → M (Option ℕ)
allow_retry a actor id key = do
  user ← require_actor actor
  begin (retry_evaluation_tx a user id key)

unfoldable pub retry_evaluation : Arena → Judge → Option ℕ → ℕ → List ℕ → M Bool
retry_evaluation a judge actor id key = do
  evaluation ← allow_retry a actor id key
  evaluate_found a judge evaluation

-- Pending, or claimed for too long.
abbrev pub is_recoverable : Arena → ℕ → EvaluationRow → Bool
is_recoverable a now v = elim v.status [
  | pending ↦ true
  | in_progress ↦ is_stale a now v.claimed_at
  | _ ↦ false
]

unfoldable pub evaluate_all : Arena → Judge → List ℕ → M ℕ
evaluate_all a judge [] = pure 0
evaluate_all a judge (id ∷ ids) = do
  one ← evaluate a judge id
  rest ← evaluate_all a judge ids
  pure (if one then rest + 1 else rest)

-- The workers take the rows one after another: what the others do while one waits for the judge is
-- part of that call.
unfoldable pub recover_evaluations : Arena → Judge → ℕ → M ℕ
recover_evaluations a judge limit = do
  now ← clock_timestamp
  ids ← gets λ db.
      map (λ v. v.id)
        (take (max 1 (min 200 limit)) (
          sort_by (λ v. v.created_at)
            (sort_by (λ v. v.id) (select (is_recoverable a now) db.evaluations))))
  evaluate_all a judge ids

abbrev pub recovers_match : Arena → ℕ → ℕ → EvaluationRow → Bool
recovers_match a now id v = nat_beq v.match_id id && is_recoverable a now v

unfoldable pub recover_found : Arena → Judge → Option EvaluationRow → M ℕ
recover_found a judge none = pure 0
recover_found a judge (some v) = do evaluate a judge v.id; pure 1

unfoldable pub recover_evaluation_for_match : Arena → Judge → ℕ → M ℕ
recover_evaluation_for_match a judge id = do
  now ← clock_timestamp
  found ← gets (λ db. find (recovers_match a now id) db.evaluations)
  recover_found a judge found
