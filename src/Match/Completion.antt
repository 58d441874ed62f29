-- ===== src/Match/Completion.antt =====
-- `completeExecution`, `maybeFinalizeAccepted`, `getExecutionResult` and the recovery of stale
-- executions, of match-engine.ts.
pub mod Order
pub mod Decision
pub mod Once
use leetbattle.Shared.{
  sort_by, take, ℕ, ◌+◌, max, Bool, true, false, not, ◌&&◌, ◌||◌, Option, some, none, List, [], ◌∷◌,
  length, find, select, any, update_first, nat_beq, leb, ltb, ◌==◌, if◌then◌else◌, is_some, is_none,
  option_eq, nat_eq, map,
}
use leetbattle.Domain.Types.{
  Verdict, infra_error, ExecutionKind, run, submit, MatchState, active, Activity, thinking,
  cooldown, EndReason, state_eq, verdict_eq, kind_eq,
}
use leetbattle.Domain.Types
use leetbattle.Domain.Errors.{domain_error, fault, match_not_found, not_a_participant}
use leetbattle.Store.Rows.{
  Db, MatchRow, ParticipantRow, ExecutionRow, ExecutionStatus, completed, is_completed, Summary,
}
use leetbattle.Store.Tx.{
  M, pure, gets, guard, expect, lift, begin, ◌>>=◌, ◌>>◌, clock_timestamp, on_participants,
  on_executions,
}
use leetbattle.Match.Config.{Engine, seconds}
use leetbattle.Match.Events.{append_event}
use leetbattle.Match.Locks.{require_actor, lock_match, lock_participant}
use leetbattle.Match.Results.{
  RawResult, RunnerResult, thousandths, normalize_runner_result, execution_completed_event,
}
use leetbattle.Match.Countdown.{get_or}
use leetbattle.Match.Finish.{finalize_match}
use leetbattle.Match.Disconnects.{is_accepted, is_inflight, evaluate_disconnects}
use leetbattle.Match.Executions.{is_execution, is_open_execution, awaits, is_run}

-- CompletedExecution.
pub record CompletedExecution : Type 0 where
  pub execution : ℕ
  pub verdict : Verdict
  pub cooldown_until : Option ℕ
  pub winner : Option ℕ
  pub match_state : MatchState
  pub duplicate : Bool

-- NULLs come last.
abbrev pub before_runtime : Option ℕ → Option ℕ → Bool
before_runtime none b = false
before_runtime (some a) none = true
before_runtime (some a) (some b) = ltb a b

abbrev pub runtime_of : ExecutionRow → Option ℕ
runtime_of x = elim x.result [ none ↦ none | some s ↦ s.runtime ]

-- ORDER BY received_at, runtime_ms, server_sequence.
unfoldable pub is_earlier : ExecutionRow → ExecutionRow → Bool
is_earlier x y =
    ltb x.received_at y.received_at
    || (nat_beq x.received_at y.received_at
        && (before_runtime (runtime_of x) (runtime_of y)
            || (runtime_of x == runtime_of y && ltb x.sequence y.sequence)))

abbrev pub pick : ExecutionRow → Option ExecutionRow → Option ExecutionRow
pick x none = some x
pick x (some y) = if is_earlier y x then some y else some x

-- LIMIT 1.
unfoldable pub first_of_order : List ExecutionRow → Option ExecutionRow
unfolding is_earlier
first_of_order [] = none
first_of_order (x ∷ xs) = pick x (first_of_order xs)

abbrev pub blocks : ℕ → ExecutionRow → ExecutionRow → Bool
blocks id candidate x = is_inflight id x && leb x.received_at candidate.received_at

unfoldable pub finalize_candidate : Engine → ℕ → Option ExecutionRow → M Bool
finalize_candidate e id none = pure false
finalize_candidate e id (some candidate) = do
  blocked ← gets (λ db. any (blocks id candidate) db.executions)
  if blocked
      then pure false
      else do finalize_match e id EndReason.accepted (some candidate.user); pure true

unfoldable pub maybe_finalize_accepted : Engine → ℕ → M Bool
maybe_finalize_accepted e id = do
  m ← lock_match id
  candidate ← gets (λ db. first_of_order (select (is_accepted id) db.executions))
  if not (m.state == active) || is_some m.winner
      then pure false
      else finalize_candidate e id candidate

abbrev pub summary_of : ExecutionKind → RunnerResult → Option ℕ → Summary
summary_of kind r cooldown_until = record {
  verdict = r.verdict;
  passed_count = r.passed_count;
  total_count = r.total_count;
  runtime = r.runtime;
  compile = r.compile;
  cooldown_until = cooldown_until;
  details = if is_run kind then r.details else none;
}

abbrev pub is_penalized : Bool → ExecutionKind → Verdict → Bool
is_penalized eligible kind verdict =
    eligible
    && (kind == submit && (not (verdict == Verdict.accepted) && not (verdict == infra_error)))

abbrev pub next_activity : ExecutionKind → Verdict → Bool → Activity
next_activity kind verdict penalized =
    if verdict == Verdict.accepted && kind == submit
    then Activity.accepted
    else if penalized
    then cooldown
    else thinking

abbrev pub record_result :
    ExecutionKind → RunnerResult → Activity → Option ℕ → ParticipantRow → ParticipantRow
record_result run r activity cooldown_until p = record p {
  active_execution = none;
  activity = activity;
}
record_result submit r activity cooldown_until p = record p {
  active_execution = none;
  activity = activity;
  best_passed_count = max p.best_passed_count r.passed_count;
  hidden_test_count = some (max (get_or 0 p.hidden_test_count) r.total_count);
  cooldown_until = if is_some cooldown_until then cooldown_until else p.cooldown_until;
}

-- A decided order ends the match, and so may a disconnect that waited for this result.
unfoldable pub settle_disconnects : Engine → MatchRow → M MatchRow
settle_disconnects e m =
    if not (m.state == active) then pure m else do evaluate_disconnects e m.id; lock_match m.id

unfoldable pub settle_submission : Engine → ExecutionRow → MatchRow → M MatchRow
settle_submission e x m =
    if not (x.kind == submit && m.state == active)
    then pure m
    else do maybe_finalize_accepted e m.id; current ← lock_match m.id; settle_disconnects e current

unfoldable pub apply_result :
    Engine
    → MatchRow
    → ExecutionRow
    → RunnerResult
    → Bool
    → Option ℕ
    → Option ParticipantRow
    → M CompletedExecution
apply_result e m x r penalized cooldown_until none = pure (record {
  execution = x.id;
  verdict = r.verdict;
  cooldown_until = none;
  winner = m.winner;
  match_state = m.state;
  duplicate = false;
})
apply_result e m x r penalized cooldown_until (some p) = do
  append_event m.id (
      execution_completed_event p.slot x.kind r (next_activity x.kind r.verdict penalized)
        cooldown_until)
  current ← settle_submission e x m
  pure (record {
    execution = x.id;
    verdict = r.verdict;
    cooldown_until = cooldown_until;
    winner = current.winner;
    match_state = current.state;
    duplicate = false;
  })

abbrev pub complete_row : ExecutionKind → RunnerResult → Option ℕ → ExecutionRow → ExecutionRow
complete_row kind r cooldown_until x = record x {
  status = completed;
  result = some (summary_of kind r cooldown_until);
}

unfoldable pub complete_open :
    Engine → MatchRow → ExecutionRow → RunnerResult → M CompletedExecution
complete_open e m x r = do
  p ← lock_participant m.id x.user
  let eligible = m.state == active && p.active_execution == some x.id
  let penalized = is_penalized eligible x.kind r.verdict
  now ← clock_timestamp
  let cooldown_until : Option ℕ =
      if penalized then some (now + seconds e.failed_submission_cooldown_seconds) else none
  on_executions (update_first (is_open_execution x.id) (complete_row x.kind r cooldown_until))
  waiting ← gets (λ db. find (awaits m.id x.user x.id) db.participants)
  if not eligible then apply_result e m x r penalized cooldown_until none else do
    on_participants (
        update_first (awaits m.id x.user x.id)
          (record_result x.kind r (next_activity x.kind r.verdict penalized) cooldown_until))
    apply_result e m x r penalized cooldown_until waiting

unfoldable pub already_completed : MatchRow → ExecutionRow → M CompletedExecution
already_completed m x = do
  summary ← expect x.result fault
  pure (record {
    execution = x.id;
    verdict = summary.verdict;
    cooldown_until = summary.cooldown_until;
    winner = m.winner;
    match_state = m.state;
    duplicate = true;
  })

unfoldable pub complete_execution_tx : Engine → ℕ → RunnerResult → M CompletedExecution
complete_execution_tx e id r = do
  identity ← gets (λ db. find (is_execution id) db.executions)
  x ← expect identity (domain_error match_not_found 404)
  m ← lock_match x.match_id
  if is_completed x.status then already_completed m x else complete_open e m x r

unfoldable pub complete_execution : Engine → ℕ → RawResult → M CompletedExecution
complete_execution e id raw = do
  r ← lift (normalize_runner_result raw)
  begin (complete_execution_tx e id r)

-- The status with the result, if there is one.
unfoldable pub get_execution_result : Option ℕ → ℕ → M (ExecutionStatus × Option Summary)
get_execution_result actor id = do
  user ← require_actor actor
  found ← gets (λ db. find (λ x. nat_beq x.id id && nat_beq x.user user) db.executions)
  x ← expect found (domain_error not_a_participant 403)
  pure (x.status, if is_completed x.status then x.result else none)

abbrev pub infrastructure_result : RawResult
infrastructure_result = record {
  verdict = some infra_error;
  passed_count = thousandths 0;
  total_count = thousandths 0;
  runtime = none;
  compile = none;
  details = none;
}

unfoldable pub complete_all : Engine → List ℕ → M (Unit {0})
complete_all e [] = pure tt
complete_all e (id ∷ ids) = do complete_execution e id infrastructure_result; complete_all e ids

abbrev pub is_stale : ℕ → ℕ → ExecutionRow → Bool
is_stale now stale_after x =
    not (is_completed x.status) && leb (x.created_at + seconds (max 30 stale_after)) now

unfoldable pub recover : Engine → ℕ → (ExecutionRow → Bool) → M ℕ
recover e stale_after where_match = do
  now ← clock_timestamp
  ids ← gets λ db.
      map (λ x. x.id)
        (take 100 (
          sort_by (λ x. x.created_at)
            (select (λ x. where_match x && is_stale now stale_after x) db.executions)))
  complete_all e ids
  pure (length ids)

unfoldable pub recover_stale_executions : Engine → ℕ → M ℕ
recover_stale_executions e stale_after = recover e stale_after (λ _. true)

unfoldable pub recover_stale_executions_for_match : Engine → ℕ → ℕ → M ℕ
recover_stale_executions_for_match e id stale_after =
    recover e stale_after (λ x. nat_beq x.match_id id)
