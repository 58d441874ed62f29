-- ===== src/Tests/Evaluating.antt =====
-- Evaluations that workers claim, complete and give up.
use leetbattle.Shared.{◌+◌, ◌≡◌, ◌≢◌, refl, true, some, none, List, [], ◌∷◌, arith, find}
use leetbattle.Domain.Types.{MatchState}
use leetbattle.Domain.Errors.{ok}
use leetbattle.Store.Rows.{Db}
use leetbattle.Store.Evaluations.{pending, in_progress, budget_circuit_open}
use leetbattle.Store.Rollback.{IsUnwritten}
use leetbattle.Store.Clock.{tick}
use leetbattle.Store.Tx.{
  pure, raise, gets, guard, expect, begin, ◌>>=◌, clock_timestamp, on_matches, on_participants,
  on_events, on_records, on_evaluations,
}
use leetbattle.Match.Events.{append_event}
use leetbattle.Match.Calls.{advances}
use leetbattle.Arena.Commands.{lock_arena_match}
use leetbattle.Arena.Endings.{announce_open, open_arena_rematch}
use leetbattle.Arena.Claims.{Claim}
use leetbattle.Arena.Judgment.{
  count_judged, judge_players, finish_judged, complete_held, persist_success_tx, persist_success,
}
use leetbattle.Arena.Judgment.Resolution.{resolve}
use leetbattle.Arena.Judgment.Result.{IsJudged, persist_success-IsJudged}
use leetbattle.Arena.Telemetry.{safe_attempts}
use leetbattle.Arena.Leases.{IsClaimed, claim_evaluation-IsClaimed}
use leetbattle.Arena.Leases.Lost.{persist_lost}
use leetbattle.Arena.Failure.{failed_row, persist_failure}
use leetbattle.Arena.Failure.Retry.{IsHolder, delay, persist_failure-IsClaimed}
use leetbattle.Match.Lifecycle.Rows.{Evolves}
use leetbattle.Arena.Preparation.{is_answer_of}
use leetbattle.Arena.Calls.{Step, plays, claims, succeeds, take_steps}
use leetbattle.Arena.Lifecycle.Steps.{take_steps-Evolves}
use leetbattle.Arena.Rounds.History.{take_steps-locked}
use leetbattle.Tests.Fixtures.{engine}
use leetbattle.Tests.Rounds.{
  arena, evaluation, answer_of, round_in, round_with, claim, judged, verdict, failure,
}

abbrev waiting : Db
waiting =
    round_with (round_in MatchState.judging 900000)
      (answer_of 1 (97 ∷ []) ∷ answer_of 2 (98 ∷ []) ∷ []) (evaluation pending none ∷ [])

claim_evaluation-IsClaimed_example : IsClaimed arena 40 (evaluation pending none) waiting
claim_evaluation-IsClaimed_example =
    claim_evaluation-IsClaimed arena 40 (evaluation pending none) waiting refl refl (omega arith)

-- The claim of a worker that is not the holder.
abbrev lost : Claim
lost = record { row = evaluation in_progress (some 44); claim = 44 }

persist_lost_example :
    IsUnwritten judged (persist_success arena lost verdict judged).1
    × IsUnwritten judged (persist_failure arena lost none judged).1
    × ((persist_success arena lost verdict judged).0 ≢ ok true)
persist_lost_example = persist_lost arena lost verdict none judged refl

abbrev over : Db
over = (persist_success arena claim verdict judged).1

completed : persist_success arena claim verdict judged ≡ (ok true, over)
unfolding persist_success persist_success_tx complete_held finish_judged judge_players count_judged
    lock_arena_match resolve open_arena_rematch announce_open append_event safe_attempts pure raise
    gets guard expect begin clock_timestamp on_matches on_participants on_events on_records
    on_evaluations ◌>>=◌
completed = refl

persist_success-IsJudged_example :
    IsJudged claim verdict (resolve claim.row.snapshot verdict) judged over
persist_success-IsJudged_example =
    persist_success-IsJudged arena (round_in MatchState.judging 900000) claim verdict judged over
      refl refl completed

held : IsHolder claim (round_in MatchState.judging 900000) claim.row judged
held = record {
  found_match = refl;
  is_ai_ml = refl;
  is_judged = refl;
  found_row = refl;
  held = refl;
}

-- Five minutes later.
abbrev later : Db
later = record (persist_failure arena claim (some (failure budget_circuit_open)) judged).1 {
  clock = 400000000;
  delays = [];
}

persist_failure-IsClaimed_example :
    ((persist_failure arena claim (some (failure budget_circuit_open)) judged).0 ≡ ok tt)
    × IsClaimed arena 40
        (failed_row
          (failure budget_circuit_open)
          (some ((tick judged).clock + delay arena (failure budget_circuit_open)))
          claim.row)
        later
persist_failure-IsClaimed_example =
    persist_failure-IsClaimed arena claim (round_in MatchState.judging 900000) claim.row
      (failure budget_circuit_open) judged later held refl refl (omega arith)

-- A worker takes the evaluation, a countdown is looked at, and the judge answers.
abbrev steps : List Step
steps =
    claims 40
    ∷ plays (advances 7)
    ∷ succeeds (record { row = evaluation in_progress (some 50); claim = 50 }) verdict
    ∷ []

take_steps-Evolves_example : Evolves waiting.matches (take_steps engine arena steps waiting).matches
take_steps-Evolves_example = take_steps-Evolves engine arena steps waiting

take_steps-locked_example :
    find (is_answer_of 7 2) (take_steps engine arena steps waiting).answers
    ≡ some (answer_of 2 (98 ∷ []))
take_steps-locked_example =
    take_steps-locked engine arena steps waiting 7 2 (answer_of 2 (98 ∷ [])) refl
