-- ===== src/Tests/Ending.antt =====
-- Matches that end.
use mathlib.Core.Option
use leetbattle.Shared.{
  ℕ, ◌≡◌, ◌≢◌, refl, true, false, Option, some, none, [], ◌∷◌, arith, find, inl,
}
use leetbattle.Domain.Types.{active, EndReason, Verdict, one, two}
use leetbattle.Domain.Errors.{ok}
use leetbattle.Domain.StateMachine.{
  assert_transition, should_apply_record, compare_winner_candidates,
}
use leetbattle.Store.Rows.{Db, completed, queued}
use leetbattle.Store.Tx.{
  pure, lift, gets, guard, expect, ◌>>=◌, clock_timestamp, on_matches, on_participants,
  on_executions, on_events, on_records,
}
use leetbattle.Match.Events.{append_event, is_match}
use leetbattle.Match.Locks.{lock_match, lock_participant}
use leetbattle.Match.Results.{RunnerResult, execution_completed_event}
use leetbattle.Match.Finish.{
  count_result, settle_players, announce_rematch, open_rematch, finalize_open, finalize_match,
  of_user,
}
use leetbattle.Match.Finish.Row.{HasResult}
use leetbattle.Match.Finish.Result.{finalize_match-HasResult}
use leetbattle.Match.Finish.Records.{credit, finalize_match-records}
use leetbattle.Match.Disconnects.{
  forfeit_to, decide_disconnects, check_disconnects, evaluate_active, evaluate_disconnects,
}
use leetbattle.Match.Disconnects.Absence.{IsAbandoned, evaluate_disconnects-IsAbandoned}
use leetbattle.Match.Completion.{
  CompletedExecution, is_earlier, first_of_order, finalize_candidate, maybe_finalize_accepted,
  settle_disconnects, settle_submission, apply_result, complete_open, complete_execution_tx,
}
use leetbattle.Match.Completion.Order.{
  IsEarliest, first_of_order-IsEarliest, is_earlier-compare, candidate_of,
}
use leetbattle.Domain.StateMachine.Laws.{is_negative}
use leetbattle.Match.Completion.Once.{complete_execution_tx-once}
use leetbattle.Tests.Fixtures.{
  engine, match_in, player, players, abandoned, waiting, submission, all_passed, database,
}

abbrev decided : Db
decided = database (match_in active) players (submission 9 1 completed (some all_passed) ∷ [])

abbrev forfeited : Db
forfeited = (finalize_match engine 7 EndReason.forfeit (some 1) decided).1

finalized : finalize_match engine 7 EndReason.forfeit (some 1) decided ≡ (ok true, forfeited)
unfolding finalize_match finalize_open lock_match assert_transition should_apply_record
    settle_players count_result open_rematch announce_rematch append_event pure lift gets guard
    expect clock_timestamp on_matches on_participants on_events on_records ◌>>=◌
finalized = refl

finalize_match-HasResult_example :
    HasResult (some 1) EndReason.forfeit (find (is_match 7) forfeited.matches)
finalize_match-HasResult_example =
    finalize_match-HasResult engine 7 EndReason.forfeit (some 1) decided forfeited finalized

one_two : ◌≢◌ {A = ℕ} 1 2
one_two = ground arith

three_one : ◌≢◌ {A = ℕ} 3 1
three_one = ground arith

three_two : ◌≢◌ {A = ℕ} 3 2
three_two = ground arith

finalize_match-records_example :
    (find (of_user 1) forfeited.records
      ≡ Option.map (credit true true) (find (of_user 1) decided.records))
    × (find (of_user 2) forfeited.records
        ≡ Option.map (credit true false) (find (of_user 2) decided.records))
    × (find (of_user 3) forfeited.records ≡ find (of_user 3) decided.records)
finalize_match-records_example =
    finalize_match-records engine 7 EndReason.forfeit (some 1) (match_in active) (player 1 one)
      (player 2 two) 3 decided forfeited refl refl one_two three_one three_two finalized

abbrev won : Db
won = (maybe_finalize_accepted engine 7 decided).1

abbrev left_alone : Db
left_alone = database (match_in active) abandoned []

abbrev settled : Db
settled = (evaluate_disconnects engine 7 left_alone).1

left_forfeits : evaluate_disconnects engine 7 left_alone ≡ (ok true, settled)
unfolding evaluate_disconnects evaluate_active check_disconnects decide_disconnects forfeit_to
    finalize_match finalize_open lock_match assert_transition should_apply_record settle_players
    count_result open_rematch announce_rematch append_event pure lift gets guard expect
    clock_timestamp on_matches on_participants on_events on_records ◌>>=◌
left_forfeits = refl

evaluate_disconnects-IsAbandoned_example : IsAbandoned 7 left_alone settled
evaluate_disconnects-IsAbandoned_example =
    evaluate_disconnects-IsAbandoned engine 7 left_alone settled left_forfeits

abbrev judging : Db
judging = database (match_in active) waiting (submission 9 1 queued none ∷ [])

abbrev wrong : RunnerResult
wrong = record {
  verdict = Verdict.wrong_answer;
  passed_count = 4;
  total_count = 10;
  runtime = some 100;
  compile = none;
  details = none;
}

abbrev right : RunnerResult
right = record {
  verdict = Verdict.accepted;
  passed_count = 10;
  total_count = 10;
  runtime = some 100;
  compile = none;
  details = none;
}

abbrev judged : Db
judged = (complete_execution_tx engine 9 wrong judging).1

abbrev outcome : CompletedExecution
outcome = record {
  execution = 9;
  verdict = Verdict.wrong_answer;
  cooldown_until = some 11000001;
  winner = none;
  match_state = active;
  duplicate = false;
}

wrong_written : complete_execution_tx engine 9 wrong judging ≡ (ok outcome, judged)
unfolding complete_execution_tx complete_open apply_result settle_submission settle_disconnects
    maybe_finalize_accepted finalize_candidate first_of_order evaluate_disconnects evaluate_active
    check_disconnects decide_disconnects forfeit_to finalize_match finalize_open lock_match
    lock_participant append_event execution_completed_event pure lift gets guard expect
    clock_timestamp on_matches on_participants on_executions on_events ◌>>=◌
wrong_written = refl

judged_match : find (is_match 7) judged.matches ≡ some (record (match_in active) { version = 5 })
unfolding complete_execution_tx complete_open apply_result settle_submission settle_disconnects
    maybe_finalize_accepted finalize_candidate first_of_order evaluate_disconnects evaluate_active
    check_disconnects decide_disconnects forfeit_to finalize_match finalize_open lock_match
    lock_participant append_event execution_completed_event pure lift gets guard expect
    clock_timestamp on_matches on_participants on_executions on_events ◌>>=◌
judged_match = refl

complete_execution_tx-once_example :
    (cooldown : Option ℕ) × (complete_execution_tx engine 9 right judged ≡ (
      ok (record {
        execution = 9;
        verdict = Verdict.wrong_answer;
        cooldown_until = cooldown;
        winner = none;
        match_state = active;
        duplicate = true;
      }),
      judged,
    ))
complete_execution_tx-once_example =
    complete_execution_tx-once engine 9 wrong right judging judged outcome
      (submission 9 1 queued none) (record (match_in active) { version = 5 }) refl refl
      wrong_written judged_match

first_of_order-IsEarliest_example :
    let xs =
      submission 9 1 completed (some all_passed)
      ∷ submission 8 2 completed (some all_passed)
      ∷ [] in
    IsEarliest xs (first_of_order xs)
first_of_order-IsEarliest_example =
    first_of_order-IsEarliest
      (submission 9 1 completed (some all_passed) ∷ submission 8 2 completed (some all_passed) ∷ [])

is_earlier-compare_example :
    let x = submission 9 1 completed (some all_passed) in
    let y = submission 8 2 completed (some all_passed) in
    is_earlier x y
    ≡ is_negative (compare_winner_candidates (candidate_of x 5000) (candidate_of y 5000))
is_earlier-compare_example =
    is_earlier-compare (submission 9 1 completed (some all_passed))
      (submission 8 2 completed (some all_passed)) 5000 5000 refl refl (inl refl)
