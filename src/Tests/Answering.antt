-- ===== src/Tests/Answering.antt =====
-- Answers that are sent, refused and put in at the deadline, and the material of a question.
use leetbattle.Shared.{ℕ, ◌≡◌, refl, true, false, some, List, [], ◌∷◌, arith}
use leetbattle.Domain.Types.{active}
use leetbattle.Domain.Errors.{ok, err, domain_error, answer_already_submitted}
use leetbattle.Store.Rows.{Db}
use leetbattle.Store.Rollback.{IsUnwritten}
use leetbattle.Store.Tx.{
  pure, raise, gets, guard, expect, begin, ◌>>=◌, clock_timestamp, new_id, on_matches, on_events,
  on_receipts, on_answers, on_evaluations,
}
use leetbattle.Match.Events.{append_event}
use leetbattle.Match.Locks.{require_actor, lock_participant}
use leetbattle.Match.Receipts.{assert_idempotency_key, complete_command}
use leetbattle.Arena.Answer.{
  line_ends, collapse, tighten, trim, normalize_answer, measure_answer, answer_limits,
}
use leetbattle.Arena.Answer.Bounds.{IsStorable, measure_answer-IsStorable}
use leetbattle.Arena.Material.{parse_private_material}
use leetbattle.Arena.Material.Rubric.{
  IsRubric, material_json, parse-material_json, parse_private_material-IsRubric,
}
use leetbattle.Arena.Commands.{lock_arena_match, reserve, reserve_found}
use leetbattle.Arena.Preparation.{
  start_judging, insert_evaluation, evaluate_answers, prepare_active, prepare_evaluation,
}
use leetbattle.Arena.Submission.{
  Prepared, within_limits, lock_answer, submit_fresh, submit_answer_tx, place_answer,
}
use leetbattle.Arena.Submission.Refused.{IsAsked, place_answer-refused}
use leetbattle.Arena.Submission.Placed.{IsPlaced, place_answer-IsPlaced}
use leetbattle.Arena.Deadlines.{Processed, time_out_players, process_deadline, process_deadline_tx}
use leetbattle.Arena.Deadlines.Answered.{IsProcessed, process_deadline-IsProcessed}
use leetbattle.Tests.Fixtures.{player}
use leetbattle.Domain.Types.{one}
use leetbattle.Tests.Rounds.{arena, material, answer_of, round_in, round_with}

-- " a\r\n\tb "
abbrev typed : List ℕ
typed = 32 ∷ 97 ∷ 13 ∷ 10 ∷ 9 ∷ 98 ∷ 32 ∷ []

tidied : normalize_answer (λ cs. cs) typed ≡ 97 ∷ 10 ∷ 98 ∷ []
unfolding normalize_answer line_ends collapse tighten trim
tidied = refl

short_enough : (measure_answer arena.nfc answer_limits typed).violations ≡ []
unfolding measure_answer normalize_answer line_ends collapse tighten trim
short_enough = refl

measure_answer-IsStorable_example : IsStorable (measure_answer arena.nfc answer_limits typed)
measure_answer-IsStorable_example = measure_answer-IsStorable arena.nfc typed short_enough

rubric : IsRubric material.criteria
rubric = record {
  at_least = omega arith;
  at_most = omega arith;
  of_hundred = refl;
  positive = (omega arith, (omega arith, (omega arith, tt)));
}

parse-material_json_example : parse_private_material (material_json material) ≡ some material
parse-material_json_example = parse-material_json material rubric

parse_private_material-IsRubric_example : IsRubric material.criteria
parse_private_material-IsRubric_example =
    parse_private_material-IsRubric (material_json material) material
      (parse-material_json material rubric)

-- The second player has answered.
abbrev half : Db
half = round_with (round_in active 2000000) (answer_of 2 (98 ∷ []) ∷ []) []

abbrev placed : Db
placed = (place_answer arena (some 1) 7 (9 ∷ []) typed half).1

abbrev both : Prepared
both = record { evaluation = some 50; is_duplicate = false }

places : place_answer arena (some 1) 7 (9 ∷ []) typed half ≡ (ok both, placed)
unfolding place_answer require_actor assert_idempotency_key within_limits submit_answer_tx
    lock_arena_match lock_participant reserve reserve_found on_receipts submit_fresh lock_answer
    complete_command prepare_evaluation prepare_active evaluate_answers insert_evaluation
    start_judging parse_private_material measure_answer normalize_answer line_ends collapse tighten
    trim append_event pure raise gets guard expect begin clock_timestamp new_id on_matches on_events
    on_answers on_evaluations ◌>>=◌
places = refl

place_answer-IsPlaced_example : IsPlaced arena (some 1) 7 typed half placed
place_answer-IsPlaced_example =
    place_answer-IsPlaced arena (some 1) 7 (9 ∷ []) typed half placed both places refl

abbrev answered : Db
answered = round_with (round_in active 2000000) (answer_of 1 (97 ∷ []) ∷ []) []

asked : IsAsked arena 1 7 (9 ∷ []) typed (round_in active 2000000) (player 1 one) answered
asked = record {
  valid = refl;
  unused = refl;
  found_match = refl;
  found_player = refl;
  fits = short_enough;
}

place_answer-refused_example :
    ((place_answer arena (some 1) 7 (9 ∷ []) typed answered).0
      ≡ err (domain_error answer_already_submitted 409))
    × IsUnwritten answered (place_answer arena (some 1) 7 (9 ∷ []) typed answered).1
place_answer-refused_example =
    place_answer-refused arena 1 7 (9 ∷ []) typed (round_in active 2000000) (player 1 one)
      answer_already_submitted answered asked refl

-- The deadline has come.
abbrev due : Db
due = round_with (round_in active 900000) (answer_of 1 (97 ∷ []) ∷ []) []

abbrev timed_out : Db
timed_out = (process_deadline_tx arena 7 due).1

abbrev judged : Processed
judged = record { is_processed = true; evaluation = some 50 }

times_out : process_deadline_tx arena 7 due ≡ (ok judged, timed_out)
unfolding process_deadline_tx process_deadline time_out_players lock_arena_match prepare_evaluation
    prepare_active evaluate_answers insert_evaluation start_judging parse_private_material
    append_event pure raise gets guard expect clock_timestamp new_id on_matches on_events on_answers
    on_evaluations ◌>>=◌
times_out = refl

process_deadline-IsProcessed_example : IsProcessed 7 due timed_out
process_deadline-IsProcessed_example =
    process_deadline-IsProcessed arena 7 due timed_out judged times_out refl
