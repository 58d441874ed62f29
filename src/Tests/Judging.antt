-- ===== src/Tests/Judging.antt =====
-- Judgments, and results of the runner.
use leetbattle.Shared.{
  ◌==◌, list_eq, nat_eq, list_beq_iff, ℕ, ◌<◌, ◌≤◌, ◌≡◌, ◌≢◌, ◌↔◌, ◌⊎◌, refl, true, false, not,
  ◌&&◌, some, none, List, [], ◌∷◌, arith, sum_by, is_some, ◌+◌,
}
use leetbattle.Domain.Types.{duel, practice, Verdict, lobby, countdown, active, finished}
use leetbattle.Domain.Errors
use leetbattle.Domain.StateMachine.{Candidate, zero, compare_winner_candidates, can_transition}
use leetbattle.Domain.StateMachine.Laws.{
  Leads, stay, go, opposite, is_ahead, Agree, compare_winner_total_order,
}
use leetbattle.Judge.Scoring.Types.{
  whole, a, b, Criterion, CriterionScore, Score, Snapshot, DuelOutput, PracticeOutput, DuelResult,
  PracticeResult, ok, TieBreak, blank_forfeit, correctness,
}
use leetbattle.Judge.Scoring.Official.{score_of, compute_official_duel_scores}
use leetbattle.Judge.Scoring.Criteria.{
  Fits, total, required_tie_break, normalize_criterion_scores, IsDecided, leads_b, tie_order,
}
use leetbattle.Judge.Scoring.Duel.{validate_duel_scoring, validate_practice_scoring}
use leetbattle.Judge.Scoring.Duel.Verdicts.{
  official_of, validate_duel_winner_ahead, validate_duel_blank, validate_duel_higher,
  validate_duel_tie_break,
}
use leetbattle.Judge.Scoring.Duel.Practice.{validate_practice_total}
use leetbattle.Arena.Judgment.Resolution.{resolve}
use leetbattle.Arena.Agreement.{duel_success, verdict_of, resolve-validate}
use leetbattle.Tests.Rounds.{snapshot_with}
use leetbattle.Match.Results.{
  RawResult, RunnerResult, thousandths, normalize_runner_result, normalize_runner_result_bounds,
  max_postgres_integer, max_duration, Within,
}

abbrev criteria : List Criterion
criteria =
    record { criterion = "technical_correctness"; max_score = 60 }
    ∷ record { criterion = "clarity"; max_score = 40 }
    ∷ []

abbrev given : ℕ → ℕ → List CriterionScore
given m n =
    record { criterion = "clarity"; score = whole n }
    ∷ record { criterion = "technical_correctness"; score = whole m }
    ∷ []

abbrev checked : ℕ → ℕ → List Score
checked m n =
    record { criterion = "technical_correctness"; points = m }
    ∷ record { criterion = "clarity"; points = n }
    ∷ []

abbrev text_x : List ℕ
text_x = 120 ∷ []

abbrev text_y : List ℕ
text_y = 121 ∷ []

abbrev duel_of : List ℕ → List ℕ → Snapshot
duel_of x y = record {
  mode = duel;
  schema_version = "v1";
  criteria = criteria;
  answer_a = x;
  answer_b = some y;
}

abbrev higher_output : DuelOutput
higher_output = record {
  schema_version = "v1";
  scores_a = given 50 30;
  scores_b = given 40 30;
  winner = a;
  tie_break = TieBreak.none;
}

abbrev higher_result : DuelResult
higher_result = record {
  scores_a = checked 50 30;
  scores_b = checked 40 30;
  raw_a = 80;
  raw_b = 70;
  official_a = 80;
  official_b = 70;
  winner = a;
  tie_break = TieBreak.none;
}

higher_accepted : validate_duel_scoring (duel_of text_x text_y) higher_output ≡ ok higher_result
unfolding validate_duel_scoring normalize_criterion_scores total compute_official_duel_scores
higher_accepted = refl

abbrev tied_output : DuelOutput
tied_output = record {
  schema_version = "v1";
  scores_a = given 40 40;
  scores_b = given 50 30;
  winner = b;
  tie_break = correctness;
}

abbrev tied_result : DuelResult
tied_result = record {
  scores_a = checked 40 40;
  scores_b = checked 50 30;
  raw_a = 80;
  raw_b = 80;
  official_a = 80;
  official_b = 81;
  winner = b;
  tie_break = correctness;
}

tied_accepted : validate_duel_scoring (duel_of text_x text_y) tied_output ≡ ok tied_result
unfolding validate_duel_scoring normalize_criterion_scores total compute_official_duel_scores
    required_tie_break
tied_accepted = refl

tied-IsDecided : IsDecided tied_result.scores_a tied_result.scores_b tie_order b correctness
tied-IsDecided = leads_b 40 50 refl refl (omega arith)

abbrev blank_output : DuelOutput
blank_output = record {
  schema_version = "v1";
  scores_a = given 0 0;
  scores_b = given 40 30;
  winner = b;
  tie_break = blank_forfeit;
}

abbrev blank_result : DuelResult
blank_result = record {
  scores_a = checked 0 0;
  scores_b = checked 40 30;
  raw_a = 0;
  raw_b = 70;
  official_a = 0;
  official_b = 70;
  winner = b;
  tie_break = blank_forfeit;
}

blank_accepted : validate_duel_scoring (duel_of [] text_y) blank_output ≡ ok blank_result
unfolding validate_duel_scoring normalize_criterion_scores total compute_official_duel_scores
blank_accepted = refl

tied_official :
    compute_official_duel_scores (whole 80) (whole 80) b none
    ≡ ok (record { score_a = 80; score_b = 81 })
unfolding compute_official_duel_scores
tied_official = refl

validate_duel_winner_ahead_example :
    let r = tied_result in
    (score_of a (official_of r) < score_of b (official_of r))
    × (score_of b (official_of r) ≤ 100)
    × (r.official_a ≤ r.raw_a + 1)
    × (r.raw_a ≤ r.official_a + 1)
    × (r.official_b ≤ r.raw_b + 1)
    × (r.raw_b ≤ r.official_b + 1)
    × (r.raw_a ≡ total r.scores_a)
    × (r.raw_b ≡ total r.scores_b)
    × Fits criteria r.scores_a
    × Fits criteria r.scores_b
validate_duel_winner_ahead_example =
    validate_duel_winner_ahead (duel_of text_x text_y) tied_output tied_result tied_accepted

validate_duel_blank_example :
    let r = blank_result in
    ((duel_of [] text_y).answer_b ≢ some [])
    × (r.winner ≡ b)
    × (r.raw_a ≡ 0)
    × (r.official_a ≡ 0)
    × (1 ≤ r.official_b)
    × (r.tie_break ≡ blank_forfeit)
validate_duel_blank_example =
    validate_duel_blank (duel_of [] text_y) blank_output blank_result blank_accepted refl

not_blank_x : text_x ≢ []
not_blank_x = ground (arith, list_beq_iff text_x [])

not_blank_y : text_y ≢ []
not_blank_y = ground (arith, list_beq_iff text_y [])

different : text_x ≢ text_y
different = ground (arith, list_beq_iff text_x text_y)

eighty : higher_result.raw_a ≢ higher_result.raw_b
eighty = ground arith

validate_duel_higher_example :
    let r = higher_result in
    ((r.raw_a < r.raw_b) × (r.winner ≡ b) ⊎ (r.raw_b < r.raw_a) × (r.winner ≡ a))
    × (r.official_a ≡ r.raw_a)
    × (r.official_b ≡ r.raw_b)
validate_duel_higher_example =
    validate_duel_higher (duel_of text_x text_y) higher_output higher_result text_y higher_accepted
      refl not_blank_x not_blank_y different eighty

resolve-validate_example :
    resolve (snapshot_with (duel_of text_x text_y)) (duel_success tied_result 1 [])
    ≡ verdict_of tied_result
resolve-validate_example =
    resolve-validate (snapshot_with (duel_of text_x text_y)) tied_output tied_result 1 []
      tied_accepted

validate_duel_tie_break_example : (tied_result.winner ≡ b) × (tied_result.tie_break ≡ correctness)
validate_duel_tie_break_example =
    validate_duel_tie_break (duel_of text_x text_y) tied_output tied_result text_y b correctness
      tied_accepted refl not_blank_x not_blank_y different refl tied-IsDecided

abbrev answer : Snapshot
answer = record {
  mode = practice;
  schema_version = "v1";
  criteria = criteria;
  answer_a = text_x;
  answer_b = none;
}

abbrev answer_output : PracticeOutput
answer_output = record { schema_version = "v1"; scores_a = given 45 20 }

abbrev answer_result : PracticeResult
answer_result = record { scores_a = checked 45 20; raw_a = 65; official_a = 65 }

answer_accepted : validate_practice_scoring answer answer_output ≡ ok answer_result
unfolding validate_practice_scoring normalize_criterion_scores total
answer_accepted = refl

validate_practice_total_example :
    (practice ≡ practice)
    × (answer.answer_b ≡ none)
    × ((text_x == []) ≡ false)
    × Fits criteria answer_result.scores_a
    × (65 ≡ total answer_result.scores_a)
    × (65 ≤ sum_by (λ c. c.max_score) criteria)
validate_practice_total_example =
    validate_practice_total answer answer_output answer_result answer_accepted

abbrev accepted_raw : RawResult
accepted_raw = record {
  verdict = some Verdict.accepted;
  passed_count = thousandths 10000;
  total_count = thousandths 10000;
  runtime = some (thousandths 5250);
  compile = none;
  details = none;
}

abbrev accepted_result : RunnerResult
accepted_result = record {
  verdict = Verdict.accepted;
  passed_count = 10;
  total_count = 10;
  runtime = some 5250;
  compile = none;
  details = none;
}

normalized : normalize_runner_result accepted_raw ≡ Errors.ok accepted_result
unfolding normalize_runner_result
normalized = refl

normalize_runner_result_bounds_example :
    let n = accepted_result in
    (n.passed_count ≤ n.total_count)
    × (n.total_count ≤ max_postgres_integer)
    × Within max_duration n.runtime
    × Within max_duration n.compile
    × ((n.verdict ≢ Verdict.accepted)
        ⊎ ((0 < n.total_count) × (n.passed_count ≡ n.total_count) × (is_some n.runtime ≡ true)))
normalize_runner_result_bounds_example =
    normalize_runner_result_bounds accepted_raw accepted_result normalized

abbrev sooner : Candidate
sooner = record { received_at = 1000000; runtime = 90; sequence = 2 }

abbrev faster : Candidate
faster = record { received_at = 1001500; runtime = 10; sequence = 3 }

abbrev slower : Candidate
slower = record { received_at = 1001500; runtime = 11; sequence = 1 }

compare_winner_total_order_example :
    (compare_winner_candidates faster sooner ≡ opposite (compare_winner_candidates sooner faster))
    × ((compare_winner_candidates sooner faster ≡ zero) ↔ Agree sooner faster)
    × (((is_ahead sooner faster && is_ahead faster slower) && not (is_ahead sooner slower)) ≡ false)
compare_winner_total_order_example = compare_winner_total_order sooner faster slower

played : Leads lobby finished
unfolding can_transition
played =
    go {s = lobby} {t = countdown} refl
      (go {s = countdown} {t = active} refl (go {s = active} {t = finished} refl stay))
