-- ===== src/Judge/Scoring/Duel.antt =====
-- `validateAiMlDuelScoring` and `validateAiMlPracticeScoring` of scoring.ts.
pub mod Verdicts
pub mod Practice
pub mod Kinds
use text.Mathlib.Text.{◌==◌ as str_eq}
use leetbattle.Shared.{
  ℕ, ◌+◌, ◌<◌, ◌≤◌, ◌≡◌, Bool, true, false, ◌||◌, ◌&&◌, not, Option, some, none, List, [], ◌∷◌,
  String, ◌==◌, list_eq, nat_eq, ltb, nat_beq, if◌then◌else◌, any,
}
use leetbattle.Domain.Types.{MatchMode, duel, practice}
use leetbattle.Judge.Scoring.Types.{
  whole, Label, a, b, Score, Snapshot, DuelOutput, PracticeOutput, OfficialScores, DuelResult,
  PracticeResult, Checked, ok, invalid, ◌>>=◌, SemanticError, mode_mismatch,
  schema_version_mismatch, blank_answer_invariant, winner_inconsistent, tie_break_inconsistent,
  exact_equivalence_inconsistent, TieBreak, blank_forfeit, correctness, completeness_or_specificity,
  clarity, exact_equivalence,
}
use leetbattle.Judge.Scoring.Official.{label_beq, other_label, compute_official_duel_scores}
use leetbattle.Judge.Scoring.Criteria.{
  normalize_criterion_scores, total, equal_criterion_scores, required_tie_break,
}

abbrev pub tie_code : TieBreak → ℕ
tie_code TieBreak.none = 0
tie_code blank_forfeit = 1
tie_code correctness = 2
tie_code completeness_or_specificity = 3
tie_code clarity = 4
tie_code exact_equivalence = 5

abbrev pub tie_beq : TieBreak → TieBreak → Bool
tie_beq s t = nat_beq (tie_code s) (tie_code t)

-- A branch of the four for the kind of answers: its checks, then the official scores.
blank_branch : Label → List Score → ℕ → ℕ → DuelOutput → Checked OfficialScores
blank_branch blank blank_scores raw_a raw_b output =
    if any (λ s. not (nat_beq s.points 0)) blank_scores
      || not (label_beq output.winner (other_label blank))
      || not (tie_beq output.tie_break blank_forfeit)
    then invalid blank_answer_invariant
    else compute_official_duel_scores (whole raw_a) (whole raw_b) output.winner (some blank)

identical_branch : List Score → List Score → ℕ → ℕ → DuelOutput → Checked OfficialScores
identical_branch scores_a scores_b raw_a raw_b output =
    if not (nat_beq raw_a raw_b)
      || not (equal_criterion_scores scores_a scores_b)
      || not (tie_beq output.tie_break exact_equivalence)
      || not (label_beq output.winner a)
    then invalid exact_equivalence_inconsistent
    else compute_official_duel_scores (whole raw_a) (whole raw_b) output.winner none

unequal_branch : ℕ → ℕ → DuelOutput → Checked OfficialScores
unequal_branch raw_a raw_b output =
    if not (label_beq output.winner (if ltb raw_b raw_a then a else b))
      || not (tie_beq output.tie_break TieBreak.none)
    then invalid winner_inconsistent
    else compute_official_duel_scores (whole raw_a) (whole raw_b) output.winner none

abbrev contradicts : Option (Label × TieBreak) → DuelOutput → Bool
contradicts none output = false
contradicts (some (winner, reason)) output =
    not (label_beq output.winner winner) || not (tie_beq output.tie_break reason)

tied_branch : List Score → List Score → ℕ → ℕ → DuelOutput → Checked OfficialScores
tied_branch scores_a scores_b raw_a raw_b output =
    if tie_beq output.tie_break TieBreak.none || tie_beq output.tie_break blank_forfeit
    then invalid tie_break_inconsistent
    else if contradicts (required_tie_break scores_a scores_b) output
    then invalid tie_break_inconsistent
    else if tie_beq output.tie_break exact_equivalence
        && (not (label_beq output.winner a) || not (equal_criterion_scores scores_a scores_b))
    then invalid exact_equivalence_inconsistent
    else compute_official_duel_scores (whole raw_a) (whole raw_b) output.winner none

-- The choice of the branch.
pub official_scores :
    List ℕ → List ℕ → List Score → List Score → ℕ → ℕ → DuelOutput → Checked OfficialScores
official_scores answer_a answer_b scores_a scores_b raw_a raw_b output =
    if answer_a == [] && answer_b == []
    then invalid blank_answer_invariant
    else if answer_a == []
    then blank_branch a scores_a raw_a raw_b output
    else if answer_b == []
    then blank_branch b scores_b raw_a raw_b output
    else if answer_a == answer_b
    then identical_branch scores_a scores_b raw_a raw_b output
    else if not (nat_beq raw_a raw_b)
    then unequal_branch raw_a raw_b output
    else tied_branch scores_a scores_b raw_a raw_b output

score_duel : Snapshot → List ℕ → DuelOutput → Checked DuelResult
unfolding official_scores blank_branch identical_branch unequal_branch tied_branch
score_duel snapshot answer_b output = do
  scores_a ← normalize_criterion_scores snapshot.criteria output.scores_a
  scores_b ← normalize_criterion_scores snapshot.criteria output.scores_b
  official ←
      official_scores snapshot.answer_a answer_b scores_a scores_b (total scores_a) (total scores_b)
        output
  ok (record {
    scores_a = scores_a;
    scores_b = scores_b;
    raw_a = total scores_a;
    raw_b = total scores_b;
    official_a = official.score_a;
    official_b = official.score_b;
    winner = output.winner;
    tie_break = output.tie_break;
  })

duel_of_mode : MatchMode → Option (List ℕ) → Snapshot → DuelOutput → Checked DuelResult
unfolding score_duel
duel_of_mode duel (some answer_b) snapshot output =
    if str_eq output.schema_version snapshot.schema_version
    then score_duel snapshot answer_b output
    else invalid schema_version_mismatch
duel_of_mode _ _ snapshot output = invalid mode_mismatch

unfoldable pub validate_duel_scoring : Snapshot → DuelOutput → Checked DuelResult
unfolding duel_of_mode
validate_duel_scoring snapshot output = duel_of_mode snapshot.mode snapshot.answer_b snapshot output

score_practice : Snapshot → PracticeOutput → Checked PracticeResult
score_practice snapshot output = do
  scores_a ← normalize_criterion_scores snapshot.criteria output.scores_a
  ok (record { scores_a = scores_a; raw_a = total scores_a; official_a = total scores_a })

practice_of_mode : MatchMode → Option (List ℕ) → Snapshot → PracticeOutput → Checked PracticeResult
unfolding score_practice
practice_of_mode practice none snapshot output =
    if snapshot.answer_a == []
    then invalid blank_answer_invariant
    else if str_eq output.schema_version snapshot.schema_version
    then score_practice snapshot output
    else invalid schema_version_mismatch
practice_of_mode _ _ snapshot output = invalid mode_mismatch

unfoldable pub validate_practice_scoring : Snapshot → PracticeOutput → Checked PracticeResult
unfolding practice_of_mode
validate_practice_scoring snapshot output =
    practice_of_mode snapshot.mode snapshot.answer_b snapshot output
