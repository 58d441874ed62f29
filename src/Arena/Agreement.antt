-- ===== src/Arena/Agreement.antt =====
-- What the judge client hands to the arena service, and that `persistSuccess` computes the scores of
-- a duel again as the client has them.
use leetbattle.Shared.{
  ℕ, ◌≡◌, some, List, [], ◌==◌, list_eq, nat_eq, option_eq, bool_eq, arith, Bool-cases, inl, inr,
}
use leetbattle.Domain.Types.{mode_eq}
use leetbattle.Judge.Scoring.Types.{DuelOutput, DuelResult, ok, blank_forfeit}
use leetbattle.Judge.Scoring.Duel.{validate_duel_scoring, tie_beq}
use leetbattle.Judge.Scoring.Duel.Kinds.{scores_blank_a, scores_blank_b, scores_written}
use leetbattle.Judge.Scoring.Duel.Verdicts.{Passed, validate_duel-Passed}
use leetbattle.Store.Evaluations.{EvaluationSnapshot}
use leetbattle.Arena.Telemetry.{Attempt}
use leetbattle.Arena.Judgment.Resolution.{JudgeSuccess, Verdict, resolve}

-- The result of OpenAiAiMlJudge.evaluate for a duel that took these attempts.
abbrev pub duel_success : DuelResult → ℕ → List Attempt → JudgeSuccess
duel_success r attempt_count attempts = record {
  scores_a = r.scores_a;
  scores_b = some r.scores_b;
  winner = some r.winner;
  tie_break = r.tie_break;
  raw_a = r.raw_a;
  raw_b = some r.raw_b;
  official_a = r.official_a;
  official_b = some r.official_b;
  attempt_count = attempt_count;
  attempts = attempts;
}

-- The verdict that the client has reached.
abbrev pub verdict_of : DuelResult → Verdict
verdict_of r = record {
  raw_a = r.raw_a;
  raw_b = some r.raw_b;
  official_a = r.official_a;
  official_b = some r.official_b;
  winner = some r.winner;
  tie_break = r.tie_break;
  is_blank_forfeit = tie_beq r.tie_break blank_forfeit;
}

resolve_recomputed :
    (s : EvaluationSnapshot) (output : DuelOutput) (r : DuelResult) (n : ℕ)
    (attempts : List Attempt) (p : Passed s.scored output r)
    → resolve s (duel_success r n attempts) ≡ verdict_of r
unfolding resolve
resolve_recomputed s output r n attempts p =
    let is_duel = p.is_duel in
    let has_b = p.has_b in
    let winner = p.winner in
    let tie_break = p.tie_break in
    elim (Bool-cases (s.scored.answer_a == [])) [
      | inl blank ↦
          let facts =
            scores_blank_a s.scored.answer_a p.answer_b _ _ _ _ output _ blank p.official in
          ground (arith, facts, is_duel, has_b, winner, tie_break)
      | inr ink ↦ elim (Bool-cases (p.answer_b == [])) [
        | inl blank ↦
            let facts =
              scores_blank_b s.scored.answer_a p.answer_b _ _ _ _ output _ ink blank p.official in
            ground (arith, facts, is_duel, has_b, winner, tie_break)
        | inr ink_b ↦
            let facts =
              scores_written s.scored.answer_a p.answer_b _ _ _ _ output _ ink ink_b p.official in
            ground (arith, facts, is_duel, has_b, winner, tie_break)
      ]
    ]

-- If the client accepts the judgment of a duel, then the scores, the winner and the reason that
-- `persistSuccess` computes again from the answers and the raw totals are exactly those that the
-- client has computed, and the duel counts as a blank forfeit just if that is the client's reason.
pub resolve-validate :
    (s : EvaluationSnapshot) (output : DuelOutput) (r : DuelResult) (n : ℕ)
    (attempts : List Attempt)
    → validate_duel_scoring s.scored output ≡ ok r
    → resolve s (duel_success r n attempts) ≡ verdict_of r
resolve-validate s output r n attempts h =
    resolve_recomputed s output r n attempts (validate_duel-Passed s.scored output r h)
