-- ===== src/Judge/Scoring/Duel/Practice.antt =====
-- What an accepted judgment of a practice answer satisfies.
use leetbattle.Shared.{◌==◌, list_eq, nat_eq, [], ◌≤◌, ◌≡◌, false, none, sum_by, arith}
use leetbattle.Domain.Types.{practice}
use leetbattle.Judge.Scoring.Types.{Snapshot, PracticeOutput, PracticeResult, ok, bind-eq-ok}
use leetbattle.Judge.Scoring.Criteria.{
  Fits, normalize-Fits, total, total-le, normalize_criterion_scores,
}
use leetbattle.Judge.Scoring.Duel.{score_practice, practice_of_mode, validate_practice_scoring}

score_practice-Fits :
    (s : Snapshot) (o : PracticeOutput) (r : PracticeResult)
    → score_practice s o ≡ ok r
    → Fits s.criteria r.scores_a × (r.raw_a ≡ total r.scores_a) × (r.official_a ≡ r.raw_a)
unfolding score_practice
score_practice-Fits s o r h =
    let (ss, n, e) = bind-eq-ok (normalize_criterion_scores s.criteria o.scores_a) _ h in
    ground (arith, normalize-Fits s.criteria o.scores_a ss n)

validate_practice-score :
    (s : Snapshot) (o : PracticeOutput) (r : PracticeResult)
    → validate_practice_scoring s o ≡ ok r
    → (s.mode ≡ practice)
      × (s.answer_b ≡ none)
      × ((s.answer_a == []) ≡ false)
      × (score_practice s o ≡ ok r)
unfolding validate_practice_scoring practice_of_mode
validate_practice-score s o r h = ground arith

-- If a judgment of a practice answer is accepted, then it is of a single answer that is not blank,
-- its scores stand one for each criterion within its maximum, and the official score is their
-- total, at most the sum of the maxima.
pub validate_practice_total :
    (s : Snapshot) (o : PracticeOutput) (r : PracticeResult)
    → validate_practice_scoring s o ≡ ok r
    → (s.mode ≡ practice)
      × (s.answer_b ≡ none)
      × ((s.answer_a == []) ≡ false)
      × Fits s.criteria r.scores_a
      × (r.official_a ≡ total r.scores_a)
      × (r.official_a ≤ sum_by (λ c. c.max_score) s.criteria)
validate_practice_total s o r h =
    let (m, b, a, e) = validate_practice-score s o r h in
    let (f, t, q) = score_practice-Fits s o r e in
    (m, b, a, f, ground (arith, t, q), omega (arith, t, q, total-le s.criteria r.scores_a f))
