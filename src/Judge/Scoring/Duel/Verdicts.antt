-- ===== src/Judge/Scoring/Duel/Verdicts.antt =====
-- What an accepted judgment of a duel or of a practice answer satisfies.
use leetbattle.Shared.{
  ◌==◌, list_eq, nat_eq, list_beq_iff, [], ℕ, ◌+◌, ◌<◌, ◌≤◌, ◌≡◌, ◌≢◌, refl, Option, some, none,
  List, nat_beq, arith, ◌⊎◌, if◌then◌else◌,
}
use leetbattle.Domain.Types.{MatchMode, duel, practice}
use leetbattle.Judge.Scoring.Types.{
  whole, Label, a, b, Score, Snapshot, DuelOutput, OfficialScores, DuelResult, ok, bind-eq-ok,
  TieBreak, blank_forfeit,
}
use leetbattle.Judge.Scoring.Official.{
  other_label, compute_official_duel_scores, compute_official_winner_ahead, score_of,
}
use leetbattle.Judge.Scoring.Criteria.{
  normalize_criterion_scores, total, required_tie_break, Fits, normalize-Fits, IsDecided, tie_order,
  required_tie_break-IsDecided,
}
use leetbattle.Judge.Scoring.Duel.{
  official_scores, validate_duel_scoring, blank_branch, identical_branch, unequal_branch,
  tied_branch, score_duel, duel_of_mode,
}

abbrev pub official_of : DuelResult → OfficialScores
official_of r = record { score_a = r.official_a; score_b = r.official_b }

-- The steps that an accepted judgment has passed.
pub record Passed (snapshot : Snapshot) (output : DuelOutput) (r : DuelResult) : Type 0 where
  pub answer_b : List ℕ
  pub is_duel : snapshot.mode ≡ duel
  pub has_b : snapshot.answer_b ≡ some answer_b
  pub fits_a : Fits snapshot.criteria r.scores_a
  pub fits_b : Fits snapshot.criteria r.scores_b
  pub raw_a : r.raw_a ≡ total r.scores_a
  pub raw_b : r.raw_b ≡ total r.scores_b
  pub winner : r.winner ≡ output.winner
  pub tie_break : r.tie_break ≡ output.tie_break
  pub official :
      official_scores snapshot.answer_a answer_b r.scores_a r.scores_b r.raw_a r.raw_b output
      ≡ ok (official_of r)

score_duel-Passed :
    (snapshot : Snapshot) (answer_b : List ℕ) (output : DuelOutput) (r : DuelResult)
    → snapshot.mode ≡ duel
    → snapshot.answer_b ≡ some answer_b
    → score_duel snapshot answer_b output ≡ ok r
    → Passed snapshot output r
unfolding score_duel
score_duel-Passed snapshot answer_b output r m q h =
    let (scores_a, na, h1) =
      bind-eq-ok (normalize_criterion_scores snapshot.criteria output.scores_a) _ h in
    let (scores_b, nb, h2) =
      bind-eq-ok (normalize_criterion_scores snapshot.criteria output.scores_b) _ h1 in
    let (official, no_error, h3) =
      bind-eq-ok
        (official_scores snapshot.answer_a answer_b scores_a scores_b (total scores_a)
          (total scores_b) output)
        _ h2 in
    let fa = normalize-Fits snapshot.criteria output.scores_a scores_a na in
    let fb = normalize-Fits snapshot.criteria output.scores_b scores_b nb in
    record {
      answer_b = answer_b;
      is_duel = m;
      has_b = q;
      fits_a = ground arith;
      fits_b = ground arith;
      raw_a = ground arith;
      raw_b = ground arith;
      winner = ground arith;
      tie_break = ground arith;
      official = ground arith;
    }

validate-Passed :
    (snapshot : Snapshot) (output : DuelOutput) (r : DuelResult) (m : MatchMode)
    (o : Option (List ℕ))
    → snapshot.mode ≡ m
    → snapshot.answer_b ≡ o
    → duel_of_mode m o snapshot output ≡ ok r
    → Passed snapshot output r
unfolding duel_of_mode
validate-Passed snapshot output r duel (some answer_b) m q h =
    score_duel-Passed snapshot answer_b output r m q (ground arith)
validate-Passed snapshot output r duel none m q h = cc
validate-Passed snapshot output r practice o m q h = cc

pub validate_duel-Passed :
    (snapshot : Snapshot) (output : DuelOutput) (r : DuelResult)
    → validate_duel_scoring snapshot output ≡ ok r
    → Passed snapshot output r
unfolding validate_duel_scoring
validate_duel-Passed snapshot output r h =
    validate-Passed snapshot output r snapshot.mode snapshot.answer_b refl refl h

-- The label of the blank answer, if one is blank.
abbrev blank_of : List ℕ → List ℕ → Option Label
blank_of answer_a answer_b =
    if answer_a == [] then some a else if answer_b == [] then some b else none

official_scores-computed :
    (answer_a answer_b : List ℕ) (xs ys : List Score) (m n : ℕ) (output : DuelOutput)
    (s : OfficialScores)
    → official_scores answer_a answer_b xs ys m n output ≡ ok s
    → compute_official_duel_scores (whole m) (whole n) output.winner (blank_of answer_a answer_b)
      ≡ ok s
unfolding official_scores blank_branch identical_branch unequal_branch tied_branch
official_scores-computed answer_a answer_b xs ys m n output s h = ground arith

-- If a judgment of a duel is accepted, then the named winner is strictly ahead officially, its
-- official score is at most 100, each official score is within one point of the raw total, and
-- each raw total is the sum of scores that stand one for each criterion within its maximum.
pub validate_duel_winner_ahead :
    (snapshot : Snapshot) (output : DuelOutput) (r : DuelResult)
    → validate_duel_scoring snapshot output ≡ ok r
    → (score_of (other_label output.winner) (official_of r)
        < score_of output.winner (official_of r))
      × (score_of output.winner (official_of r) ≤ 100)
      × (r.official_a ≤ r.raw_a + 1)
      × (r.raw_a ≤ r.official_a + 1)
      × (r.official_b ≤ r.raw_b + 1)
      × (r.raw_b ≤ r.official_b + 1)
      × (r.raw_a ≡ total r.scores_a)
      × (r.raw_b ≡ total r.scores_b)
      × Fits snapshot.criteria r.scores_a
      × Fits snapshot.criteria r.scores_b
validate_duel_winner_ahead snapshot output r h =
    let p = validate_duel-Passed snapshot output r h in
    let blank = blank_of snapshot.answer_a p.answer_b in
    let computed =
      official_scores-computed snapshot.answer_a p.answer_b r.scores_a r.scores_b r.raw_a r.raw_b
        output (official_of r) p.official in
    let (ahead, top, a1, a2, b1, b2) =
      compute_official_winner_ahead r.raw_a r.raw_b output.winner blank (official_of r) computed in
    (ahead, top, a1, a2, b1, b2, p.raw_a, p.raw_b, p.fits_a, p.fits_b)

blank_scores :
    (answer_a answer_b : List ℕ) (xs ys : List Score) (m n : ℕ) (output : DuelOutput)
    (s : OfficialScores)
    → answer_a ≡ []
    → official_scores answer_a answer_b xs ys m n output ≡ ok s
    → (answer_b ≢ [])
      × (output.winner ≡ b)
      × (m ≡ 0)
      × (s.score_a ≡ 0)
      × (1 ≤ s.score_b)
      × (output.tie_break ≡ blank_forfeit)
unfolding official_scores blank_branch compute_official_duel_scores
blank_scores answer_a answer_b xs ys m n output s e h =
    ground (arith, list_beq_iff answer_a [], list_beq_iff answer_b [])

-- If a judgment of a duel with a blank answer A is accepted, then the other answer is not blank
-- and wins, A has zero points both raw and official, and the reason is the blank forfeit.
pub validate_duel_blank :
    (snapshot : Snapshot) (output : DuelOutput) (r : DuelResult)
    → validate_duel_scoring snapshot output ≡ ok r
    → snapshot.answer_a ≡ []
    → (snapshot.answer_b ≢ some [])
      × (r.winner ≡ b)
      × (r.raw_a ≡ 0)
      × (r.official_a ≡ 0)
      × (1 ≤ r.official_b)
      × (r.tie_break ≡ blank_forfeit)
validate_duel_blank snapshot output r h e =
    let p = validate_duel-Passed snapshot output r h in
    let (not_both, w, ra, oa, ob, t) =
      blank_scores snapshot.answer_a p.answer_b r.scores_a r.scores_b r.raw_a r.raw_b output
        (official_of r) e p.official in
    ground (arith, p.has_b, p.winner, p.tie_break)

distinct_branch :
    (answer_a answer_b : List ℕ) (xs ys : List Score) (m n : ℕ) (output : DuelOutput)
    (s : OfficialScores)
    → answer_a ≢ []
    → answer_b ≢ []
    → answer_a ≢ answer_b
    → official_scores answer_a answer_b xs ys m n output ≡ ok s
    → (if nat_beq m n then tied_branch xs ys m n output else unequal_branch m n output) ≡ ok s
unfolding official_scores
distinct_branch answer_a answer_b xs ys m n output s ha hb hd h =
    ground
      (arith, list_beq_iff answer_a [], list_beq_iff answer_b [], list_beq_iff answer_a answer_b)

unequal_below :
    (m n : ℕ) (output : DuelOutput) (s : OfficialScores)
    → m < n
    → unequal_branch m n output ≡ ok s
    → (output.winner ≡ b) × (s.score_a ≡ m) × (s.score_b ≡ n)
unfolding unequal_branch compute_official_duel_scores
unequal_below m n output s lt h = ground arith

unequal_above :
    (m n : ℕ) (output : DuelOutput) (s : OfficialScores)
    → n < m
    → unequal_branch m n output ≡ ok s
    → (output.winner ≡ a) × (s.score_a ≡ m) × (s.score_b ≡ n)
unfolding unequal_branch compute_official_duel_scores
unequal_above m n output s gt h = ground arith

tied_scores :
    (xs ys : List Score) (m n : ℕ) (output : DuelOutput) (s : OfficialScores) (w : Label)
    (reason : TieBreak)
    → required_tie_break xs ys ≡ some (w, reason)
    → tied_branch xs ys m n output ≡ ok s
    → (output.winner ≡ w) × (output.tie_break ≡ reason)
unfolding tied_branch
tied_scores xs ys m n output s w reason required h = ground arith

-- The branch that an accepted judgment of two different answers has passed.
passed_branch :
    (snapshot : Snapshot) (output : DuelOutput) (r : DuelResult) (answer_b : List ℕ)
    → validate_duel_scoring snapshot output ≡ ok r
    → snapshot.answer_b ≡ some answer_b
    → snapshot.answer_a ≢ []
    → answer_b ≢ []
    → snapshot.answer_a ≢ answer_b
    → (if nat_beq r.raw_a r.raw_b
        then tied_branch r.scores_a r.scores_b r.raw_a r.raw_b output
        else unequal_branch r.raw_a r.raw_b output)
      ≡ ok (official_of r)
passed_branch snapshot output r answer_b h q ha hb hd =
    let p = validate_duel-Passed snapshot output r h in
    let same : p.answer_b ≡ answer_b = cc (p.has_b) in
    distinct_branch snapshot.answer_a answer_b r.scores_a r.scores_b r.raw_a r.raw_b output
      (official_of r) ha hb hd (rw same at p.official)

-- If a judgment of two different answers that are not blank is accepted, and the raw totals
-- differ, then the answer with the higher total wins and the official scores are the raw totals.
pub validate_duel_higher :
    (snapshot : Snapshot) (output : DuelOutput) (r : DuelResult) (answer_b : List ℕ)
    → validate_duel_scoring snapshot output ≡ ok r
    → snapshot.answer_b ≡ some answer_b
    → snapshot.answer_a ≢ []
    → answer_b ≢ []
    → snapshot.answer_a ≢ answer_b
    → r.raw_a ≢ r.raw_b
    → ((r.raw_a < r.raw_b) × (r.winner ≡ b) ⊎ (r.raw_b < r.raw_a) × (r.winner ≡ a))
      × (r.official_a ≡ r.raw_a)
      × (r.official_b ≡ r.raw_b)
validate_duel_higher snapshot output r answer_b h q ha hb hd ne =
    let branch = passed_branch snapshot output r answer_b h q ha hb hd in
    ground (
      arith,
      (validate_duel-Passed snapshot output r h).winner,
      unequal_below r.raw_a r.raw_b output (official_of r),
      unequal_above r.raw_a r.raw_b output (official_of r),
    )

-- If a judgment of two different answers that are not blank is accepted, the raw totals are equal, and
-- of correctness, completeness, depth and clarity, in this order, the answers are even up to one
-- criterion on which one answer has more points, then that answer is the winner and the reason is that
-- of the criterion. A criterion that is not in the question is even.
pub validate_duel_tie_break :
    (snapshot : Snapshot) (output : DuelOutput) (r : DuelResult) (answer_b : List ℕ) (w : Label)
    (reason : TieBreak)
    → validate_duel_scoring snapshot output ≡ ok r
    → snapshot.answer_b ≡ some answer_b
    → snapshot.answer_a ≢ []
    → answer_b ≢ []
    → snapshot.answer_a ≢ answer_b
    → r.raw_a ≡ r.raw_b
    → IsDecided r.scores_a r.scores_b tie_order w reason
    → (r.winner ≡ w) × (r.tie_break ≡ reason)
validate_duel_tie_break snapshot output r answer_b w reason h q ha hb hd e decided =
    let p = validate_duel-Passed snapshot output r h in
    let branch = passed_branch snapshot output r answer_b h q ha hb hd in
    rw (p.winner, p.tie_break)
      (tied_scores r.scores_a r.scores_b r.raw_a r.raw_b output (official_of r) w reason
        (required_tie_break-IsDecided r.scores_a r.scores_b w reason decided)
        (ground (arith, branch)))
