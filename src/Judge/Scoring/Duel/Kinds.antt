-- ===== src/Judge/Scoring/Duel/Kinds.antt =====
-- The official scores of a duel by the kind of its answers: the first blank, the second blank, none.
use leetbattle.Shared.{
  ℕ, ◌+◌, ◌≤◌, ◌≡◌, max, true, false, List, [], ◌==◌, list_eq, nat_eq, nat_beq, arith,
  if◌then◌else◌,
}
use leetbattle.Judge.Scoring.Types.{
  Label, a, b, Score, DuelOutput, OfficialScores, ok, blank_forfeit,
}
use leetbattle.Judge.Scoring.Official.{compute_official_duel_scores, award}
use leetbattle.Judge.Scoring.Duel.{
  official_scores, blank_branch, identical_branch, unequal_branch, tied_branch, tie_beq,
}

-- Equal totals are told apart by one point.
abbrev pub written : Label → ℕ → ℕ → OfficialScores
written winner m n =
    if nat_beq m n
    then (if nat_beq m 100 then award winner 100 99 else award winner (m + 1) m)
    else record { score_a = m; score_b = n }

module _ (answer_a answer_b : List ℕ) (xs ys : List Score) (m n : ℕ) (output : DuelOutput)
    (s : OfficialScores) where
  pub scores_blank_a :
      (answer_a == []) ≡ true
      → official_scores answer_a answer_b xs ys m n output ≡ ok s
      → ((answer_b == []) ≡ false)
        × (output.winner ≡ b)
        × (output.tie_break ≡ blank_forfeit)
        × (m ≡ 0)
        × (s ≡ record { score_a = 0; score_b = max 1 n })
  unfolding official_scores blank_branch compute_official_duel_scores
  scores_blank_a e h = ground arith

  pub scores_blank_b :
      (answer_a == []) ≡ false
      → (answer_b == []) ≡ true
      → official_scores answer_a answer_b xs ys m n output ≡ ok s
      → (output.winner ≡ a)
        × (output.tie_break ≡ blank_forfeit)
        × (n ≡ 0)
        × (s ≡ record { score_a = max 1 m; score_b = 0 })
  unfolding official_scores blank_branch compute_official_duel_scores
  scores_blank_b e f h = ground arith

  pub scores_written :
      (answer_a == []) ≡ false
      → (answer_b == []) ≡ false
      → official_scores answer_a answer_b xs ys m n output ≡ ok s
      → (tie_beq output.tie_break blank_forfeit ≡ false)
        × (m ≤ 100)
        × (s ≡ written output.winner m n)
  unfolding official_scores identical_branch unequal_branch tied_branch compute_official_duel_scores
  scores_written e f h = ground arith
