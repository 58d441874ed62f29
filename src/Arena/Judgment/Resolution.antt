-- ===== src/Arena/Judgment/Resolution.antt =====
-- The scores and the winner that `persistSuccess` takes from a result of the judge, and
-- `officialTieScores`.
use leetbattle.Shared.{
  ℕ, ◌+◌, max, Bool, true, false, not, ◌&&◌, Option, some, none, List, [], ltb, ◌==◌, list_eq,
  option_eq, nat_eq, bool_eq, if◌then◌else◌,
}
use leetbattle.Domain.Types.{duel, mode_eq}
use leetbattle.Judge.Scoring.Types.{
  Label, a, b, TieBreak, blank_forfeit, Score, OfficialScores, Snapshot,
}
use leetbattle.Store.Evaluations.{EvaluationRow, EvaluationSnapshot}
use leetbattle.Arena.Telemetry.{Attempt}

-- JudgeSuccess of arena-service.ts, without what is only stored.
pub record JudgeSuccess : Type 0 where
  pub scores_a : List Score
  pub scores_b : Option (List Score)
  pub winner : Option Label
  pub tie_break : TieBreak
  pub raw_a : ℕ
  pub raw_b : Option ℕ
  pub official_a : ℕ
  pub official_b : Option ℕ
  pub attempt_count : ℕ
  pub attempts : List Attempt

pub record Verdict : Type 0 where
  pub raw_a : ℕ
  pub raw_b : Option ℕ
  pub official_a : ℕ
  pub official_b : Option ℕ
  pub winner : Option Label
  pub tie_break : TieBreak
  pub is_blank_forfeit : Bool

-- `officialTieScores`.
abbrev pub official_tie_scores : ℕ → Label → OfficialScores
official_tie_scores raw winner =
    let winning = if ltb raw 100 then raw + 1 else 100 in
    let losing = if ltb raw 100 then raw else 99 in
    elim winner [
      | a ↦ record { score_a = winning; score_b = losing }
      | b ↦ record { score_a = losing; score_b = winning }
    ]

abbrev pub or_zero : Option ℕ → ℕ
or_zero none = 0
or_zero (some n) = n

abbrev pub plain : JudgeSuccess → Verdict
plain r = record {
  raw_a = r.raw_a;
  raw_b = r.raw_b;
  official_a = r.official_a;
  official_b = r.official_b;
  winner = r.winner;
  tie_break = r.tie_break;
  is_blank_forfeit = false;
}

abbrev pub forfeited : Bool → JudgeSuccess → Verdict
forfeited true r = record {
  raw_a = 0;
  raw_b = some (max 0 (or_zero r.raw_b));
  official_a = 0;
  official_b = some (max 1 (max 0 (or_zero r.raw_b)));
  winner = some b;
  tie_break = blank_forfeit;
  is_blank_forfeit = true;
}
forfeited false r = record {
  raw_a = max 0 r.raw_a;
  raw_b = some 0;
  official_a = max 1 (max 0 r.raw_a);
  official_b = some 0;
  winner = some a;
  tie_break = blank_forfeit;
  is_blank_forfeit = true;
}

abbrev pub tied : JudgeSuccess → Option Label → Verdict
tied r none = plain r
tied r (some winner) =
    let s = official_tie_scores r.raw_a winner in
    record (plain r) { official_a = s.score_a; official_b = some s.score_b }

abbrev pub is_blank_a : Snapshot → Bool
is_blank_a s = s.answer_a == []

abbrev pub is_blank_b : Snapshot → Bool
is_blank_b s = s.answer_b == some []

unfoldable pub resolve : EvaluationSnapshot → JudgeSuccess → Verdict
resolve s r =
    if s.scored.mode == duel && not (is_blank_a s.scored == is_blank_b s.scored)
    then forfeited (is_blank_a s.scored) r
    else if s.scored.mode == duel && r.raw_b == some r.raw_a
    then tied r r.winner
    else plain r

-- The participant behind the anonymous answer that wins.
abbrev pub winner_of : EvaluationRow → Verdict → Option ℕ
winner_of w v = elim v.winner [
  | none ↦ none
  | some l ↦ elim l [ a ↦ w.answer_a_user | b ↦ w.answer_b_user ]
]
