-- ===== src/Judge/Scoring/Official.antt =====
-- `computeOfficialDuelScores` of scoring.ts.
use leetbattle.Shared.{
  ℕ, ◌+◌, ◌<◌, ◌≤◌, ◌≡◌, max, Bool, true, false, ◌&&◌, ◌||◌, not, Option, some, none, ltb, leb,
  nat_beq, if◌then◌else◌, arith,
}
use leetbattle.Judge.Scoring.Types.{
  JsNumber, whole, other, Label, a, b, OfficialScores, Checked, ok, invalid,
  criterion_score_out_of_range, blank_answer_invariant, winner_inconsistent,
}

abbrev pub label_beq : Label → Label → Bool
label_beq a a = true
label_beq b b = true
label_beq _ _ = false

abbrev pub in_percent : JsNumber → Bool
in_percent (whole n) = leb n 100
in_percent other = false

-- The scores by winner, winner's first.
abbrev pub award : Label → ℕ → ℕ → OfficialScores
award a w l = record { score_a = w; score_b = l }
award b w l = record { score_a = l; score_b = w }

official_of_blank : ℕ → ℕ → Label → Label → Checked OfficialScores
official_of_blank raw_a raw_b winner a =
    if not (nat_beq raw_a 0) || label_beq winner a
    then invalid blank_answer_invariant
    else ok (record { score_a = 0; score_b = max 1 raw_b })
official_of_blank raw_a raw_b winner b =
    if not (nat_beq raw_b 0) || label_beq winner b
    then invalid blank_answer_invariant
    else ok (record { score_a = max 1 raw_a; score_b = 0 })

official_of_scores : ℕ → ℕ → Label → Checked OfficialScores
official_of_scores raw_a raw_b winner =
    if not (nat_beq raw_a raw_b)
    then if label_beq winner (if ltb raw_b raw_a then a else b)
      then ok (record { score_a = raw_a; score_b = raw_b })
      else invalid winner_inconsistent
    else if nat_beq raw_a 100
    then ok (award winner 100 99)
    else ok (award winner (raw_a + 1) raw_a)

official_of_range : JsNumber → JsNumber → Label → Option Label → Checked OfficialScores
unfolding official_of_blank official_of_scores
official_of_range (whole raw_a) (whole raw_b) winner none = official_of_scores raw_a raw_b winner
official_of_range (whole raw_a) (whole raw_b) winner (some blank) =
    official_of_blank raw_a raw_b winner blank
official_of_range _ _ _ _ = invalid criterion_score_out_of_range

unfoldable pub compute_official_duel_scores :
    JsNumber → JsNumber → Label → Option Label → Checked OfficialScores
unfolding official_of_range
compute_official_duel_scores raw_a raw_b winner blank =
    if in_percent raw_a && in_percent raw_b
    then official_of_range raw_a raw_b winner blank
    else invalid criterion_score_out_of_range

abbrev pub score_of : Label → OfficialScores → ℕ
score_of a s = s.score_a
score_of b s = s.score_b

abbrev pub other_label : Label → Label
other_label a = b
other_label b = a

-- Whenever official scores are computed, the named winner is strictly ahead, both scores lie
-- between 0 and 100, and each differs by at most one point from the raw score.
pub compute_official_winner_ahead :
    (m n : ℕ) (winner : Label) (blank : Option Label) (s : OfficialScores)
    → compute_official_duel_scores (whole m) (whole n) winner blank ≡ ok s
    → (score_of (other_label winner) s < score_of winner s)
      × (score_of winner s ≤ 100)
      × (s.score_a ≤ m + 1)
      × (m ≤ s.score_a + 1)
      × (s.score_b ≤ n + 1)
      × (n ≤ s.score_b + 1)
unfolding compute_official_duel_scores
compute_official_winner_ahead m n a none s h = ground arith
compute_official_winner_ahead m n b none s h = ground arith
compute_official_winner_ahead m n a (some a) s h = ground arith
compute_official_winner_ahead m n b (some a) s h = ground arith
compute_official_winner_ahead m n a (some b) s h = ground arith
compute_official_winner_ahead m n b (some b) s h = ground arith
