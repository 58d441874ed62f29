-- ===== src/Judge/Scoring/Criteria.antt =====
-- `normalizeCriterionScores`, `total`, `equalCriterionScores` and `requiredTieBreakFromScores` of
-- scoring.ts. A Map is the list of its entries.
use text.Mathlib.Text.{◌==◌}
use leetbattle.Shared.{
  ℕ, ◌≤◌, ◌<◌, ◌≡◌, refl, ◌∙◌, Bool, true, false, ◌||◌, ◌&&◌, Option, some, none, List, [], ◌∷◌,
  String, leb, ltb, nat_beq, if◌then◌else◌, length, sum_by, arith,
}
use leetbattle.Judge.Scoring.Types.{
  JsNumber, whole, other, Label, a, b, Criterion, CriterionScore, Score, Checked, ok, invalid,
  ◌>>=◌, bind-eq-ok, criterion_set_mismatch, criterion_score_out_of_range, TieBreak, correctness,
  completeness_or_specificity, clarity,
}

has : String → List CriterionScore → Bool
has k [] = false
has k (s ∷ ss) = s.criterion == k || has k ss

get : String → List CriterionScore → Option JsNumber
get k [] = none
get k (s ∷ ss) = if s.criterion == k then some s.score else get k ss

-- The loop that fills `submitted`, newest entry first.
submit : List CriterionScore → List CriterionScore → Checked (List CriterionScore)
unfolding has
submit submitted [] = ok submitted
submit submitted (s ∷ ss) =
    if has s.criterion submitted then invalid criterion_set_mismatch else submit (s ∷ submitted) ss

-- The checks of one criterion.
checked_score : Criterion → Option JsNumber → Checked Score
checked_score c none = invalid criterion_set_mismatch
checked_score c (some other) = invalid criterion_score_out_of_range
checked_score c (some (whole n)) =
    if leb n c.max_score
    then ok (record { criterion = c.criterion; points = n })
    else invalid criterion_score_out_of_range

collect : List CriterionScore → List Criterion → Checked (List Score)
unfolding get checked_score
collect submitted [] = ok []
collect submitted (c ∷ cs) = do
  s ← checked_score c (get c.criterion submitted)
  ss ← collect submitted cs
  ok (s ∷ ss)

unfoldable pub normalize_criterion_scores :
    List Criterion → List CriterionScore → Checked (List Score)
unfolding submit collect
normalize_criterion_scores criteria scores = do
  submitted ← submit [] scores
  if nat_beq (length submitted) (length criteria)
      then collect submitted criteria
      else invalid criterion_set_mismatch

unfoldable pub total : List Score → ℕ
total = sum_by (λ s. s.points)

unfoldable pub equal_criterion_scores : List Score → List Score → Bool
equal_criterion_scores [] ys = true
equal_criterion_scores (x ∷ xs) [] = false
equal_criterion_scores (x ∷ xs) (y ∷ ys) = nat_beq x.points y.points && equal_criterion_scores xs ys

-- `Map.get` on a Map made from entries, of which the last with a key counts.
get_points : Option ℕ → String → List Score → Option ℕ
get_points found k [] = found
get_points found k (s ∷ ss) = get_points (if s.criterion == k then some s.points else found) k ss

abbrev ordered_stages : List (String × TieBreak)
ordered_stages =
    ("technical_correctness", correctness)
    ∷ ("relevant_completeness", completeness_or_specificity)
    ∷ ("technical_depth", completeness_or_specificity)
    ∷ ("clarity", clarity)
    ∷ []

decide_stage :
    Option ℕ → Option ℕ → TieBreak → Option (Label × TieBreak) → Option (Label × TieBreak)
decide_stage (some m) (some n) reason later =
    if nat_beq m n then later else some (if ltb n m then a else b, reason)
decide_stage _ _ reason later = later

first_decisive : List (String × TieBreak) → List Score → List Score → Option (Label × TieBreak)
unfolding decide_stage get_points
first_decisive [] xs ys = none
first_decisive ((k, reason) ∷ stages) xs ys =
    decide_stage (get_points none k xs) (get_points none k ys) reason (first_decisive stages xs ys)

unfoldable pub required_tie_break : List Score → List Score → Option (Label × TieBreak)
unfolding first_decisive
required_tie_break xs ys = first_decisive ordered_stages xs ys

-- The scores stand in the order of the criteria, one for each, and none is over its maximum.
abbrev pub Fits : List Criterion → List Score → Type 0
Fits [] [] = Unit
Fits (c ∷ cs) (s ∷ ss) = (s.criterion ≡ c.criterion) × (s.points ≤ c.max_score) × Fits cs ss
Fits _ _ = ⊥

collect-Fits :
    (submitted : List CriterionScore) (cs : List Criterion) (ss : List Score)
    → collect submitted cs ≡ ok ss
    → Fits cs ss
unfolding collect
collect-Fits submitted [] [] h = tt
collect-Fits submitted [] (s ∷ ss) h = cc
collect-Fits submitted (c ∷ cs) [] h = ground arith
collect-Fits submitted (c ∷ cs) (s ∷ ss) h = ground (arith, collect-Fits submitted cs ss)

-- Scores that pass are one for each criterion of the question, in its order, and within bounds.
pub normalize-Fits :
    (criteria : List Criterion) (scores : List CriterionScore) (ss : List Score)
    → normalize_criterion_scores criteria scores ≡ ok ss
    → Fits criteria ss
unfolding normalize_criterion_scores
normalize-Fits criteria scores ss h =
    let (m, _, e) = bind-eq-ok (submit [] scores) _ h in collect-Fits m criteria ss (ground arith)

pub total-le :
    (cs : List Criterion) (ss : List Score) → Fits cs ss → total ss ≤ sum_by (λ c. c.max_score) cs
unfolding total
total-le [] [] f = omega arith
total-le (c ∷ cs) (s ∷ ss) f = omega (arith, f.1, total-le cs ss f.2)
total-le [] (s ∷ ss) f = absurd f
total-le (c ∷ cs) [] f = absurd f

pub equal-total :
    (cs : List Criterion) (xs ys : List Score)
    → Fits cs xs
    → Fits cs ys
    → equal_criterion_scores xs ys ≡ true
    → xs ≡ ys
unfolding equal_criterion_scores
equal-total [] [] [] f g h = refl
equal-total (c ∷ cs) (x ∷ xs) (y ∷ ys) f g h = ground (arith, equal-total cs xs ys f.2 g.2)
equal-total _ [] _ f g h = ground arith
equal-total _ _ [] f g h = ground arith
equal-total [] (x ∷ xs) _ f g h = absurd f

-- The points for a criterion; of several entries with its name the last counts.
abbrev pub points_for : String → List Score → Option ℕ
points_for k [] = none
points_for k (s ∷ ss) = elim (points_for k ss) [
  | some n ↦ some n
  | none ↦ if s.criterion == k then some s.points else none
]

-- The criteria that break a tie, in their order, each with its reason.
abbrev pub tie_order : List (String × TieBreak)
tie_order =
    ("technical_correctness", correctness)
    ∷ ("relevant_completeness", completeness_or_specificity)
    ∷ ("technical_depth", completeness_or_specificity)
    ∷ ("clarity", clarity)
    ∷ []

-- The answers are even on the criteria before one of the order, and on that one the answer with the
-- label has more points.
pub data IsDecided (xs ys : List Score) : List (String × TieBreak) → Label → TieBreak → Type 0 where
  leads_a :
      {k : String} {reason : TieBreak} {rest : List (String × TieBreak)} (m n : ℕ)
      → points_for k xs ≡ some m
      → points_for k ys ≡ some n
      → n < m
      → IsDecided xs ys ((k, reason) ∷ rest) a reason
  leads_b :
      {k : String} {reason : TieBreak} {rest : List (String × TieBreak)} (m n : ℕ)
      → points_for k xs ≡ some m
      → points_for k ys ≡ some n
      → m < n
      → IsDecided xs ys ((k, reason) ∷ rest) b reason
  even :
      {k : String} {w : Label} {reason later : TieBreak} {rest : List (String × TieBreak)}
      → points_for k xs ≡ points_for k ys
      → IsDecided xs ys rest w later
      → IsDecided xs ys ((k, reason) ∷ rest) w later

or_before : Option ℕ → Option ℕ → Option ℕ
or_before found none = found
or_before found (some n) = some n

get_points-from :
    (found : Option ℕ) (k : String) (ss : List Score)
    → get_points found k ss ≡ or_before found (points_for k ss)
unfolding get_points or_before
get_points-from found k [] = refl
get_points-from found k (s ∷ ss) =
    ground (arith, get_points-from (if s.criterion == k then some s.points else found) k ss)

get_points-points_for : (k : String) (ss : List Score) → get_points none k ss ≡ points_for k ss
unfolding or_before
get_points-points_for k ss = ground (arith, get_points-from none k ss)

decide_even :
    (o : Option ℕ) (reason : TieBreak) (later : Option (Label × TieBreak))
    → decide_stage o o reason later ≡ later
unfolding decide_stage
decide_even none reason later = refl
decide_even (some n) reason later = ground arith

first_decisive-IsDecided :
    (xs ys : List Score) {stages : List (String × TieBreak)} {w : Label} {reason : TieBreak}
    → IsDecided xs ys stages w reason
    → first_decisive stages xs ys ≡ some (w, reason)
unfolding first_decisive decide_stage
first_decisive-IsDecided xs ys (leads_a {k = k} m n p q lt) =
    ground (arith, get_points-points_for k xs, get_points-points_for k ys)
first_decisive-IsDecided xs ys (leads_b {k = k} m n p q lt) =
    ground (arith, get_points-points_for k xs, get_points-points_for k ys)
first_decisive-IsDecided xs ys (even {k = k} {reason = reason} {rest = rest} same later) =
    rw (get_points-points_for k xs, get_points-points_for k ys, same)
      (decide_even (points_for k ys) reason (first_decisive rest xs ys)
        ∙ first_decisive-IsDecided xs ys later)

-- The tie-break that is required is the one that the order decides.
pub required_tie_break-IsDecided :
    (xs ys : List Score) (w : Label) (reason : TieBreak)
    → IsDecided xs ys tie_order w reason
    → required_tie_break xs ys ≡ some (w, reason)
unfolding required_tie_break
required_tie_break-IsDecided xs ys w reason h = first_decisive-IsDecided xs ys h
