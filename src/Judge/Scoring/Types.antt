-- ===== src/Judge/Scoring/Types.antt =====
-- The types of scoring.ts and contracts.ts.
use leetbattle.Shared.{ℕ, List, String, Option, ◌≡◌, refl}
use leetbattle.Domain.Types.{MatchMode}

pub data JsNumber : Type 0 where
  whole : ℕ → JsNumber
  other : JsNumber

pub data SemanticError : Type 0 where
  mode_mismatch schema_version_mismatch criterion_set_mismatch criterion_score_out_of_range :
      SemanticError
  blank_answer_invariant winner_inconsistent tie_break_inconsistent : SemanticError
  exact_equivalence_inconsistent : SemanticError

-- A result, or an AiMlSemanticValidationError.
pub data Checked {ℓ} (A : Type ℓ) : Type ℓ where
  ok : A → Checked A
  invalid : SemanticError → Checked A

infixl 5 ◌>>=◌
abbrev pub ◌>>=◌ {ℓ κ} : {A : Type ℓ} {B : Type κ} → Checked A → (A → Checked B) → Checked B
ok a >>= f = f a
invalid e >>= f = invalid e

pub bind-eq-ok {ℓ κ} :
    {A : Type ℓ} {B : Type κ} (m : Checked A) (f : A → Checked B) {b : B}
    → (m >>= f) ≡ ok b
    → (a : A) × (m ≡ ok a) × (f a ≡ ok b)
bind-eq-ok (ok a) f h = (a, refl, h)
bind-eq-ok (invalid e) f h = cc

pub data Label : Type 0 where
  a b : Label

pub data TieBreak : Type 0 where
  none blank_forfeit correctness completeness_or_specificity clarity exact_equivalence : TieBreak

pub record Criterion : Type 0 where
  pub criterion : String
  pub max_score : ℕ

-- A score that the judge gives.
pub record CriterionScore : Type 0 where
  pub criterion : String
  pub score : JsNumber

-- A score that has been checked.
pub record Score : Type 0 where
  pub criterion : String
  pub points : ℕ

-- AiMlEvaluationSnapshot, as far as the scores depend on it; an answer is its code points.
pub record Snapshot : Type 0 where
  pub mode : MatchMode
  pub schema_version : String
  pub criteria : List Criterion
  pub answer_a : List ℕ
  pub answer_b : Option (List ℕ)

pub record DuelOutput : Type 0 where
  pub schema_version : String
  pub scores_a : List CriterionScore
  pub scores_b : List CriterionScore
  pub winner : Label
  pub tie_break : TieBreak

pub record PracticeOutput : Type 0 where
  pub schema_version : String
  pub scores_a : List CriterionScore

pub record OfficialScores : Type 0 where
  pub score_a : ℕ
  pub score_b : ℕ

pub record DuelResult : Type 0 where
  pub scores_a : List Score
  pub scores_b : List Score
  pub raw_a : ℕ
  pub raw_b : ℕ
  pub official_a : ℕ
  pub official_b : ℕ
  pub winner : Label
  pub tie_break : TieBreak

pub record PracticeResult : Type 0 where
  pub scores_a : List Score
  pub raw_a : ℕ
  pub official_a : ℕ
