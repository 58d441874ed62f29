-- ===== src/Match/Problems.antt =====
-- `chooseProblem` of match-engine.ts.
pub mod Choice
use leetbattle.Shared.{
  ℕ, Bool, true, false, not, ◌&&◌, ◌||◌, Option, some, none, List, [], ◌∷◌, length, get_elem?,
  select, any, nat_beq, ◌==◌, if◌then◌else◌, ltb,
}
use leetbattle.Domain.Types.{
  Difficulty, ChallengeType, coding, ai_ml, ProblemRef, difficulty_eq, challenge_eq,
}
use leetbattle.Domain.Errors.{Result, ok, err, domain_error, fault, no_problem_available}
use leetbattle.Match.Config.{Engine}

abbrev pub is_used : List ℕ → ProblemRef → Bool
is_used used p = any (λ u. nat_beq u p.problem) used

-- `active` holds the questions of the registry that may be asked.
abbrev pub is_available : Difficulty → ChallengeType → List (ℕ × ℕ) → ProblemRef → Bool
is_available d c active p =
    p.difficulty == d
    && (c == coding || any (λ q. nat_beq q.0 p.problem && nat_beq q.1 p.version) active)

abbrev pub catalog : Engine → ChallengeType → Difficulty → List ProblemRef
catalog e coding d = e.coding_problems d
catalog e ai_ml d = e.ai_ml_problems d

-- The problem of the previous round: the first of the used ones.
abbrev pub is_previous : List ℕ → ProblemRef → Bool
is_previous [] p = false
is_previous (u ∷ us) p = nat_beq u p.problem

abbrev pub first_nonempty : List ProblemRef → List ProblemRef → List ProblemRef
first_nonempty [] ys = ys
first_nonempty (x ∷ xs) ys = x ∷ xs

pub candidates : List ProblemRef → List ℕ → List ProblemRef
candidates all used =
    first_nonempty (select (λ p. not (is_used used p)) all)
      (first_nonempty (select (λ p. not (is_previous used p)) all) all)

choose_from : Engine → List ProblemRef → Result ProblemRef
choose_from e cs = elim (get_elem? cs (e.choose_index (length cs))) [
  | none ↦ err fault
  | some p ↦ ok p
]

choose_of : Engine → List ProblemRef → List ℕ → Result ProblemRef
unfolding choose_from candidates
choose_of e [] used = err (domain_error no_problem_available 503)
choose_of e (p ∷ ps) used = choose_from e (candidates (p ∷ ps) used)

unfoldable pub choose_problem :
    Engine → Difficulty → ChallengeType → List ℕ → List (ℕ × ℕ) → Result ProblemRef
unfolding choose_of
choose_problem e d c used active =
    choose_of e (select (is_available d c active) (catalog e c d)) used
