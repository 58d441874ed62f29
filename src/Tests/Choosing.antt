-- ===== src/Tests/Choosing.antt =====
-- The choice of a problem.
use leetbattle.Shared.{ℕ, ◌<◌, ◌≡◌, refl, not, [], ◌∷◌}
use leetbattle.Domain.Types.{easy, coding}
use leetbattle.Domain.Errors.{ok}
use leetbattle.Match.Problems.{is_available, choose_problem}
use leetbattle.Match.Problems.Choice.{
  available, IsFair, is_ok, is_nil, choose_problem-IsFair, choose_problem_total,
}
use leetbattle.Tests.Fixtures.{engine, parentheses}

-- The first problem was played in the previous round.
chosen : choose_problem engine easy coding (1 ∷ []) [] ≡ ok parentheses
unfolding choose_problem
chosen = refl

choose_problem-IsFair_example :
    IsFair (is_available easy coding []) (1 ∷ []) (available engine easy coding []) parentheses
choose_problem-IsFair_example =
    choose_problem-IsFair engine easy coding (1 ∷ []) [] parentheses chosen

below : (n : ℕ) → 0 < n → engine.choose_index n < n
below n h = h

choose_problem_total_example :
    is_ok (choose_problem engine easy coding (1 ∷ 2 ∷ []) [])
    ≡ not (is_nil (available engine easy coding []))
choose_problem_total_example = choose_problem_total engine easy coding (1 ∷ 2 ∷ []) [] below
