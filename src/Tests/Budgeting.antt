-- ===== src/Tests/Budgeting.antt =====
-- Reservations of requests to the judge.
use leetbattle.Shared.{ℕ, ◌≡◌, refl, some, List, [], ◌∷◌, arith}
use leetbattle.Judge.Scoring.Types.{whole}
use leetbattle.Judge.Budget.{
  Budget, BudgetInput, Charge, Ticks, reserve, reserve_checked, charged_users, charge, clean_up,
  charge_new, refused, budget_exceeded, identity_mismatch,
}
use leetbattle.Judge.Budget.Window.{IsWithin, IsOrdered}
use leetbattle.Judge.Budget.History.{Reached, start, wait, reserving, Reached-IsWithin}

abbrev budget : Budget
budget = record { per_day = 3; per_user = 2; per_match = 1 }

abbrev ticks : ℕ → Ticks
ticks now = record {
  at_cleanup = now;
  at_day = now;
  at_match = now;
  at_user = now;
  at_insert = now;
  id = now;
}

ticks-IsOrdered : (now : ℕ) → IsOrdered (ticks now)
ticks-IsOrdered now = record {
  first = omega arith;
  second = omega arith;
  third = omega arith;
  fourth = omega arith;
}

abbrev request : ℕ → BudgetInput
request claim = record {
  evaluation = 7;
  claim = claim;
  attempt = whole 1;
  model = some 4;
  users = some 9 ∷ some 8 ∷ [];
}

abbrev one_row : List Charge
one_row = (reserve budget (ticks 100) (request 1) []).1

one_row_users :
    one_row
    ≡ record {
      id = 100;
      evaluation = 7;
      claim = 1;
      attempt = 1;
      model = 4;
      users = 8 ∷ 9 ∷ [];
      reserved_at = 100;
    }
      ∷ []
unfolding reserve leetbattle.Judge.Budget.reserve_checked leetbattle.Judge.Budget.charged_users
    leetbattle.Judge.Budget.charge leetbattle.Judge.Budget.clean_up
    leetbattle.Judge.Budget.charge_new
one_row_users = refl

-- The match has had its request.
second_request : (reserve budget (ticks 200) (request 2) one_row).0 ≡ refused budget_exceeded
unfolding reserve leetbattle.Judge.Budget.reserve_checked leetbattle.Judge.Budget.charged_users
    leetbattle.Judge.Budget.charge leetbattle.Judge.Budget.clean_up
    leetbattle.Judge.Budget.charge_new
second_request = refl

-- The same claim and attempt again.
replayed_request : (reserve budget (ticks 200) (request 1) one_row).1 ≡ one_row
unfolding reserve leetbattle.Judge.Budget.reserve_checked leetbattle.Judge.Budget.charged_users
    leetbattle.Judge.Budget.charge leetbattle.Judge.Budget.clean_up
    leetbattle.Judge.Budget.charge_new
replayed_request = refl

two_requests : Reached budget 200 (reserve budget (ticks 200) (request 2) one_row).1
two_requests = reserving (ticks 200) (request 2) one_row (ticks-IsOrdered 200) (
    wait 100 200 one_row (omega arith)
      (reserving (ticks 100) (request 1) [] (ticks-IsOrdered 100) (start 100)))

Reached-IsWithin_example : IsWithin budget 200 (reserve budget (ticks 200) (request 2) one_row).1
Reached-IsWithin_example =
    Reached-IsWithin budget 200 (reserve budget (ticks 200) (request 2) one_row).1 two_requests
