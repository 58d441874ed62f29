-- ===== src/Judge/Budget/History.antt =====
-- Reservations, in any order and at any times.
use leetbattle.Shared.{
  length-select-sort_by, ℕ, ◌≤◌, ◌≡◌, refl, not, Option, some, none, List, [], length, select,
  arith, Bool-cases, inl, inr, nat_beq, sort_by, subst, find,
}
use leetbattle.Judge.Budget.{
  Budget, BudgetInput, Charge, Ticks, clean_up, is_kept, expired, charged, reserve_checked, reserve,
  is_past_retention, purge_expired, charged_users, valid_attempt, present, has_duplicates,
  is_attempt,
}
use leetbattle.Judge.Budget.Usage.{length-select-has_duplicates}
use leetbattle.Judge.Budget.Window.{IsWithin, IsOrdered, IsWithin-now, IsWithin-later}
use leetbattle.Judge.Budget.Inserted.{IsOnce, IsWithin-charge}

IsWithin-clean_up :
    (b : Budget) (now later at : ℕ) (rows : List Charge)
    → now ≤ later
    → IsWithin b now rows
    → IsWithin b later (clean_up at rows)
unfolding clean_up
IsWithin-clean_up b now later at rows le w =
    IsWithin-later b (is_kept (expired at rows)) now later rows le w

charged-some : (vs us : List ℕ) → charged (some vs) ≡ some us → sort_by (λ u. u) vs ≡ us
charged-some vs us h = ground arith

charged-IsOnce : (o : Option (List ℕ)) (us : List ℕ) → charged o ≡ some us → IsOnce us
charged-IsOnce none us h u = ground arith
charged-IsOnce (some vs) us h u = elim (Bool-cases (has_duplicates vs)) [
  | inl bad ↦ ground arith
  | inr good ↦
      subst (λ xs. length (select (λ v. nat_beq v u) xs) ≤ 1) (charged-some vs us h)
        (omega (
          arith,
          length-select-sort_by (λ x. x) (λ v. nat_beq v u) vs,
          length-select-has_duplicates u vs good,
        ))
]

IsOrdered-le : (t : Ticks) → IsOrdered t → t.at_cleanup ≤ t.at_insert
IsOrdered-le t order = omega (arith, order.first, order.second, order.third, order.fourth)

IsWithin-reserve_checked :
    (b : Budget) (t : Ticks) (i : BudgetInput) (attempt model : Option ℕ) (users : Option (List ℕ))
    (rows : List Charge)
    → IsOrdered t
    → ((us : List ℕ) → users ≡ some us → IsOnce us)
    → IsWithin b t.at_cleanup rows
    → IsWithin b t.at_insert (reserve_checked b t i attempt model users rows).1
unfolding reserve_checked
IsWithin-reserve_checked b t i (some attempt) (some model) (some users) rows order once w =
    let le = IsOrdered-le t order in
    let left = clean_up t.at_cleanup rows in
    IsWithin-charge b t order i.evaluation i.claim attempt model users rows left
      (find (is_attempt i.claim attempt) left) (once users refl)
      (IsWithin-now b t.at_cleanup t.at_insert rows le w)
      (IsWithin-clean_up b t.at_cleanup t.at_insert t.at_cleanup rows le w)
IsWithin-reserve_checked b t i none model users rows order once w =
    IsWithin-now b t.at_cleanup t.at_insert rows (IsOrdered-le t order) w
IsWithin-reserve_checked b t i (some attempt) none users rows order once w =
    IsWithin-now b t.at_cleanup t.at_insert rows (IsOrdered-le t order) w
IsWithin-reserve_checked b t i (some attempt) (some model) none rows order once w =
    IsWithin-now b t.at_cleanup t.at_insert rows (IsOrdered-le t order) w

-- The tables that reservations and purges lead to, each with a time at which nothing is to come
-- before it. Any time may pass between two of them.
pub data Reached (b : Budget) : ℕ → List Charge → Type 0 where
  start : (now : ℕ) → Reached b now []
  wait :
      (now later : ℕ) (rows : List Charge) → now ≤ later → Reached b now rows → Reached b later rows
  reserving :
      (t : Ticks) (i : BudgetInput) (rows : List Charge)
      → IsOrdered t
      → Reached b t.at_cleanup rows
      → Reached b t.at_insert (reserve b t i rows).1
  purging :
      (now : ℕ) (rows : List Charge) → Reached b now rows → Reached b now (purge_expired now rows).1

-- Whatever was reserved and purged, with time going on: in the 24 hours before a time that comes no
-- earlier, the reservations are at most those of a day, those of each match at most those of a
-- match, and each user is charged at most as often as a user may be.
pub Reached-IsWithin :
    (b : Budget) (now : ℕ) (rows : List Charge) → Reached b now rows → IsWithin b now rows
unfolding reserve purge_expired charged_users
Reached-IsWithin b _ _ (start now) = record {
  of_day = omega arith;
  of_match = λ e. omega arith;
  of_user = λ u. omega arith;
}
Reached-IsWithin b _ _ (wait now later rows le r) =
    IsWithin-now b now later rows le (Reached-IsWithin b now rows r)
Reached-IsWithin b _ _ (reserving t i rows order r) =
    IsWithin-reserve_checked b t i (valid_attempt i.attempt) i.model (charged_users i.users) rows
      order (charged-IsOnce (present i.users)) (Reached-IsWithin b t.at_cleanup rows r)
Reached-IsWithin b _ _ (purging now rows r) =
    IsWithin-later b (λ c. not (is_past_retention now c)) now now rows (omega arith)
      (Reached-IsWithin b now rows r)
