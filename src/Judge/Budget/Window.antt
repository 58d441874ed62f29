-- ===== src/Judge/Budget/Window.antt =====
-- The budgets of a day, of a match and of a user hold at all times.
use leetbattle.Shared.{
  ℕ, ◌+◌, ◌≤◌, ◌≡◌, Bool, true, false, ◌&&◌, List, ◌∷◌, select, arith, Bool-cases, inl, inr,
  nat_beq, leb, subst,
}
use leetbattle.Judge.Budget.{
  Budget, Charge, Ticks, is_recent, usage, match_usage, user_usage, charges_of,
}
use leetbattle.Judge.Budget.Usage.{length-select-select-le, sum_by-select-select-le, select-true}

-- No budget is exceeded in the 24 hours before a time.
pub record IsWithin (b : Budget) (now : ℕ) (rows : List Charge) : Type 0 where
  pub of_day : usage now rows ≤ b.per_day
  pub of_match : (evaluation : ℕ) → match_usage now evaluation rows ≤ b.per_match
  pub of_user : (user : ℕ) → user_usage now user rows ≤ b.per_user

is_recent-later :
    (now later : ℕ) (c : Charge) → now ≤ later → is_recent later c ≡ true → is_recent now c ≡ true
is_recent-later now later c le h = ground arith

usage-later :
    (k : Charge → Bool) (now later : ℕ) (rows : List Charge)
    → now ≤ later
    → usage later (select k rows) ≤ usage now rows
usage-later k now later rows le =
    length-select-select-le (is_recent later) (is_recent now) k
      (λ c. is_recent-later now later c le) rows

match_usage-later :
    (k : Charge → Bool) (now later evaluation : ℕ) (rows : List Charge)
    → now ≤ later
    → match_usage later evaluation (select k rows) ≤ match_usage now evaluation rows
match_usage-later k now later evaluation rows le =
    length-select-select-le (λ c. nat_beq c.evaluation evaluation && is_recent later c)
      (λ c. nat_beq c.evaluation evaluation && is_recent now c) k
      (λ c. ground (arith, is_recent-later now later c le)) rows

user_usage-later :
    (k : Charge → Bool) (now later user : ℕ) (rows : List Charge)
    → now ≤ later
    → user_usage later user (select k rows) ≤ user_usage now user rows
user_usage-later k now later user rows le =
    sum_by-select-select-le (charges_of user) (is_recent later) (is_recent now) k
      (λ c. is_recent-later now later c le) rows

pub IsWithin-later :
    (b : Budget) (k : Charge → Bool) (now later : ℕ) (rows : List Charge)
    → now ≤ later
    → IsWithin b now rows
    → IsWithin b later (select k rows)
IsWithin-later b k now later rows le w = record {
  of_day = omega (arith, w.of_day, usage-later k now later rows le);
  of_match = λ e. omega (arith, w.of_match e, match_usage-later k now later e rows le);
  of_user = λ u. omega (arith, w.of_user u, user_usage-later k now later u rows le);
}

-- Each statement of a reservation runs no earlier than the one before.
pub record IsOrdered (t : Ticks) : Type 0 where
  pub first : t.at_cleanup ≤ t.at_day
  pub second : t.at_day ≤ t.at_match
  pub third : t.at_match ≤ t.at_user
  pub fourth : t.at_user ≤ t.at_insert

pub usage-cons :
    (now : ℕ) (c : Charge) (rows : List Charge) → usage now (c ∷ rows) ≤ 1 + usage now rows
usage-cons now c rows = ground arith

pub match_usage-cons :
    (now e : ℕ) (c : Charge) (rows : List Charge)
    → match_usage now e (c ∷ rows) ≤ 1 + match_usage now e rows
match_usage-cons now e c rows = ground arith

pub match_usage-other :
    (now e : ℕ) (c : Charge) (rows : List Charge)
    → nat_beq c.evaluation e ≡ false
    → match_usage now e (c ∷ rows) ≤ match_usage now e rows
match_usage-other now e c rows h = rw h (omega arith)

pub user_usage-cons :
    (now u : ℕ) (c : Charge) (rows : List Charge)
    → user_usage now u (c ∷ rows) ≤ charges_of u c + user_usage now u rows
user_usage-cons now u c rows = elim (Bool-cases (is_recent now c)) [
  | inl h ↦ rw h (omega arith)
  | inr h ↦ rw h (omega arith)
]

pub usage-now :
    (now later : ℕ) (rows : List Charge) → now ≤ later → usage later rows ≤ usage now rows
usage-now now later rows le =
    subst (λ xs. usage later xs ≤ usage now rows) (select-true rows)
      (usage-later (λ c. true) now later rows le)

pub match_usage-now :
    (now later e : ℕ) (rows : List Charge)
    → now ≤ later
    → match_usage later e rows ≤ match_usage now e rows
match_usage-now now later e rows le =
    subst (λ xs. match_usage later e xs ≤ match_usage now e rows) (select-true rows)
      (match_usage-later (λ c. true) now later e rows le)

pub user_usage-now :
    (now later u : ℕ) (rows : List Charge)
    → now ≤ later
    → user_usage later u rows ≤ user_usage now u rows
user_usage-now now later u rows le =
    subst (λ xs. user_usage later u xs ≤ user_usage now u rows) (select-true rows)
      (user_usage-later (λ c. true) now later u rows le)

pub IsWithin-now :
    (b : Budget) (now later : ℕ) (rows : List Charge)
    → now ≤ later
    → IsWithin b now rows
    → IsWithin b later rows
IsWithin-now b now later rows le w =
    subst (IsWithin b later) (select-true rows) (IsWithin-later b (λ c. true) now later rows le w)

pub ltb_of : (m n : ℕ) → leb n m ≡ false → m + 1 ≤ n
ltb_of m n h = ground arith
