-- ===== src/Judge/Budget.antt =====
-- `PostgresAiMlJudgeRequestBudget` of src/server/ai-ml/request-budget.ts. Times are microseconds. The
-- advisory lock makes one reservation a step, and a statement reads the clock once. A text that is
-- blank after `trim` is `none`.
pub mod Usage
pub mod Window
pub mod Inserted
pub mod History
use leetbattle.Shared.{
  ℕ, ◌+◌, ◌*◌, Bool, true, false, not, ◌&&◌, ◌||◌, Option, some, none, List, [], ◌∷◌, length,
  select, find, any, all, sum_by, leb, ltb, nat_beq, ◌==◌, if◌then◌else◌, nat_eq, list_eq, sort_by,
  take,
}
use leetbattle.Judge.Scoring.Types.{JsNumber, whole, other}

abbrev pub day : ℕ
day = 86400000000

abbrev pub retention_days : ℕ
retention_days = 8

abbrev pub cleanup_batch : ℕ
cleanup_batch = 500

-- The limits of the constructor.
pub record Budget : Type 0 where
  pub per_day : ℕ
  pub per_user : ℕ
  pub per_match : ℕ

abbrev pub positive : JsNumber → Option ℕ
positive other = none
positive (whole n) = if ltb 0 n then some n else none

-- `none` is a RangeError.
unfoldable pub make_budget : JsNumber → JsNumber → JsNumber → Option Budget
make_budget day user round = elim (positive day) [
  | none ↦ none
  | some per_day ↦ elim (positive user) [
    | none ↦ none
    | some per_user ↦ elim (positive round) [
      | none ↦ none
      | some per_match ↦
          some (record { per_day = per_day; per_user = per_user; per_match = per_match })
    ]
  ]
]

-- AiMlJudgeRequestBudgetInput.
pub record BudgetInput : Type 0 where
  pub evaluation : ℕ
  pub claim : ℕ
  pub attempt : JsNumber
  pub model : Option ℕ
  pub users : List (Option ℕ)

-- A row of ai_ml_judge_request_reservations.
pub record Charge : Type 0 where
  pub id : ℕ
  pub evaluation : ℕ
  pub claim : ℕ
  pub attempt : ℕ
  pub model : ℕ
  pub users : List ℕ
  pub reserved_at : ℕ

pub data Refusal : Type 0 where
  invalid_reservation identity_mismatch budget_exceeded : Refusal

pub data Answer : Type 0 where
  reserved : Charge → Answer
  refused : Refusal → Answer

-- The readings of the clock by the statements of a reservation, in their order, and the identifier
-- of a new row.
pub record Ticks : Type 0 where
  pub at_cleanup : ℕ
  pub at_day : ℕ
  pub at_match : ℕ
  pub at_user : ℕ
  pub at_insert : ℕ
  pub id : ℕ

abbrev pub has_duplicates : List ℕ → Bool
has_duplicates [] = false
has_duplicates (u ∷ us) = any (λ v. nat_beq v u) us || has_duplicates us

abbrev pub present : List (Option ℕ) → Option (List ℕ)
present [] = some []
present (none ∷ us) = none
present (some u ∷ us) = elim (present us) [ none ↦ none | some vs ↦ some (u ∷ vs) ]

-- The users that are charged, sorted, if there are one or two different ones.
abbrev pub charged : Option (List ℕ) → Option (List ℕ)
charged none = none
charged (some us) =
    if has_duplicates us || (ltb (length us) 1 || ltb 2 (length us))
    then none
    else some (sort_by (λ u. u) us)

unfoldable pub charged_users : List (Option ℕ) → Option (List ℕ)
charged_users users = charged (present users)

abbrev pub valid_attempt : JsNumber → Option ℕ
valid_attempt other = none
valid_attempt (whole n) = if leb 1 n && leb n 3 then some n else none

-- `reserved_at < clock_timestamp() - 8 days`.
abbrev pub is_past_retention : ℕ → Charge → Bool
is_past_retention now c = ltb (c.reserved_at + retention_days * day) now

abbrev pub is_kept : List Charge → Charge → Bool
is_kept gone c = not (any (λ g. nat_beq g.id c.id) gone)

-- The rows that go: the oldest expired ones, 500 at most.
abbrev pub expired : ℕ → List Charge → List Charge
expired now rows =
    take cleanup_batch
      (sort_by (λ c. c.reserved_at) (sort_by (λ c. c.id) (select (is_past_retention now) rows)))

unfoldable pub clean_up : ℕ → List Charge → List Charge
clean_up now rows = select (is_kept (expired now rows)) rows

-- `reserved_at >= clock_timestamp() - 24 hours`.
abbrev pub is_recent : ℕ → Charge → Bool
is_recent now c = leb now (c.reserved_at + day)

abbrev pub usage : ℕ → List Charge → ℕ
usage now rows = length (select (is_recent now) rows)

abbrev pub match_usage : ℕ → ℕ → List Charge → ℕ
match_usage now evaluation rows =
    length (select (λ c. nat_beq c.evaluation evaluation && is_recent now c) rows)

abbrev pub charges_of : ℕ → Charge → ℕ
charges_of user c = length (select (λ u. nat_beq u user) c.users)

abbrev pub user_usage : ℕ → ℕ → List Charge → ℕ
user_usage now user rows = sum_by (charges_of user) (select (is_recent now) rows)

-- The checks of the three budgets in turn.
abbrev pub over_budget : Budget → Ticks → ℕ → List ℕ → List Charge → Bool
over_budget b t evaluation users rows =
    leb b.per_day (usage t.at_day rows)
    || (leb b.per_match (match_usage t.at_match evaluation rows)
        || any (λ u. leb b.per_user (user_usage t.at_user u rows)) users)

abbrev pub is_attempt : ℕ → ℕ → Charge → Bool
is_attempt claim attempt c = nat_beq c.claim claim && nat_beq c.attempt attempt

abbrev pub same_identity : ℕ → ℕ → List ℕ → Charge → Bool
same_identity evaluation model users c =
    nat_beq c.evaluation evaluation && (nat_beq c.model model && c.users == users)

unfoldable pub charge_new :
    Budget → Ticks → ℕ → ℕ → ℕ → ℕ → List ℕ → List Charge → List Charge → Answer × List Charge
charge_new b t evaluation claim attempt model users before rows =
    if over_budget b t evaluation users rows
    then (refused budget_exceeded, before)
    else let c : Charge = record {
      id = t.id;
      evaluation = evaluation;
      claim = claim;
      attempt = attempt;
      model = model;
      users = users;
      reserved_at = t.at_insert;
    } in
      (reserved c, c ∷ rows)

-- `before` is what a rollback restores.
unfoldable pub charge :
    Budget
    → Ticks
    → ℕ
    → ℕ
    → ℕ
    → ℕ
    → List ℕ
    → List Charge
    → List Charge
    → Option Charge
    → Answer × List Charge
charge b t evaluation claim attempt model users before rows none =
    charge_new b t evaluation claim attempt model users before rows
charge b t evaluation claim attempt model users before rows (some c) =
    if same_identity evaluation model users c
    then (reserved c, rows)
    else (refused identity_mismatch, before)

unfoldable pub reserve_checked :
    Budget
    → Ticks
    → BudgetInput
    → Option ℕ
    → Option ℕ
    → Option (List ℕ)
    → List Charge
    → Answer × List Charge
reserve_checked b t i (some attempt) (some model) (some users) before =
    let rows = clean_up t.at_cleanup before in
    charge b t i.evaluation i.claim attempt model users before rows
      (find (is_attempt i.claim attempt) rows)
reserve_checked b t i _ _ _ before = (refused invalid_reservation, before)

unfoldable pub reserve : Budget → Ticks → BudgetInput → List Charge → Answer × List Charge
reserve b t i before =
    reserve_checked b t i (valid_attempt i.attempt) i.model (charged_users i.users) before

-- Without a batch, for the daily maintenance: the rows left and how many went.
unfoldable pub purge_expired : ℕ → List Charge → ℕ × List Charge
purge_expired now rows =
    (length (select (is_past_retention now) rows), select (λ c. not (is_past_retention now c)) rows)
