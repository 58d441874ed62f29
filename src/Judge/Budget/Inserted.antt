-- ===== src/Judge/Budget/Inserted.antt =====
-- What the checks of the three budgets give when a row is inserted.
use leetbattle.Shared.{
  ℕ, ◌+◌, ◌≤◌, ◌≡◌, refl, false, Option, some, none, List, ◌∷◌, length, select, any, arith,
  Bool-cases, inl, inr, nat_beq, leb, subst, sym, ◌∙◌, nat_beq_iff,
}
use leetbattle.Judge.Budget.{
  Budget, Charge, Ticks, usage, match_usage, user_usage, over_budget, charge_new, charge,
  same_identity,
}
use leetbattle.Judge.Budget.Usage.{all-false}
use leetbattle.Judge.Budget.Window.{
  IsOrdered, IsWithin, ltb_of, match_usage-cons, match_usage-now, match_usage-other, usage-cons,
  usage-now, user_usage-cons, user_usage-now,
}

-- What the three checks establish before a row is inserted.
record IsBelow (b : Budget) (t : Ticks) (evaluation : ℕ) (users : List ℕ) (rows : List Charge)
    : Type 0 where
  of_day : usage t.at_day rows + 1 ≤ b.per_day
  of_match : match_usage t.at_match evaluation rows + 1 ≤ b.per_match
  of_users : any (λ u. leb b.per_user (user_usage t.at_user u rows)) users ≡ false

over_budget-IsBelow :
    (b : Budget) (t : Ticks) (evaluation : ℕ) (users : List ℕ) (rows : List Charge)
    → over_budget b t evaluation users rows ≡ false
    → IsBelow b t evaluation users rows
over_budget-IsBelow b t evaluation users rows h = record {
  of_day = ground arith;
  of_match = ground arith;
  of_users = ground arith;
}

-- No user is charged twice by a row.
abbrev pub IsOnce : List ℕ → Type 0
IsOnce users = (u : ℕ) → length (select (λ v. nat_beq v u) users) ≤ 1

module _ (b : Budget) (t : Ticks) (evaluation : ℕ) (users : List ℕ) (c : Charge)
    (rows : List Charge) (below : IsBelow b t evaluation users rows) (order : IsOrdered t)
    (same_evaluation : c.evaluation ≡ evaluation) (same_users : c.users ≡ users)
    (once : IsOnce users) (within : IsWithin b t.at_insert rows) where
  inserted_day : usage t.at_insert (c ∷ rows) ≤ b.per_day
  inserted_day =
      let now =
        usage-now t.at_day t.at_insert rows
          (omega (arith, order.second, order.third, order.fourth)) in
      omega (arith, below.of_day, usage-cons t.at_insert c rows, now)

  inserted_match : (e : ℕ) → match_usage t.at_insert e (c ∷ rows) ≤ b.per_match
  inserted_match e = elim (Bool-cases (nat_beq c.evaluation e)) [
    | inr other ↦ omega (arith, match_usage-other t.at_insert e c rows other, within.of_match e)
    | inl same ↦
        let at = sym same_evaluation ∙ (nat_beq_iff c.evaluation e).0 same in
        let now =
          match_usage-now t.at_match t.at_insert e rows
            (omega (arith, order.third, order.fourth)) in
        omega (
          arith,
          match_usage-cons t.at_insert e c rows,
          now,
          subst (λ x. match_usage t.at_match x rows + 1 ≤ b.per_match) at below.of_match,
        )
  ]

  inserted_user : (u : ℕ) → user_usage t.at_insert u (c ∷ rows) ≤ b.per_user
  inserted_user u =
      let now = user_usage-now t.at_user t.at_insert u rows order.fourth in
      let all_charged =
        all-false (λ v. leb b.per_user (user_usage t.at_user v rows)) u users below.of_users
          (once u) (user_usage t.at_insert u rows) b.per_user
          (λ h. omega (arith, now, ltb_of (user_usage t.at_user u rows) b.per_user h))
          (within.of_user u) in
      omega (
        arith,
        user_usage-cons t.at_insert u c rows,
        subst
            (λ us.
              length (select (λ v. nat_beq v u) us) + user_usage t.at_insert u rows ≤ b.per_user)
            (sym same_users) all_charged,
      )

  IsWithin-inserted : IsWithin b t.at_insert (c ∷ rows)
  IsWithin-inserted = record {
    of_day = inserted_day;
    of_match = inserted_match;
    of_user = inserted_user;
  }

module _ (b : Budget) (t : Ticks) (order : IsOrdered t) where
  IsWithin-charge_new :
      (evaluation claim attempt model : ℕ) (users : List ℕ) (before rows : List Charge)
      → IsOnce users
      → IsWithin b t.at_insert before
      → IsWithin b t.at_insert rows
      → IsWithin b t.at_insert (charge_new b t evaluation claim attempt model users before rows).1
  unfolding charge_new
  IsWithin-charge_new evaluation claim attempt model users before rows once old w =
      elim (Bool-cases (over_budget b t evaluation users rows)) [
        | inl over ↦ rw over old
        | inr fits ↦
            let c : Charge = record {
              id = t.id;
              evaluation = evaluation;
              claim = claim;
              attempt = attempt;
              model = model;
              users = users;
              reserved_at = t.at_insert;
            } in
            rw fits (
              IsWithin-inserted b t evaluation users c rows
                (over_budget-IsBelow b t evaluation users rows fits) order refl refl once w)
      ]

  pub IsWithin-charge :
      (evaluation claim attempt model : ℕ) (users : List ℕ) (before rows : List Charge)
      (found : Option Charge)
      → IsOnce users
      → IsWithin b t.at_insert before
      → IsWithin b t.at_insert rows
      → IsWithin b t.at_insert (charge b t evaluation claim attempt model users before rows found).1
  unfolding charge
  IsWithin-charge evaluation claim attempt model users before rows none once old w =
      IsWithin-charge_new evaluation claim attempt model users before rows once old w
  IsWithin-charge evaluation claim attempt model users before rows (some c) once old w =
      elim (Bool-cases (same_identity evaluation model users c)) [
        | inl same ↦ rw same w
        | inr different ↦ rw different old
      ]
