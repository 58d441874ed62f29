-- ===== src/Arena/Rounds/History.antt =====
-- The answers and the evaluations in any history of the two services.
use leetbattle.Shared.{ℕ, ◌≡◌, refl, some, List, [], ◌∷◌, map, find, subst, sym}
use leetbattle.Store.Rows.{Db}
use leetbattle.Store.Evaluations.{AnswerRow}
use leetbattle.Store.Watch.{Run-begin}
use leetbattle.Store.Tables.{Follows-refl}
use leetbattle.Match.Config.{Engine}
use leetbattle.Arena.Config.{Arena}
use leetbattle.Arena.Preparation.{is_answer_of}
use leetbattle.Arena.Calls.{
  Step, plays, places, times_out, claims, succeeds, fails, allows_retry, take_step, take_steps,
}
use leetbattle.Arena.Rounds.Rows.{
  Rounds, RowMoves, RowMoves-refl, Proceeds, Proceeds-refl, Proceeds-then, Grows-locked, same,
  Actor, claimant, worker, clerk, other, Moves, stay, Course, ended, then,
}
use leetbattle.Arena.Rounds.Engine.Calls.{Keeps-perform}
use leetbattle.Arena.Rounds.Service.{
  Run-claim_evaluation, Run-persist_success, Run-persist_failure, Run-place_answer,
  Run-process_deadline_tx, Run-allow_retry,
}

abbrev rounds_of : Db → Rounds
rounds_of db = (db.answers, db.evaluations)

-- Who acts on the evaluations in a step.
abbrev pub actor_of : Step → Actor
actor_of (plays c) = other
actor_of (places user id key answer) = clerk
actor_of (times_out id) = clerk
actor_of (claims id) = claimant id
actor_of (succeeds c r) = worker c.row.id c.claim
actor_of (fails c error) = worker c.row.id c.claim
actor_of (allows_retry user id key) = other

take_step-Proceeds :
    (e : Engine) (a : Arena) (s : Step) (db : Db)
    → Proceeds (Moves (actor_of s)) (rounds_of db) (rounds_of (take_step e a s db))
unfolding take_step
take_step-Proceeds e a (plays c) db =
    subst (λ v. Proceeds (Moves other) (rounds_of db) v) (sym (Keeps-perform e c db))
      (Proceeds-refl (Moves other) (λ id l. stay) (rounds_of db))
take_step-Proceeds e a (places user id key answer) db =
    (Run-place_answer (rounds_of db) a user id key answer).at db refl
take_step-Proceeds e a (times_out id) db =
    (Run-begin _ (rounds_of db) _ (Run-process_deadline_tx (rounds_of db) a id)).at db refl
take_step-Proceeds e a (claims id) db = (Run-claim_evaluation (rounds_of db) a id).at db refl
take_step-Proceeds e a (succeeds c r) db = (Run-persist_success (rounds_of db) a c r).at db refl
take_step-Proceeds e a (fails c error) db =
    (Run-persist_failure (rounds_of db) a c error).at db refl
take_step-Proceeds e a (allows_retry user id key) db =
    (Run-allow_retry (rounds_of db) a user id key).at db refl

take_steps-Proceeds :
    (e : Engine) (a : Arena) (ss : List Step) (db : Db)
    → Proceeds (Course (map actor_of ss)) (rounds_of db) (rounds_of (take_steps e a ss db))
unfolding take_steps
take_steps-Proceeds e a [] db = record {
  answers = same;
  evaluations =
      Follows-refl (RowMoves (Course [])) (RowMoves-refl (Course []) (λ id l. ended))
        db.evaluations;
}
take_steps-Proceeds e a (s ∷ ss) db =
    Proceeds-then (λ id l m n h k. then h k) _ _ _ (take_step-Proceeds e a s db)
      (take_steps-Proceeds e a ss (take_step e a s db))

-- An answer of a player, once it is there, stays the answer that is found for that player and match,
-- with its text, its measures and its time, whatever the two services do afterwards and in whatever
-- order.
pub take_steps-locked :
    (e : Engine) (a : Arena) (ss : List Step) (db : Db) (id user : ℕ) (w : AnswerRow)
    → find (is_answer_of id user) db.answers ≡ some w
    → find (is_answer_of id user) (take_steps e a ss db).answers ≡ some w
take_steps-locked e a ss db id user w =
    Grows-locked id user w (take_steps-Proceeds e a ss db).answers
