-- ===== src/Match/Completion/Once.antt =====
-- A result counts once.
use leetbattle.Shared.{
  ℕ, Bool, true, false, not, ◌&&◌, ◌≡◌, refl, Option, some, none, List, [], ◌∷◌, arith, find,
  update_first, ap, sym, ◌∙◌, subst, ◌==◌, if◌then◌else◌, ◌+◌, option_eq, nat_eq,
}
use leetbattle.Domain.Types.{active, state_eq}
use leetbattle.Domain.Errors.{ok}
use leetbattle.Store.Rows.{Db, MatchRow, ParticipantRow, ExecutionRow, is_completed}
use leetbattle.Store.Tx.{M, ◌>>=◌, ◌>>◌, pure, gets, expect, on_executions, on_participants}
use leetbattle.Store.Watch.{Keeps, kept}
use leetbattle.Store.Outcomes.{bind-ok, gets-ok, expect-ok, pure-ok}
use leetbattle.Match.Config.{Engine, seconds}
use leetbattle.Match.Events.{is_match}
use leetbattle.Match.Locks.{lock_match}
use leetbattle.Match.Results.{RunnerResult}
use leetbattle.Match.Executions.{is_execution, is_open_execution, awaits}
use leetbattle.Match.Executions.Frame.{
  executions_watch, executions_frame, Keeps-clock, Keeps-lock_participant, Keeps-lock_match,
  Keeps-finalize_match, Keeps-evaluate_disconnects,
}
use leetbattle.Match.Completion.{
  CompletedExecution, complete_row, finalize_candidate, maybe_finalize_accepted, settle_disconnects,
  settle_submission, apply_result, complete_open, complete_execution_tx, already_completed,
  record_result, next_activity, is_penalized,
}

Keeps-finalize_candidate :
    (e : Engine) (id : ℕ) (o : Option ExecutionRow)
    → Keeps executions_watch (finalize_candidate e id o)
unfolding finalize_candidate
Keeps-finalize_candidate e id none = search executions_frame
Keeps-finalize_candidate e id (some c) = search (executions_frame, Keeps-finalize_match)

Keeps-maybe_finalize : (e : Engine) (id : ℕ) → Keeps executions_watch (maybe_finalize_accepted e id)
unfolding maybe_finalize_accepted
Keeps-maybe_finalize e id = search (executions_frame, Keeps-finalize_candidate) depth 10

Keeps-settle_disconnects :
    (e : Engine) (m : MatchRow) → Keeps executions_watch (settle_disconnects e m)
unfolding settle_disconnects
Keeps-settle_disconnects e m = search (executions_frame, Keeps-evaluate_disconnects) depth 10

Keeps-settle_submission :
    (e : Engine) (x : ExecutionRow) (m : MatchRow)
    → Keeps executions_watch (settle_submission e x m)
unfolding settle_submission
Keeps-settle_submission e x m =
    search (executions_frame, Keeps-maybe_finalize, Keeps-settle_disconnects) depth 10

Keeps-apply_result :
    (e : Engine) (m : MatchRow) (x : ExecutionRow) (r : RunnerResult) (t : Bool) (c : Option ℕ)
    (o : Option ParticipantRow)
    → Keeps executions_watch (apply_result e m x r t c o)
unfolding apply_result
Keeps-apply_result e m x r t c none = search executions_frame
Keeps-apply_result e m x r t c (some p) =
    search (executions_frame, Keeps-settle_submission) depth 10

on_executions-ok :
    (f : List ExecutionRow → List ExecutionRow) (db after : Db) (u : Unit {0})
    → on_executions f db ≡ (ok u, after)
    → after.executions ≡ f db.executions
unfolding on_executions
on_executions-ok f db after u h = ground arith

-- What follows the write of the result.
rest :
    Engine → MatchRow → ExecutionRow → RunnerResult → Bool → Bool → Option ℕ → M CompletedExecution
rest e m x r eligible penalized cooldown_until = do
  waiting ← gets (λ db. find (awaits m.id x.user x.id) db.participants)
  if not eligible then apply_result e m x r penalized cooldown_until none else do
    on_participants (
        update_first (awaits m.id x.user x.id)
          (record_result x.kind r (next_activity x.kind r.verdict penalized) cooldown_until))
    apply_result e m x r penalized cooldown_until waiting

Keeps-rest :
    (e : Engine) (m : MatchRow) (x : ExecutionRow) (r : RunnerResult) (s t : Bool) (k : Option ℕ)
    → Keeps executions_watch (rest e m x r s t k)
unfolding rest
Keeps-rest e m x r s t k = search (executions_frame, Keeps-apply_result) depth 10

applied-same :
    (e : Engine) (m : MatchRow) (x : ExecutionRow) (r : RunnerResult) (t : Bool) (k : Option ℕ)
    (o : Option ParticipantRow) (db after : Db) (c : CompletedExecution)
    → apply_result e m x r t k o db ≡ (ok c, after)
    → (c.execution ≡ x.id) × (c.verdict ≡ r.verdict)
unfolding apply_result
applied-same e m x r t k none db after c h =
    let q = (pure-ok _ _ _ _ h).0 in (ap (λ y. y.execution) q, ap (λ y. y.verdict) q)
applied-same e m x r t k (some p) db after c h =
    let b1 = bind-ok _ _ db c after h in
    let b2 = bind-ok _ _ _ c after b1.second in
    let q = (pure-ok _ _ _ _ b2.second).0 in (ap (λ y. y.execution) q, ap (λ y. y.verdict) q)

if-same :
    (e : Engine) (m : MatchRow) (x : ExecutionRow) (r : RunnerResult) (s t : Bool) (k : Option ℕ)
    (o : Option ParticipantRow) (f : List ParticipantRow → List ParticipantRow) (db after : Db)
    (c : CompletedExecution)
    → (if s
          then apply_result e m x r t k none
          else (on_participants f >> apply_result e m x r t k o))
        db
      ≡ (ok c, after)
    → (c.execution ≡ x.id) × (c.verdict ≡ r.verdict)
if-same e m x r true t k o f db after c h = applied-same e m x r t k none db after c h
if-same e m x r false t k o f db after c h =
    applied-same e m x r t k o _ after c (bind-ok _ _ db c after h).second

rest-same :
    (e : Engine) (m : MatchRow) (x : ExecutionRow) (r : RunnerResult) (s t : Bool) (k : Option ℕ)
    (db after : Db) (c : CompletedExecution)
    → rest e m x r s t k db ≡ (ok c, after)
    → (c.execution ≡ x.id) × (c.verdict ≡ r.verdict)
unfolding rest
rest-same e m x r s t k db after c h =
    if-same e m x r (not s) t k _ _ _ after c (bind-ok _ _ db c after h).second

-- What is known of a result that was written.
record WasWritten (x : ExecutionRow) (r : RunnerResult) (c : CompletedExecution) (db after : Db)
    : Type 0 where
  pub cooldown : Option ℕ
  pub same_execution : c.execution ≡ x.id
  pub same_verdict : c.verdict ≡ r.verdict
  pub rows :
      after.executions
      ≡ update_first (is_open_execution x.id) (complete_row x.kind r cooldown) db.executions

complete_open-WasWritten :
    (e : Engine) (m : MatchRow) (x : ExecutionRow) (r : RunnerResult) (db after : Db)
    (c : CompletedExecution)
    → complete_open e m x r db ≡ (ok c, after)
    → WasWritten x r c db after
unfolding complete_open rest
complete_open-WasWritten e m x r db after c h =
    let b1 = bind-ok _ _ db c after h in
    let k1 = kept executions_watch _ _ _ _ (Keeps-lock_participant _ _) b1.first in
    let b2 = bind-ok _ _ _ c after b1.second in
    let k2 = kept executions_watch _ _ _ _ Keeps-clock b2.first in
    let b3 = bind-ok _ _ _ c after b2.second in
    let w = on_executions-ok _ _ _ _ b3.first in
    let eligible = m.state == active && b1.value.active_execution == some x.id in
    let penalized = is_penalized eligible x.kind r.verdict in
    let cooldown : Option ℕ =
      if penalized then some (b2.value + seconds e.failed_submission_cooldown_seconds) else none in
    let k3 =
      kept executions_watch _ _ _ _ (Keeps-rest e m x r eligible penalized cooldown) b3.second in
    let q = rest-same e m x r eligible penalized cooldown b3.between after c b3.second in
    record {
      cooldown = cooldown;
      same_execution = q.0;
      same_verdict = q.1;
      rows =
          k3
          ∙ w
          ∙ ap (update_first (is_open_execution x.id) (complete_row x.kind r cooldown)) (k2 ∙ k1);
    }

find-is_execution :
    (id : ℕ) (xs : List ExecutionRow) (x : ExecutionRow)
    → find (is_execution id) xs ≡ some x
    → x.id ≡ id
find-is_execution id [] x h = cc
find-is_execution id (y ∷ xs) x h = ground (arith, find-is_execution id xs x)

find-completed :
    (id : ℕ) (f : ExecutionRow → ExecutionRow) (xs : List ExecutionRow) (x : ExecutionRow)
    → ((y : ExecutionRow) → (f y).id ≡ y.id)
    → is_completed x.status ≡ false
    → find (is_execution id) xs ≡ some x
    → find (is_execution id) (update_first (is_open_execution id) f xs) ≡ some (f x)
find-completed id f [] x h k e = cc
find-completed id f (y ∷ xs) x h k e = ground (arith, find-completed id f xs x h k, h y)

already-if :
    (e : Engine) (m : MatchRow) (x : ExecutionRow) (r : RunnerResult) (db after : Db)
    (c : CompletedExecution)
    → is_completed x.status ≡ false
    → (if is_completed x.status then already_completed m x else complete_open e m x r) db
      ≡ (ok c, after)
    → complete_open e m x r db ≡ (ok c, after)
already-if e m x r db after c k h = rw k at h

complete_tx-WasWritten :
    (e : Engine) (id : ℕ) (r : RunnerResult) (db after : Db) (c : CompletedExecution)
    (x : ExecutionRow)
    → find (is_execution id) db.executions ≡ some x
    → is_completed x.status ≡ false
    → complete_execution_tx e id r db ≡ (ok c, after)
    → WasWritten x r c db after
unfolding complete_execution_tx
complete_tx-WasWritten e id r db after c x found open_row h =
    let b1 = bind-ok _ _ db c after h in
    let g = gets-ok _ _ _ _ b1.first in
    let b2 = bind-ok _ _ _ c after b1.second in
    let y = expect-ok _ _ _ _ _ b2.first in
    let same : b2.value ≡ x = ground (arith, g.0, y.0, found) in
    let b3 = bind-ok _ _ _ c after b2.second in
    let k3 = kept executions_watch _ _ _ _ (Keeps-lock_match _) b3.first in
    let still_open = subst (λ z. is_completed z.status ≡ false) (sym same) open_row in
    let w =
      complete_open-WasWritten e b3.value b2.value r b3.between after c
        (already-if e b3.value b2.value r b3.between after c still_open b3.second) in
    let rows = k3 ∙ ap (λ d. d.executions) (y.1 ∙ g.1) in
    let v : WasWritten b2.value r c db after = record {
      cooldown = w.cooldown;
      same_execution = w.same_execution;
      same_verdict = w.same_verdict;
      rows =
          w.rows
          ∙ ap
              (update_first (is_open_execution b2.value.id)
                (complete_row b2.value.kind r w.cooldown))
              rows;
    } in
    subst (λ z. WasWritten z r c db after) same v

-- When the first result of an execution has been written and its match is there, a second result
-- of it, whatever it says, changes nothing and returns the execution with the first verdict, the
-- match's winner and state, marked as a duplicate.
pub complete_execution_tx-once :
    (e : Engine) (id : ℕ) (first second : RunnerResult) (db after : Db) (c : CompletedExecution)
    (x : ExecutionRow) (m : MatchRow)
    → find (is_execution id) db.executions ≡ some x
    → is_completed x.status ≡ false
    → complete_execution_tx e id first db ≡ (ok c, after)
    → find (is_match x.match_id) after.matches ≡ some m
    → (cooldown : Option ℕ) × (complete_execution_tx e id second after ≡ (
      ok (record {
        execution = c.execution;
        verdict = c.verdict;
        cooldown_until = cooldown;
        winner = m.winner;
        match_state = m.state;
        duplicate = true;
      }),
      after,
    ))
unfolding complete_execution_tx lock_match gets expect pure already_completed ◌>>=◌
complete_execution_tx-once e id first second db after c x m found open_row h there =
    let w = complete_tx-WasWritten e id first db after c x found open_row h in
    let same_id = find-is_execution id db.executions x found in
    let here : find (is_execution id) after.executions
        ≡ some (complete_row x.kind first w.cooldown x) =
      ap (find (is_execution id)) (
        w.rows
        ∙ ap
            (λ i.
              update_first (is_open_execution i) (complete_row x.kind first w.cooldown)
                db.executions)
            same_id)
      ∙ find-completed id (complete_row x.kind first w.cooldown) db.executions x (λ y. refl)
          open_row found in
    (w.cooldown, rw here (rw there (rw w.same_execution (rw w.same_verdict refl))))
