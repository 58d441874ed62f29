-- ===== src/Arena/Leases/Lost.antt =====
-- What a worker can do whose claim is gone.
use leetbattle.Shared.{
  ℕ, ◌≡◌, ◌≢◌, refl, Bool, true, false, ◌&&◌, not, Option, some, none, List, [], ◌∷◌, find, any,
  update_first, Bool-cases, inl, inr, arith, is_none, ◌==◌,
}
use leetbattle.Domain.Types.{duel, mode_eq, state_eq}
use leetbattle.Domain.Errors.{ok, fault}
use leetbattle.Store.Rows.{Db, MatchRow}
use leetbattle.Store.Evaluations.{EvaluationRow}
use leetbattle.Store.Rollback.{IsUnwritten, IsVain, begin-IsUnwritten, begin-IsVain, guard-IsVain}
use leetbattle.Store.Clock.{tick, tick-eq}
use leetbattle.Store.Tx.{pure, raise, gets, expect, ◌>>=◌, clock_timestamp, on_evaluations}
use leetbattle.Arena.Config.{Arena}
use leetbattle.Arena.Commands.{lock_arena_match, is_arena_match}
use leetbattle.Arena.Claims.{Claim, is_held}
use leetbattle.Arena.Judgment.{judged_row, complete_held, persist_success_tx, persist_success}
use leetbattle.Arena.Judgment.Resolution.{JudgeSuccess, Verdict, resolve, winner_of}
use leetbattle.Arena.Failure.{
  JudgeFailure, failed_row, retry_at, fail_held, persist_failure_tx, persist_failure, failure_of,
}

update_none :
    (p : EvaluationRow → Bool) (f : EvaluationRow → EvaluationRow) (vs : List EvaluationRow)
    → any p vs ≡ false
    → update_first p f vs ≡ vs
update_none p f [] h = refl
update_none p f (v ∷ vs) h = elim (Bool-cases (p v)) [
  | inl hit ↦ ground (arith, hit)
  | inr miss ↦ let rest = update_none p f vs (ground (arith, miss)) in ground (arith, miss, rest)
]

complete_lost :
    (a : Arena) (m : MatchRow) (c : Claim) (r : JudgeSuccess) (v : Verdict) (winner : Option ℕ)
    (db : Db)
    → any (is_held c.row.id c.claim) db.evaluations ≡ false
    → complete_held a m c r v winner db ≡ (ok false, tick db)
unfolding complete_held ◌>>=◌ clock_timestamp gets on_evaluations pure
complete_lost a m c r v winner db h =
    let t = tick-eq db in
    let u =
      update_none (is_held c.row.id c.claim) (judged_row r v winner (tick db).clock) db.evaluations
        h in
    ground (arith, t, u, h)

fail_lost :
    (a : Arena) (m : MatchRow) (c : Claim) (f : JudgeFailure) (db : Db)
    → any (is_held c.row.id c.claim) db.evaluations ≡ false
    → fail_held a m c f db ≡ (ok tt, tick db)
unfolding fail_held ◌>>=◌ clock_timestamp gets on_evaluations pure
fail_lost a m c f db h =
    let t = tick-eq db in
    let u =
      update_none (is_held c.row.id c.claim) (failed_row f (retry_at a f (tick db).clock))
        db.evaluations h in
    ground (arith, t, u, h)

success_tx_lost :
    (a : Arena) (c : Claim) (r : JudgeSuccess) (v : Verdict) (winner : Option ℕ) (db : Db)
    (o : Option MatchRow)
    → find (is_arena_match c.row.match_id) db.matches ≡ o
    → any (is_held c.row.id c.claim) db.evaluations ≡ false
    → IsVain (persist_success_tx a c r v winner) true db
unfolding persist_success_tx lock_arena_match ◌>>=◌ gets expect pure raise
success_tx_lost a c r v winner db none e h = record {
  unwritten = ground (arith, e);
  other = ground (arith, e);
}
success_tx_lost a c r v winner db (some m) e h =
    let t = tick-eq db in
    let s = complete_lost a m c r v winner db h in
    record { unwritten = ground (arith, e, t, s); other = ground (arith, e, s) }

failure_tx_lost :
    (a : Arena) (c : Claim) (f : JudgeFailure) (db : Db) (o : Option MatchRow)
    → find (is_arena_match c.row.match_id) db.matches ≡ o
    → any (is_held c.row.id c.claim) db.evaluations ≡ false
    → IsUnwritten db (persist_failure_tx a c f db).1
unfolding persist_failure_tx lock_arena_match ◌>>=◌ gets expect pure raise
failure_tx_lost a c f db none e h = ground (arith, e)
failure_tx_lost a c f db (some m) e h =
    let t = tick-eq db in let s = fail_lost a m c f db h in ground (arith, e, t, s)

-- If the claim of a worker no longer holds the evaluation, because another has taken it over, it is
-- settled or it failed, then no table changes whatever the worker hands in, a result or a failure, and
-- the result is not taken as the one that ends the match.
pub persist_lost :
    (a : Arena) (c : Claim) (r : JudgeSuccess) (error : Option JudgeFailure) (db : Db)
    → any (is_held c.row.id c.claim) db.evaluations ≡ false
    → IsUnwritten db (persist_success a c r db).1
      × IsUnwritten db (persist_failure a c error db).1
      × ((persist_success a c r db).0 ≢ ok true)
unfolding persist_success persist_failure
persist_lost a c r error db h =
    let v = resolve c.row.snapshot r in
    let vain =
      guard-IsVain (not (c.row.snapshot.scored.mode == duel && is_none (winner_of c.row v))) fault _
        true db
        (begin-IsVain (persist_success_tx a c r v (winner_of c.row v)) true db
          (success_tx_lost a c r v (winner_of c.row v) db _ refl h)) in
    (
      vain.unwritten,
      begin-IsUnwritten (persist_failure_tx a c (failure_of error)) db
          (failure_tx_lost a c (failure_of error) db _ refl h),
      vain.other,
    )
