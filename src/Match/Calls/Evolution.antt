-- ===== src/Match/Calls/Evolution.antt =====
-- What any history of calls does to the matches.
use leetbattle.Shared.{ℕ, List, [], ◌∷◌, Option, some, none, Bool, refl}
use leetbattle.Store.Rows.{Db, MatchRow, SessionRow, ExecutionRow}
use leetbattle.Store.Watch.{Keeps, Run, Run-bind, Run-begin}
use leetbattle.Domain.Types.{Difficulty, Language, MatchMode, ChallengeType, ExecutionKind}
use leetbattle.Match.Config.{Engine}
use leetbattle.Match.Receipts.{assert_idempotency_key}
use leetbattle.Match.Results.{RawResult}
use leetbattle.Match.Countdown.{advance_all, process_due_countdowns}
use leetbattle.Match.Disconnects.{
  evaluate_all, process_due_disconnects, process_due_disconnect_for_match,
}
use leetbattle.Match.Rooms.{create_room, join_room}
use leetbattle.Match.Lobby.{set_language, set_ready}
use leetbattle.Match.Ending.{cancel_match, forfeit_match}
use leetbattle.Match.Executions.{start_execution, mark_execution_running}
use leetbattle.Match.Completion.{
  complete_execution, complete_all, recover, recover_stale_executions,
  recover_stale_executions_for_match,
}
use leetbattle.Match.Rematch.{request_rematch}
use leetbattle.Match.Presence.{
  session_or_new, connect_session, touch_session, reconcile_connection, reconcile_found,
  disconnect_session, reconcile_each, reconcile_expired_sessions, expire_where,
  expire_stale_sessions, expire_stale_sessions_for_match, purge_old_realtime_sessions,
}
use leetbattle.Match.Calls.{
  Call, creates, joins, sets_language, sets_ready, reads, cancels, forfeits, starts, marks,
  completes, votes, connects, touches, disconnects, advances, sweeps_countdowns, sweeps_disconnects,
  sweeps_disconnect, expires, expires_for, recovers, recovers_for, purges, perform, run,
}
use leetbattle.Match.Lifecycle.Rows.{matches_watch, Evolves, Evolves-refl, Evolves-trans}
use leetbattle.Match.Lifecycle.Frame.{frame}
use leetbattle.Match.Lifecycle.Steps.{steps, Run-advance_countdown, Run-get_snapshot_by_match}
use leetbattle.Match.Lifecycle.Rooms.{
  Run-create_room_tx, Run-join_room_tx, Run-set_language_tx, Run-set_ready_tx,
}
use leetbattle.Match.Lifecycle.Endings.{
  Run-evaluate_disconnects, Run-cancel_match_tx, Run-forfeit_match_tx,
}
use leetbattle.Match.Lifecycle.Plays.{
  Run-start_execution_tx, Run-mark_execution_running_tx, Run-complete_execution_tx,
  Run-request_rematch_tx, Run-connect_tx, Run-reconcile_tx,
}

Keeps-assert_key : (key : List ℕ) → Keeps matches_watch (assert_idempotency_key key)
unfolding assert_idempotency_key
Keeps-assert_key key = search frame

Run-create_room :
    (v : List MatchRow) (e : Engine) (a : Option ℕ) (d : Difficulty) (key : List ℕ)
    (m : Option MatchMode) (c : Option ChallengeType)
    → Run matches_watch v (create_room e a d key m c)
unfolding create_room
Run-create_room v e a d key m c = search (steps, Run-create_room_tx) depth 20

Run-join_room :
    (v : List MatchRow) (e : Engine) (a : Option ℕ) (token key : List ℕ)
    → Run matches_watch v (join_room e a token key)
unfolding join_room
Run-join_room v e a token key = search (steps, Run-join_room_tx) depth 20

Run-set_language :
    (v : List MatchRow) (e : Engine) (a : Option ℕ) (id : ℕ) (l : Language) (key : List ℕ)
    → Run matches_watch v (set_language e a id l key)
unfolding set_language
Run-set_language v e a id l key = search (steps, Run-set_language_tx) depth 20

Run-set_ready :
    (v : List MatchRow) (e : Engine) (a : Option ℕ) (id : ℕ) (b : Bool) (key : List ℕ)
    → Run matches_watch v (set_ready e a id b key)
unfolding set_ready
Run-set_ready v e a id b key = search (steps, Run-set_ready_tx) depth 20

Run-cancel_match :
    (v : List MatchRow) (e : Engine) (a : Option ℕ) (id : ℕ) (key : List ℕ)
    → Run matches_watch v (cancel_match e a id key)
unfolding cancel_match
Run-cancel_match v e a id key = search (steps, Run-cancel_match_tx) depth 20

Run-forfeit_match :
    (v : List MatchRow) (e : Engine) (a : Option ℕ) (id : ℕ) (key : List ℕ)
    → Run matches_watch v (forfeit_match e a id key)
unfolding forfeit_match
Run-forfeit_match v e a id key = search (steps, Run-forfeit_match_tx) depth 20

Run-start_execution :
    (v : List MatchRow) (e : Engine) (a : Option ℕ) (id : ℕ) (key : List ℕ) (k : ExecutionKind)
    (source : List ℕ)
    → Run matches_watch v (start_execution e a id key k source)
unfolding start_execution
Run-start_execution v e a id key k source =
    search (steps, Keeps-assert_key, Run-start_execution_tx) depth 20

Run-mark_execution_running :
    (v : List MatchRow) (id attempt : ℕ) → Run matches_watch v (mark_execution_running id attempt)
unfolding mark_execution_running
Run-mark_execution_running v id attempt = search (Run-begin, Run-mark_execution_running_tx)

Run-complete_execution :
    (v : List MatchRow) (e : Engine) (id : ℕ) (raw : RawResult)
    → Run matches_watch v (complete_execution e id raw)
unfolding complete_execution
Run-complete_execution v e id raw = search (steps, Run-complete_execution_tx) depth 10

Run-request_rematch :
    (v : List MatchRow) (e : Engine) (a : Option ℕ) (id : ℕ) (key : List ℕ)
    → Run matches_watch v (request_rematch e a id key)
unfolding request_rematch
Run-request_rematch v e a id key = search (steps, Run-request_rematch_tx) depth 20

Keeps-session_or_new : (s : Option ℕ) → Keeps matches_watch (session_or_new s)
unfolding session_or_new
Keeps-session_or_new none = search frame
Keeps-session_or_new (some s) = search frame

Run-connect_session :
    (v : List MatchRow) (e : Engine) (a : Option ℕ) (room id : ℕ) (s : Option ℕ)
    → Run matches_watch v (connect_session e a room id s)
unfolding connect_session
Run-connect_session v e a room id s = search (steps, Keeps-session_or_new, Run-connect_tx) depth 20

Run-touch_session :
    (v : List MatchRow) (s : ℕ) (a : Option ℕ) → Run matches_watch v (touch_session s a)
unfolding touch_session
Run-touch_session v s a = search steps depth 20

Run-reconcile_connection :
    (v : List MatchRow) (e : Engine) (id user : ℕ)
    → Run matches_watch v (reconcile_connection e id user)
unfolding reconcile_connection
Run-reconcile_connection v e id user = search (Run-begin, Run-reconcile_tx)

Run-reconcile_found :
    (v : List MatchRow) (e : Engine) (user : ℕ) (o : Option SessionRow)
    → Run matches_watch v (reconcile_found e user o)
unfolding reconcile_found
Run-reconcile_found v e user none = search steps
Run-reconcile_found v e user (some s) = search Run-reconcile_connection

Run-disconnect_session :
    (v : List MatchRow) (e : Engine) (s : ℕ) (a : Option ℕ)
    → Run matches_watch v (disconnect_session e s a)
unfolding disconnect_session
Run-disconnect_session v e s a = search (steps, Run-reconcile_found) depth 20

Run-advance_all :
    (v : List MatchRow) (e : Engine) (ids : List ℕ) → Run matches_watch v (advance_all e ids)
unfolding advance_all
Run-advance_all v e [] = search steps
Run-advance_all v e (id ∷ ids) =
    Run-bind _ v _ _ (Run-advance_countdown v e id)
      λ w _. Run-bind _ w _ _ (Run-advance_all w e ids) λ u _. search steps

Run-process_due_countdowns :
    (v : List MatchRow) (e : Engine) (limit : ℕ)
    → Run matches_watch v (process_due_countdowns e limit)
unfolding process_due_countdowns
Run-process_due_countdowns v e limit = search (steps, Run-advance_all) depth 10

Run-evaluate_all :
    (v : List MatchRow) (e : Engine) (ids : List ℕ) → Run matches_watch v (evaluate_all e ids)
unfolding evaluate_all
Run-evaluate_all v e [] = search steps
Run-evaluate_all v e (id ∷ ids) =
    Run-bind _ v _ _ (Run-begin _ v _ (Run-evaluate_disconnects v e id))
      λ w _. Run-bind _ w _ _ (Run-evaluate_all w e ids) λ u _. search steps

Run-process_due_disconnects :
    (v : List MatchRow) (e : Engine) (limit : ℕ)
    → Run matches_watch v (process_due_disconnects e limit)
unfolding process_due_disconnects
Run-process_due_disconnects v e limit = search (steps, Run-evaluate_all) depth 10

Run-process_due_disconnect :
    (v : List MatchRow) (e : Engine) (id : ℕ)
    → Run matches_watch v (process_due_disconnect_for_match e id)
unfolding process_due_disconnect_for_match
Run-process_due_disconnect v e id = search (steps, Run-evaluate_disconnects) depth 10

Run-complete_all :
    (v : List MatchRow) (e : Engine) (ids : List ℕ) → Run matches_watch v (complete_all e ids)
unfolding complete_all
Run-complete_all v e [] = search steps
Run-complete_all v e (id ∷ ids) =
    Run-bind _ v _ _ (Run-complete_execution v e id _) λ w _. Run-complete_all w e ids

Run-recover :
    (v : List MatchRow) (e : Engine) (stale : ℕ) (p : ExecutionRow → Bool)
    → Run matches_watch v (recover e stale p)
unfolding recover
Run-recover v e stale p = search (steps, Run-complete_all) depth 10

Run-reconcile_each :
    (v : List MatchRow) (e : Engine) (ss : List SessionRow)
    → Run matches_watch v (reconcile_each e ss)
unfolding reconcile_each
Run-reconcile_each v e [] = search steps
Run-reconcile_each v e (s ∷ ss) =
    Run-bind _ v _ _ (Run-reconcile_connection v e s.match_id s.user)
      λ w _. Run-reconcile_each w e ss

Run-reconcile_expired_sessions :
    (v : List MatchRow) (e : Engine) (ss : List SessionRow)
    → Run matches_watch v (reconcile_expired_sessions e ss)
unfolding reconcile_expired_sessions
Run-reconcile_expired_sessions v e ss = search (steps, Run-reconcile_each) depth 10

Run-expire_where :
    (v : List MatchRow) (e : Engine) (p : SessionRow → Bool)
    → Run matches_watch v (expire_where e p)
unfolding expire_where
Run-expire_where v e p = search (steps, Run-reconcile_expired_sessions) depth 12

Run-purge_old_realtime_sessions :
    (v : List MatchRow) (retention limit : ℕ)
    → Run matches_watch v (purge_old_realtime_sessions retention limit)
unfolding purge_old_realtime_sessions
Run-purge_old_realtime_sessions v retention limit = search steps depth 10

-- One call takes every match forward: new matches come in front, and each old one keeps its
-- identity, follows the transition table, keeps its problem and times outside the lobby, and keeps
-- its result, winner and finish once it is over.
pub perform-Evolves :
    (e : Engine) (c : Call) (db : Db) → Evolves db.matches (perform e c db).matches
unfolding perform
perform-Evolves e (creates a d key m c) db = (Run-create_room db.matches e a d key m c).at db refl
perform-Evolves e (joins a token key) db = (Run-join_room db.matches e a token key).at db refl
perform-Evolves e (sets_language a id l key) db =
    (Run-set_language db.matches e a id l key).at db refl
perform-Evolves e (sets_ready a id b key) db = (Run-set_ready db.matches e a id b key).at db refl
perform-Evolves e (cancels a id key) db = (Run-cancel_match db.matches e a id key).at db refl
perform-Evolves e (forfeits a id key) db = (Run-forfeit_match db.matches e a id key).at db refl
perform-Evolves e (starts a id key k source) db =
    (Run-start_execution db.matches e a id key k source).at db refl
perform-Evolves e (completes id raw) db = (Run-complete_execution db.matches e id raw).at db refl
perform-Evolves e (votes a id key) db = (Run-request_rematch db.matches e a id key).at db refl
perform-Evolves e (connects a room id s) db =
    (Run-connect_session db.matches e a room id s).at db refl
perform-Evolves e (disconnects s a) db = (Run-disconnect_session db.matches e s a).at db refl
perform-Evolves e (advances id) db = (Run-advance_countdown db.matches e id).at db refl
perform-Evolves e (sweeps_countdowns limit) db =
    (Run-process_due_countdowns db.matches e limit).at db refl
perform-Evolves e (sweeps_disconnects limit) db =
    (Run-process_due_disconnects db.matches e limit).at db refl
perform-Evolves e (sweeps_disconnect id) db =
    (Run-process_due_disconnect db.matches e id).at db refl
perform-Evolves e (reads a id) db = (Run-get_snapshot_by_match db.matches e a id).at db refl
perform-Evolves e (marks id attempt) db =
    (Run-mark_execution_running db.matches id attempt).at db refl
perform-Evolves e (touches s a) db = (Run-touch_session db.matches s a).at db refl
perform-Evolves e expires db =
    unfold expire_stale_sessions in (Run-expire_where db.matches e _).at db refl
perform-Evolves e (expires_for id) db =
    unfold expire_stale_sessions_for_match in (Run-expire_where db.matches e _).at db refl
perform-Evolves e (recovers stale) db =
    unfold recover_stale_executions in (Run-recover db.matches e stale _).at db refl
perform-Evolves e (recovers_for id stale) db =
    unfold recover_stale_executions_for_match in (Run-recover db.matches e stale _).at db refl
perform-Evolves e (purges retention limit) db =
    (Run-purge_old_realtime_sessions db.matches retention limit).at db refl

-- Whatever methods are called, in whatever order, the matches that were there stay, in their order,
-- and go forward: each keeps its room, mode, challenge, difficulty and round, its state follows the
-- transition table and its version does not fall; once it has left the lobby it keeps its problem,
-- start and answer deadline, and once it is over its winner, reason, finish and record flag.
pub run-Evolves : (e : Engine) (cs : List Call) (db : Db) → Evolves db.matches (run e cs db).matches
unfolding run
run-Evolves e [] db = Evolves-refl db.matches
run-Evolves e (c ∷ cs) db =
    Evolves-trans (perform-Evolves e c db) (run-Evolves e cs (perform e c db))
