-- ===== src/Match/Calls.antt =====
-- The methods of the engine as calls, and histories of calls. A method that throws leaves what it
-- had committed. Calls come in any order, from players, runners and timers.
pub mod Evolution
pub mod Standing
pub mod Ready
use leetbattle.Shared.{ℕ, List, [], ◌∷◌, Option, some, none, Bool}
use leetbattle.Domain.Types.{Difficulty, Language, MatchMode, ChallengeType, ExecutionKind}
use leetbattle.Store.Rows.{Db}
use leetbattle.Match.Config.{Engine}
use leetbattle.Match.Results.{RawResult}
use leetbattle.Match.Countdown.{advance_countdown, process_due_countdowns}
use leetbattle.Match.Snapshot.{get_snapshot_by_match}
use leetbattle.Match.Rooms.{create_room, join_room}
use leetbattle.Match.Lobby.{set_language, set_ready}
use leetbattle.Match.Ending.{cancel_match, forfeit_match}
use leetbattle.Match.Disconnects.{process_due_disconnects, process_due_disconnect_for_match}
use leetbattle.Match.Executions.{start_execution, mark_execution_running}
use leetbattle.Match.Completion.{
  complete_execution, recover_stale_executions, recover_stale_executions_for_match,
}
use leetbattle.Match.Rematch.{request_rematch}
use leetbattle.Match.Presence.{
  connect_session, touch_session, disconnect_session, expire_stale_sessions,
  expire_stale_sessions_for_match, purge_old_realtime_sessions,
}

pub data Call : Type 0 where
  creates : Option ℕ → Difficulty → List ℕ → Option MatchMode → Option ChallengeType → Call
  joins : Option ℕ → List ℕ → List ℕ → Call
  sets_language : Option ℕ → ℕ → Language → List ℕ → Call
  sets_ready : Option ℕ → ℕ → Bool → List ℕ → Call
  reads : Option ℕ → ℕ → Call
  cancels : Option ℕ → ℕ → List ℕ → Call
  forfeits : Option ℕ → ℕ → List ℕ → Call
  starts : Option ℕ → ℕ → List ℕ → ExecutionKind → List ℕ → Call
  marks : ℕ → ℕ → Call
  completes : ℕ → RawResult → Call
  votes : Option ℕ → ℕ → List ℕ → Call
  connects : Option ℕ → ℕ → ℕ → Option ℕ → Call
  touches : ℕ → Option ℕ → Call
  disconnects : ℕ → Option ℕ → Call
  advances : ℕ → Call
  sweeps_countdowns : ℕ → Call
  sweeps_disconnects : ℕ → Call
  sweeps_disconnect : ℕ → Call
  expires : Call
  expires_for : ℕ → Call
  recovers : ℕ → Call
  recovers_for : ℕ → ℕ → Call
  purges : ℕ → ℕ → Call

unfoldable pub perform : Engine → Call → Db → Db
perform e (creates actor d key m c) db = (create_room e actor d key m c db).1
perform e (joins actor token key) db = (join_room e actor token key db).1
perform e (sets_language actor id l key) db = (set_language e actor id l key db).1
perform e (sets_ready actor id ready key) db = (set_ready e actor id ready key db).1
perform e (reads actor id) db = (get_snapshot_by_match e actor id db).1
perform e (cancels actor id key) db = (cancel_match e actor id key db).1
perform e (forfeits actor id key) db = (forfeit_match e actor id key db).1
perform e (starts actor id key kind source) db = (start_execution e actor id key kind source db).1
perform e (marks id attempt) db = (mark_execution_running id attempt db).1
perform e (completes id raw) db = (complete_execution e id raw db).1
perform e (votes actor id key) db = (request_rematch e actor id key db).1
perform e (connects actor room id session) db = (connect_session e actor room id session db).1
perform e (touches session actor) db = (touch_session session actor db).1
perform e (disconnects session actor) db = (disconnect_session e session actor db).1
perform e (advances id) db = (advance_countdown e id db).1
perform e (sweeps_countdowns limit) db = (process_due_countdowns e limit db).1
perform e (sweeps_disconnects limit) db = (process_due_disconnects e limit db).1
perform e (sweeps_disconnect id) db = (process_due_disconnect_for_match e id db).1
perform e expires db = (expire_stale_sessions e db).1
perform e (expires_for id) db = (expire_stale_sessions_for_match e id db).1
perform e (recovers stale) db = (recover_stale_executions e stale db).1
perform e (recovers_for id stale) db = (recover_stale_executions_for_match e id stale db).1
perform e (purges retention limit) db = (purge_old_realtime_sessions retention limit db).1

unfoldable pub run : Engine → List Call → Db → Db
run e [] db = db
run e (c ∷ cs) db = run e cs (perform e c db)
