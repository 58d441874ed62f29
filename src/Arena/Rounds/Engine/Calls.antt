-- ===== src/Arena/Rounds/Engine/Calls.antt =====
-- The match engine leaves the answers and the evaluations alone: all its calls.
use leetbattle.Shared.{◌≡◌}
use leetbattle.Store.Rows.{Db}
use leetbattle.Match.Config.{Engine}
use leetbattle.Match.Calls.{
  Call, perform, creates, joins, sets_language, sets_ready, reads, cancels, forfeits, starts, marks,
  completes, votes, connects, touches, disconnects, advances, sweeps_countdowns, sweeps_disconnects,
  sweeps_disconnect, expires, expires_for, recovers, recovers_for, purges,
}
use leetbattle.Arena.Rounds.Rows.{rounds_watch}
use leetbattle.Arena.Rounds.Engine.Heads.{
  Keeps-advance_countdown, Keeps-get_snapshot_by_match, Keeps-process_due_countdowns,
}
use leetbattle.Arena.Rounds.Engine.Rooms.{
  Keeps-create_room, Keeps-join_room, Keeps-set_language, Keeps-set_ready,
}
use leetbattle.Arena.Rounds.Engine.Endings.{
  Keeps-cancel_match, Keeps-forfeit_match, Keeps-process_due_disconnect_for_match,
  Keeps-process_due_disconnects,
}
use leetbattle.Arena.Rounds.Engine.Executions.{
  Keeps-complete_execution, Keeps-mark_execution_running, Keeps-recover_stale_executions,
  Keeps-recover_stale_executions_for_match, Keeps-start_execution,
}
use leetbattle.Arena.Rounds.Engine.Presence.{
  Keeps-connect_session, Keeps-disconnect_session, Keeps-expire_stale_sessions,
  Keeps-expire_stale_sessions_for_match, Keeps-purge_old_realtime_sessions, Keeps-request_rematch,
  Keeps-touch_session,
}

pub Keeps-perform :
    (e : Engine) (c : Call) (db : Db) → rounds_watch.view (perform e c db) ≡ rounds_watch.view db
unfolding perform
Keeps-perform e (creates actor d key m c) db = (Keeps-create_room e actor d key m c).at db
Keeps-perform e (joins actor token key) db = (Keeps-join_room e actor token key).at db
Keeps-perform e (sets_language actor id l key) db = (Keeps-set_language e actor id l key).at db
Keeps-perform e (sets_ready actor id ready key) db = (Keeps-set_ready e actor id ready key).at db
Keeps-perform e (reads actor id) db = (Keeps-get_snapshot_by_match e actor id).at db
Keeps-perform e (cancels actor id key) db = (Keeps-cancel_match e actor id key).at db
Keeps-perform e (forfeits actor id key) db = (Keeps-forfeit_match e actor id key).at db
Keeps-perform e (starts actor id key kind source) db =
    (Keeps-start_execution e actor id key kind source).at db
Keeps-perform e (marks id attempt) db = (Keeps-mark_execution_running id attempt).at db
Keeps-perform e (completes id raw) db = (Keeps-complete_execution e id raw).at db
Keeps-perform e (votes actor id key) db = (Keeps-request_rematch e actor id key).at db
Keeps-perform e (connects actor room id session) db =
    (Keeps-connect_session e actor room id session).at db
Keeps-perform e (touches session actor) db = (Keeps-touch_session session actor).at db
Keeps-perform e (disconnects session actor) db = (Keeps-disconnect_session e session actor).at db
Keeps-perform e (advances id) db = (Keeps-advance_countdown e id).at db
Keeps-perform e (sweeps_countdowns limit) db = (Keeps-process_due_countdowns e limit).at db
Keeps-perform e (sweeps_disconnects limit) db = (Keeps-process_due_disconnects e limit).at db
Keeps-perform e (sweeps_disconnect id) db = (Keeps-process_due_disconnect_for_match e id).at db
Keeps-perform e expires db = (Keeps-expire_stale_sessions e).at db
Keeps-perform e (expires_for id) db = (Keeps-expire_stale_sessions_for_match e id).at db
Keeps-perform e (recovers stale) db = (Keeps-recover_stale_executions e stale).at db
Keeps-perform e (recovers_for id stale) db =
    (Keeps-recover_stale_executions_for_match e id stale).at db
Keeps-perform e (purges retention limit) db =
    (Keeps-purge_old_realtime_sessions retention limit).at db
