-- ===== src/Tests/Playing.antt =====
-- Calls on a match that is not over.
use leetbattle.Shared.{◌≡◌, refl, arith, Bool, true, false, some, none, [], ◌∷◌, All}
use leetbattle.Domain.Types.{active, lobby, one, slot_eq, java, python, submit}
use leetbattle.Domain.Errors.{ok, err, Result}
use leetbattle.Store.Rows.{Db, CommandType, ok_response}
use leetbattle.Store.Tx.{
  pure, raise, lift, gets, guard, expect, begin, ◌>>=◌, clock_timestamp, new_id, on_matches,
  on_participants, on_executions, on_events, on_receipts,
}
use leetbattle.Match.Config.{language_payload}
use leetbattle.Match.Receipts.{
  Command, complete_command, reserve_command, reserve_with, assert_idempotency_key,
}
use leetbattle.Match.Receipts.Replay.{twice, answer, is_same, reserve_command-twice}
use leetbattle.Match.Events.{append_event}
use leetbattle.Match.Locks.{lock_match, lock_participant, require_actor, assert_match_participant}
use leetbattle.Match.Countdown.{advance_countdown, advance_countdown_tx}
use leetbattle.Match.Snapshot.{MatchSnapshot, get_snapshot_by_match, snapshot_of, join_players}
use leetbattle.Match.Snapshot.Privacy.{IsOwn, is_hidden, get_snapshot_hidden, get_snapshot-IsOwn}
use leetbattle.Match.Executions.{
  Ingress, ExecutionRecord, admit_execution, check_limit, insert_execution,
}
use leetbattle.Match.Executions.Admission.{IsAdmitted, admit_execution-IsAdmitted}
use leetbattle.Match.Calls.Ready.{set_ready-again}
use leetbattle.Match.Lobby.{set_ready, set_ready_tx, change_ready, start_if_ready}
use leetbattle.Tests.Fixtures.{engine, match_in, player, players, database, two_sum}

abbrev ongoing : Db
ongoing = database (match_in active) players []

abbrev choice : Command
choice = record {
  actor = 1;
  key = 5 ∷ [];
  command = CommandType.set_language;
  match_id = some 7;
  payload = language_payload java;
}

abbrev other_choice : Command
other_choice = record {
  actor = 1;
  key = 5 ∷ [];
  command = CommandType.set_language;
  match_id = some 7;
  payload = language_payload python;
}

reserve_command-twice_example :
    (twice engine choice ok_response other_choice ongoing).0
    ≡ answer (is_same engine choice other_choice) ok_response
reserve_command-twice_example =
    reserve_command-twice engine choice other_choice ok_response ongoing refl refl refl refl

abbrev ingress : Ingress
ingress = record {
  user = 1;
  key = 8 ∷ [];
  kind = submit;
  source_hash = 20;
  source_bytes = 20;
  received_at = 999999;
  sequence = 90;
}

abbrev admitted : Db
admitted = (admit_execution engine ingress (match_in active) (player 1 one) ongoing).1

abbrev execution : ExecutionRecord
execution = record {
  id = 50;
  match_id = 7;
  actor = 1;
  kind = submit;
  language = python;
  problem = some two_sum;
  received_at = 999999;
  sequence = 90;
  created = true;
}

is_admitted :
    admit_execution engine ingress (match_in active) (player 1 one) ongoing
    ≡ (ok execution, admitted)
unfolding admit_execution check_limit insert_execution append_event complete_command pure lift gets
    guard expect new_id clock_timestamp on_matches on_participants on_executions on_events
    on_receipts ◌>>=◌
is_admitted = refl

admit_execution-IsAdmitted_example :
    IsAdmitted engine ingress (match_in active) (player 1 one) execution ongoing admitted
admit_execution-IsAdmitted_example =
    admit_execution-IsAdmitted engine ingress (match_in active) (player 1 one) execution ongoing
      admitted is_admitted

abbrev in_lobby : Db
in_lobby = database (match_in lobby) players []

abbrev joined : Db
joined = record in_lobby { clock = 1000003; delays = [] }

abbrev lobby_snapshot : MatchSnapshot
lobby_snapshot =
    snapshot_of engine 1 1000001 (match_in lobby) (join_players 1000002 joined players) joined

shown :
    get_snapshot_by_match engine (some 1) 7 in_lobby
    ≡ (ok lobby_snapshot, (get_snapshot_by_match engine (some 1) 7 in_lobby).1)
unfolding get_snapshot_by_match require_actor assert_match_participant advance_countdown
    advance_countdown_tx lock_match snapshot_of join_players begin pure lift gets guard expect
    clock_timestamp ◌>>=◌
shown = refl

hidden : is_hidden lobby_snapshot ≡ true
unfolding snapshot_of
hidden = refl

get_snapshot_hidden_example :
    (lobby_snapshot.problem ≡ none)
    × (lobby_snapshot.question ≡ none)
    × (lobby_snapshot.answer_deadline_at ≡ none)
get_snapshot_hidden_example =
    get_snapshot_hidden engine (some 1) 7 in_lobby
      (get_snapshot_by_match engine (some 1) 7 in_lobby).1 lobby_snapshot shown hidden

get_snapshot-IsOwn_example : All IsOwn lobby_snapshot.players
get_snapshot-IsOwn_example =
    get_snapshot-IsOwn engine (some 1) 7 in_lobby
      (get_snapshot_by_match engine (some 1) 7 in_lobby).1 lobby_snapshot shown

-- The first player is not ready any more.
abbrev unready : Db
unready = (set_ready engine (some 1) 7 false (8 ∷ []) in_lobby).1

abbrev returned : Result MatchSnapshot → MatchSnapshot
returned (ok s) = s
returned (err x) = lobby_snapshot

abbrev unready_snapshot : MatchSnapshot
unready_snapshot = returned (set_ready engine (some 1) 7 false (8 ∷ []) in_lobby).0

abbrev has_returned : Result MatchSnapshot → Bool
has_returned (ok s) = true
has_returned (err x) = false

by_parts : (r : Result MatchSnapshot × Db) → has_returned r.0 ≡ true → r ≡ (ok (returned r.0), r.1)
by_parts (ok s, db) h = refl
by_parts (err x, db) h = ground arith

is_answered : has_returned (set_ready engine (some 1) 7 false (8 ∷ []) in_lobby).0 ≡ true
unfolding set_ready set_ready_tx lock_participant reserve_command assert_idempotency_key
    reserve_with complete_command change_ready start_if_ready append_event get_snapshot_by_match
    require_actor assert_match_participant advance_countdown advance_countdown_tx lock_match
    snapshot_of join_players begin pure raise lift gets guard expect clock_timestamp on_matches
    on_participants on_events on_receipts ◌>>=◌
is_answered = refl

returns : set_ready engine (some 1) 7 false (8 ∷ []) in_lobby ≡ (ok unready_snapshot, unready)
returns = by_parts (set_ready engine (some 1) 7 false (8 ∷ []) in_lobby) is_answered

set_ready-again_example :
    set_ready engine (some 1) 7 false (8 ∷ []) unready
    ≡ get_snapshot_by_match engine (some 1) 7 unready
set_ready-again_example =
    set_ready-again engine 1 7 false (8 ∷ []) in_lobby unready unready_snapshot returns
