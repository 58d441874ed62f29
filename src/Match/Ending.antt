-- ===== src/Match/Ending.antt =====
-- `cancelMatch` and `forfeitMatch` of match-engine.ts.
use leetbattle.Shared.{
  ℕ, Bool, not, ◌&&◌, Option, some, none, List, find, update, update_first, any, nat_beq, ◌==◌,
  if◌then◌else◌,
}
use leetbattle.Domain.Types.{lobby, active, finished, EndReason, Outcome, one, state_eq, slot_eq}
use leetbattle.Domain.Errors.{domain_error, not_a_participant, invalid_state, execution_in_progress}
use leetbattle.Domain.StateMachine.{assert_transition}
use leetbattle.Store.Rows.{MatchRow, ParticipantRow, CommandType, match_finished, ok_response}
use leetbattle.Store.Tx.{
  M, pure, gets, guard, lift, begin, ◌>>=◌, ◌>>◌, clock_timestamp, on_matches, on_participants,
  on_rooms,
}
use leetbattle.Match.Config.{Engine, empty_payload}
use leetbattle.Match.Receipts.{reserve_command, complete_command}
use leetbattle.Match.Events.{is_match, append_event}
use leetbattle.Match.Locks.{require_actor, lock_match, lock_participant, is_room}
use leetbattle.Match.Snapshot.{MatchSnapshot, get_snapshot_by_match}
use leetbattle.Match.Finish.{finalize_match}
use leetbattle.Match.Disconnects.{is_inflight}

abbrev pub cancel_row : ℕ → MatchRow → MatchRow
cancel_row now m = record m {
  state = finished;
  finished_at = some now;
  end_reason = some EndReason.cancelled;
}

unfoldable pub cancel_lobby : MatchRow → ℕ → List ℕ → M (Unit {0})
cancel_lobby m user key = do
  guard (m.state == lobby) (domain_error invalid_state 409)
  lift (assert_transition m.state finished)
  now ← clock_timestamp
  on_matches (update_first (is_match m.id) (cancel_row now))
  on_participants
      (update (λ p. nat_beq p.match_id m.id) (λ p. record p { outcome = some Outcome.cancelled }))
  closed ← clock_timestamp
  on_rooms (update_first (is_room m.room_id) (λ r. record r { closed_at = some closed }))
  append_event m.id (match_finished EndReason.cancelled none)
  complete_command user key ok_response

unfoldable pub cancel_match_tx : Engine → ℕ → ℕ → List ℕ → M (Unit {0})
cancel_match_tx e user id key = do
  m ← lock_match id
  p ← lock_participant id user
  guard (p.slot == one) (domain_error not_a_participant 403)
  r ← reserve_command e (record {
    actor = user;
    key = key;
    command = CommandType.cancel_match;
    match_id = some id;
    payload = empty_payload;
  })
  if r.duplicate then pure tt else cancel_lobby m user key

unfoldable pub cancel_match : Engine → Option ℕ → ℕ → List ℕ → M MatchSnapshot
cancel_match e actor id key = do
  user ← require_actor actor
  begin (cancel_match_tx e user id key)
  get_snapshot_by_match e actor id

unfoldable pub concede : Engine → ℕ → Option ParticipantRow → M Bool
concede e id none = finalize_match e id EndReason.cancelled none
concede e id (some opponent) = finalize_match e id EndReason.forfeit (some opponent.user)

unfoldable pub forfeit_active : Engine → MatchRow → ℕ → List ℕ → M (Unit {0})
forfeit_active e m user key = do
  guard (m.state == active) (domain_error invalid_state 409)
  own ← gets (λ db. any (λ x. is_inflight m.id x && nat_beq x.user user) db.executions)
  guard (not own) (domain_error execution_in_progress 409)
  opponent ←
      gets (λ db. find (λ p. nat_beq p.match_id m.id && not (nat_beq p.user user)) db.participants)
  concede e m.id opponent
  complete_command user key ok_response

unfoldable pub forfeit_match_tx : Engine → ℕ → ℕ → List ℕ → M (Unit {0})
forfeit_match_tx e user id key = do
  m ← lock_match id
  lock_participant id user
  r ← reserve_command e (record {
    actor = user;
    key = key;
    command = CommandType.forfeit_match;
    match_id = some id;
    payload = empty_payload;
  })
  if r.duplicate then pure tt else forfeit_active e m user key

unfoldable pub forfeit_match : Engine → Option ℕ → ℕ → List ℕ → M MatchSnapshot
forfeit_match e actor id key = do
  user ← require_actor actor
  begin (forfeit_match_tx e user id key)
  get_snapshot_by_match e actor id
