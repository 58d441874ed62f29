-- ===== src/Match/Finish.antt =====
-- `finalizeMatchTx` of match-engine.ts.
pub mod Row
pub mod Result
pub mod Tally
pub mod Records
use leetbattle.Shared.{
  ℕ, suc, ◌+◌, Bool, true, false, not, ◌&&◌, ◌||◌, Option, some, none, List, [], ◌∷◌, find,
  update_first, nat_beq, ◌==◌, if◌then◌else◌, is_none, is_some, option_eq, nat_eq,
}
use leetbattle.Domain.Types.{
  MatchState, lobby, countdown, active, finished, rematch_pending, MatchMode, duel, practice,
  EndReason, Outcome, win, loss, Activity, thinking, Slot, state_eq, mode_eq, reason_eq,
}
use leetbattle.Domain.Types
use leetbattle.Domain.Errors.{fault}
use leetbattle.Domain.StateMachine.{assert_transition, should_apply_record}
use leetbattle.Store.Rows.{Db, MatchRow, ParticipantRow, RecordRow, match_finished, rematch_opened}
use leetbattle.Store.Tx.{
  M, pure, gets, guard, lift, ◌>>=◌, ◌>>◌, clock_timestamp, on_matches, on_participants, on_records,
}
use leetbattle.Match.Config.{Engine, seconds}
use leetbattle.Match.Events.{is_match, append_event}
use leetbattle.Match.Locks.{lock_match, is_participant}
use leetbattle.Match.Snapshot.{by_slot}

abbrev pub is_open : MatchState → Bool
is_open s = s == active || s == countdown || s == lobby

abbrev pub is_winner : Option ℕ → ParticipantRow → Bool
is_winner winner p = some p.user == winner

abbrev pub applies_record : MatchRow → EndReason → Option ParticipantRow → Bool
applies_record m reason found = m.mode == duel && (should_apply_record reason && is_some found)

abbrev pub close : Option ℕ → EndReason → Bool → ℕ → MatchRow → MatchRow
close winner reason applies now m = record m {
  state = finished;
  winner = winner;
  end_reason = some reason;
  finished_at = some now;
  records_applied = applies;
}

abbrev pub outcome_of : EndReason → Option ℕ → ParticipantRow → Outcome
outcome_of reason winner p =
    if reason == EndReason.no_contest
    then Outcome.no_contest
    else if reason == EndReason.cancelled
    then Outcome.cancelled
    else if is_winner winner p
    then win
    else loss

abbrev pub final_activity : EndReason → Option ℕ → ParticipantRow → Activity
final_activity reason winner p =
    if reason == EndReason.accepted && is_winner winner p then Activity.accepted else thinking

abbrev pub settle : EndReason → Option ℕ → ParticipantRow → ParticipantRow → ParticipantRow
settle reason winner p q = record q {
  outcome = some (outcome_of reason winner p);
  active_execution = none;
  activity = final_activity reason winner p;
}

abbrev pub score : Bool → RecordRow → RecordRow
score true r = record r { wins = r.wins + 1 }
score false r = record r { losses = r.losses + 1 }

abbrev pub of_user : ℕ → RecordRow → Bool
of_user user r = nat_beq r.user user

unfoldable pub count_result : Bool → Option ℕ → ParticipantRow → M (Unit {0})
count_result true winner p = on_records (update_first (of_user p.user) (score (is_winner winner p)))
count_result false winner p = pure tt

unfoldable pub settle_players : ℕ → EndReason → Option ℕ → Bool → List ParticipantRow → M (Unit {0})
settle_players id reason winner applies [] = pure tt
settle_players id reason winner applies (p ∷ ps) = do
  on_participants (update_first (is_participant id p.user) (settle reason winner p))
  count_result applies winner p
  settle_players id reason winner applies ps

abbrev pub is_finished : ℕ → MatchRow → Bool
is_finished id m = is_match id m && m.state == finished

abbrev pub to_rematch : ℕ → MatchRow → MatchRow
to_rematch deadline m = record m { state = rematch_pending; rematch_deadline = some deadline }

unfoldable pub announce_rematch : ℕ → ℕ → Bool → M Bool
announce_rematch id deadline false = pure true
announce_rematch id deadline true = do append_event id (rematch_opened deadline); pure true

unfoldable pub open_rematch : Engine → ℕ → M Bool
open_rematch e id = do
  lift (assert_transition finished rematch_pending)
  now ← clock_timestamp
  let deadline = now + seconds e.rematch_window_seconds
  row ← gets (λ db. find (is_finished id) db.matches)
  on_matches (update_first (is_finished id) (to_rematch deadline))
  announce_rematch id deadline (is_some row)

abbrev pub slot_of : Option ParticipantRow → Option Slot
slot_of none = none
slot_of (some p) = some p.slot

unfoldable pub finalize_open : Engine → MatchRow → EndReason → Option ℕ → M Bool
finalize_open e m reason winner = do
  lift (assert_transition m.state finished)
  ps ← gets (λ db. by_slot m.id db.participants)
  let found = find (is_winner winner) ps
  guard (is_none winner || is_some found) fault
  now ← clock_timestamp
  on_matches
      (update_first (is_match m.id) (close winner reason (applies_record m reason found) now))
  settle_players m.id reason winner (applies_record m reason found) ps
  append_event m.id (match_finished reason (slot_of found))
  if m.mode == practice then pure true else open_rematch e m.id

unfoldable pub finalize_match : Engine → ℕ → EndReason → Option ℕ → M Bool
finalize_match e id reason winner = do
  m ← lock_match id
  if is_open m.state then finalize_open e m reason winner else pure false
