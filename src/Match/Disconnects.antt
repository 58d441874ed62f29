-- ===== src/Match/Disconnects.antt =====
-- `evaluateDisconnectsTx`, `processDueDisconnects` and `processDueDisconnectForMatch` of
-- match-engine.ts.
pub mod Absence
use leetbattle.Shared.{
  sort_by, take, ℕ, ◌+◌, max, min, Bool, true, false, not, ◌&&◌, ◌||◌, Option, some, none, List, [],
  ◌∷◌, find, select, any, length, nat_beq, ltb, leb, ◌==◌, if◌then◌else◌, map,
}
use leetbattle.Domain.Types.{
  active, practice, Verdict, ExecutionKind, submit, EndReason, forfeit, state_eq, mode_eq,
  verdict_eq, kind_eq,
}
use leetbattle.Domain.Types
use leetbattle.Store.Rows.{Db, MatchRow, ParticipantRow, ExecutionRow, Summary, is_completed}
use leetbattle.Store.Tx.{M, pure, gets, begin, ◌>>=◌, ◌>>◌, clock_timestamp}
use leetbattle.Match.Config.{Engine}
use leetbattle.Match.Locks.{lock_match}
use leetbattle.Match.Countdown.{is_due}
use leetbattle.Match.Snapshot.{by_slot}
use leetbattle.Match.Finish.{finalize_match}

abbrev pub has_verdict : Verdict → Option Summary → Bool
has_verdict v none = false
has_verdict v (some s) = s.verdict == v

-- A submission to the match that was judged and accepted.
abbrev pub is_accepted : ℕ → ExecutionRow → Bool
is_accepted id x =
    nat_beq x.match_id id
    && (x.kind == submit && (is_completed x.status && has_verdict Verdict.accepted x.result))

-- A submission to the match that is not judged yet.
abbrev pub is_inflight : ℕ → ExecutionRow → Bool
is_inflight id x = nat_beq x.match_id id && (x.kind == submit && not (is_completed x.status))

abbrev pub is_of : List ParticipantRow → ExecutionRow → Bool
is_of ps x = any (λ p. nat_beq p.user x.user) ps

abbrev pub is_away : ParticipantRow → Bool
is_away p = not p.connected

abbrev pub is_expired : ℕ → ParticipantRow → Bool
is_expired now p = not p.connected && is_due now p.reconnect_deadline

unfoldable pub forfeit_to : Engine → ℕ → Option ParticipantRow → M Bool
forfeit_to e id none = pure false
forfeit_to e id (some winner) = finalize_match e id EndReason.forfeit (some winner.user)

-- `gone` are the disconnected participants and `late` those of them whose time is over.
unfoldable pub decide_disconnects :
    Engine → ℕ → List ParticipantRow → List ParticipantRow → List ParticipantRow → M Bool
decide_disconnects e id ps gone late =
    if nat_beq (length gone) 2
    then if ltb (length late) 2 then pure false else finalize_match e id EndReason.no_contest none
    else forfeit_to e id (find (λ p. p.connected) ps)

unfoldable pub check_disconnects :
    Engine → ℕ → List ParticipantRow → List ParticipantRow → List ParticipantRow → M Bool
check_disconnects e id ps gone late = do
  is_decided ← gets (λ db. any (is_accepted id) db.executions)
  is_waiting ← gets (λ db. any (λ x. is_inflight id x && is_of late x) db.executions)
  if is_decided || is_waiting then pure false else decide_disconnects e id ps gone late

unfoldable pub evaluate_active : Engine → MatchRow → M Bool
evaluate_active e m = do
  now ← clock_timestamp
  ps ← gets (λ db. by_slot m.id db.participants)
  let gone = select is_away ps
  let late = select (is_expired now) ps
  if not (nat_beq (length ps) 2) || nat_beq (length late) 0
      then pure false
      else check_disconnects e m.id ps gone late

unfoldable pub evaluate_disconnects : Engine → ℕ → M Bool
evaluate_disconnects e id = do
  m ← lock_match id
  if not (m.state == active) || m.mode == practice then pure false else evaluate_active e m

unfoldable pub evaluate_all : Engine → List ℕ → M ℕ
evaluate_all e [] = pure 0
evaluate_all e (id ∷ ids) = do
  changed ← begin (evaluate_disconnects e id)
  finalized ← evaluate_all e ids
  pure (if changed then finalized + 1 else finalized)

-- DISTINCT.
distinct : List ℕ → List ℕ
distinct [] = []
distinct (x ∷ xs) = x ∷ select (λ y. not (nat_beq y x)) (distinct xs)

unfoldable pub process_due_disconnects : Engine → ℕ → M ℕ
unfolding distinct
process_due_disconnects e limit = do
  now ← clock_timestamp
  ids ← gets λ db. take (max 1 (min 500 limit)) (
      sort_by (λ id. id)
        (distinct
          (map (λ p. p.match_id) (select (λ p. is_due now p.reconnect_deadline) db.participants))))
  evaluate_all e ids

unfoldable pub process_due_disconnect_for_match : Engine → ℕ → M ℕ
process_due_disconnect_for_match e id = do
  now ← clock_timestamp
  due ←
      gets λ db. any (λ p. nat_beq p.match_id id && is_due now p.reconnect_deadline) db.participants
  changed ← if due then begin (evaluate_disconnects e id) else pure false
  pure (if changed then 1 else 0)
