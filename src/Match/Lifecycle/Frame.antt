-- ===== src/Match/Lifecycle/Frame.antt =====
-- The actions that do not touch `matches`.
use leetbattle.Shared.{ℕ, ◌≡◌, refl, List, [], ◌∷◌}
use leetbattle.Store.Rows.{
  Db, RecordRow, RoomRow, MemberRow, ParticipantRow, ExecutionRow, EventRow, ReceiptRow, SessionRow,
  VoteRow,
}
use leetbattle.Store.Evaluations.{AnswerRow, EvaluationRow}
use leetbattle.Store.Tx.{
  advance, clock_timestamp, new_id, next_sequence, on_participants, on_executions, on_events,
  on_receipts, on_rooms, on_members, on_sessions, on_votes, on_records, on_answers, on_evaluations,
}
use leetbattle.Store.Watch.{
  Keeps, Keeps-pure, Keeps-raise, Keeps-lift, Keeps-gets, Keeps-expect, Keeps-if, Keeps-guard,
  Keeps-bind,
}
use leetbattle.Match.Lifecycle.Rows.{matches_watch}

advance_matches : (db : Db) (ds : List ℕ) → (advance db ds).matches ≡ db.matches
advance_matches db [] = refl
advance_matches db (d ∷ ds) = refl

pub Keeps-clock : Keeps matches_watch clock_timestamp
unfolding clock_timestamp
Keeps-clock = record { at = λ db. advance_matches db db.delays }

pub Keeps-new_id : Keeps matches_watch new_id
unfolding new_id
Keeps-new_id = record { at = λ db. refl }

pub Keeps-next_sequence : Keeps matches_watch next_sequence
unfolding next_sequence
Keeps-next_sequence = record { at = λ db. refl }

pub Keeps-participants :
    (f : List ParticipantRow → List ParticipantRow) → Keeps matches_watch (on_participants f)
unfolding on_participants
Keeps-participants f = record { at = λ db. refl }

pub Keeps-executions :
    (f : List ExecutionRow → List ExecutionRow) → Keeps matches_watch (on_executions f)
unfolding on_executions
Keeps-executions f = record { at = λ db. refl }

pub Keeps-events : (f : List EventRow → List EventRow) → Keeps matches_watch (on_events f)
unfolding on_events
Keeps-events f = record { at = λ db. refl }

pub Keeps-receipts : (f : List ReceiptRow → List ReceiptRow) → Keeps matches_watch (on_receipts f)
unfolding on_receipts
Keeps-receipts f = record { at = λ db. refl }

pub Keeps-rooms : (f : List RoomRow → List RoomRow) → Keeps matches_watch (on_rooms f)
unfolding on_rooms
Keeps-rooms f = record { at = λ db. refl }

pub Keeps-members : (f : List MemberRow → List MemberRow) → Keeps matches_watch (on_members f)
unfolding on_members
Keeps-members f = record { at = λ db. refl }

pub Keeps-sessions : (f : List SessionRow → List SessionRow) → Keeps matches_watch (on_sessions f)
unfolding on_sessions
Keeps-sessions f = record { at = λ db. refl }

pub Keeps-votes : (f : List VoteRow → List VoteRow) → Keeps matches_watch (on_votes f)
unfolding on_votes
Keeps-votes f = record { at = λ db. refl }

pub Keeps-records : (f : List RecordRow → List RecordRow) → Keeps matches_watch (on_records f)
unfolding on_records
Keeps-records f = record { at = λ db. refl }

pub Keeps-answers : (f : List AnswerRow → List AnswerRow) → Keeps matches_watch (on_answers f)
unfolding on_answers
Keeps-answers f = record { at = λ db. refl }

pub Keeps-evaluations :
    (f : List EvaluationRow → List EvaluationRow) → Keeps matches_watch (on_evaluations f)
unfolding on_evaluations
Keeps-evaluations f = record { at = λ db. refl }

pub ruleset frame = (
  Keeps-pure, Keeps-raise, Keeps-lift, Keeps-gets, Keeps-expect, Keeps-if, Keeps-guard, Keeps-bind,
  Keeps-clock, Keeps-new_id, Keeps-next_sequence, Keeps-participants, Keeps-executions,
  Keeps-events, Keeps-receipts, Keeps-rooms, Keeps-members, Keeps-sessions, Keeps-votes,
  Keeps-records, Keeps-answers, Keeps-evaluations,
)
