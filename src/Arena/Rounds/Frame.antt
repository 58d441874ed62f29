-- ===== src/Arena/Rounds/Frame.antt =====
-- The actions that leave the answers and the evaluations alone.
use leetbattle.Shared.{ℕ, ◌≡◌, refl, List, [], ◌∷◌}
use leetbattle.Domain.Errors.{Result, ok, err}
use leetbattle.Store.Rows.{
  Db, RecordRow, RoomRow, MemberRow, MatchRow, ParticipantRow, ExecutionRow, EventRow, ReceiptRow,
  SessionRow, VoteRow,
}
use leetbattle.Store.Tx.{
  M, begin, commit, advance, clock_timestamp, new_id, next_sequence, on_matches, on_participants,
  on_executions, on_events, on_receipts, on_rooms, on_members, on_sessions, on_votes, on_records,
}
use leetbattle.Store.Watch.{
  Keeps, Keeps-pure, Keeps-raise, Keeps-lift, Keeps-gets, Keeps-expect, Keeps-if, Keeps-guard,
  Keeps-bind,
}
use leetbattle.Arena.Rounds.Rows.{rounds_watch}

Keeps-commit :
    {A : Type 0} (before after : Db) (r : Result A)
    → rounds_watch.view after ≡ rounds_watch.view before
    → rounds_watch.view (commit before (r, after)).1 ≡ rounds_watch.view before
Keeps-commit before after (ok a) e = e
Keeps-commit before after (err x) e = refl

pub Keeps-begin : {A : Type 0} (m : M A) → Keeps rounds_watch m → Keeps rounds_watch (begin m)
unfolding begin
Keeps-begin m k = record { at = λ db. let (r, after) = m db in Keeps-commit db after r (k.at db) }

advance_rounds : (db : Db) (ds : List ℕ) → rounds_watch.view (advance db ds) ≡ rounds_watch.view db
advance_rounds db [] = refl
advance_rounds db (d ∷ ds) = refl

pub Keeps-clock : Keeps rounds_watch clock_timestamp
unfolding clock_timestamp
Keeps-clock = record { at = λ db. advance_rounds db db.delays }

pub Keeps-new_id : Keeps rounds_watch new_id
unfolding new_id
Keeps-new_id = record { at = λ db. refl }

pub Keeps-next_sequence : Keeps rounds_watch next_sequence
unfolding next_sequence
Keeps-next_sequence = record { at = λ db. refl }

pub Keeps-matches : (f : List MatchRow → List MatchRow) → Keeps rounds_watch (on_matches f)
unfolding on_matches
Keeps-matches f = record { at = λ db. refl }

pub Keeps-participants :
    (f : List ParticipantRow → List ParticipantRow) → Keeps rounds_watch (on_participants f)
unfolding on_participants
Keeps-participants f = record { at = λ db. refl }

pub Keeps-executions :
    (f : List ExecutionRow → List ExecutionRow) → Keeps rounds_watch (on_executions f)
unfolding on_executions
Keeps-executions f = record { at = λ db. refl }

pub Keeps-events : (f : List EventRow → List EventRow) → Keeps rounds_watch (on_events f)
unfolding on_events
Keeps-events f = record { at = λ db. refl }

pub Keeps-receipts : (f : List ReceiptRow → List ReceiptRow) → Keeps rounds_watch (on_receipts f)
unfolding on_receipts
Keeps-receipts f = record { at = λ db. refl }

pub Keeps-rooms : (f : List RoomRow → List RoomRow) → Keeps rounds_watch (on_rooms f)
unfolding on_rooms
Keeps-rooms f = record { at = λ db. refl }

pub Keeps-members : (f : List MemberRow → List MemberRow) → Keeps rounds_watch (on_members f)
unfolding on_members
Keeps-members f = record { at = λ db. refl }

pub Keeps-sessions : (f : List SessionRow → List SessionRow) → Keeps rounds_watch (on_sessions f)
unfolding on_sessions
Keeps-sessions f = record { at = λ db. refl }

pub Keeps-votes : (f : List VoteRow → List VoteRow) → Keeps rounds_watch (on_votes f)
unfolding on_votes
Keeps-votes f = record { at = λ db. refl }

pub Keeps-records : (f : List RecordRow → List RecordRow) → Keeps rounds_watch (on_records f)
unfolding on_records
Keeps-records f = record { at = λ db. refl }

pub ruleset still = (
  Keeps-pure, Keeps-raise, Keeps-lift, Keeps-gets, Keeps-expect, Keeps-if, Keeps-guard, Keeps-bind,
  Keeps-begin, Keeps-clock, Keeps-new_id, Keeps-next_sequence, Keeps-matches, Keeps-participants,
  Keeps-executions, Keeps-events, Keeps-receipts, Keeps-rooms, Keeps-members, Keeps-sessions,
  Keeps-votes, Keeps-records,
)
