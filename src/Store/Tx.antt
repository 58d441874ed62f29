-- ===== src/Store/Tx.antt =====
-- Actions on the database. A transaction that throws leaves the tables as they were; the clock, the
-- identifiers and the sequence go on.
use leetbattle.Shared.{ℕ, suc, ◌+◌, Bool, true, false, Option, some, none, List, [], ◌∷◌}
use leetbattle.Domain.Errors.{Result, ok, err, Error}
use leetbattle.Store.Rows.{
  Db, RecordRow, RoomRow, MemberRow, MatchRow, ParticipantRow, ExecutionRow, EventRow, ReceiptRow,
  SessionRow, VoteRow,
}
use leetbattle.Store.Evaluations.{AnswerRow, EvaluationRow}

abbrev pub M : Type 0 → Type 0
M A = Db → Result A × Db

module _ {A : Type 0} where
  unfoldable pub pure : A → M A
  pure a db = (ok a, db)

  unfoldable pub raise : Error → M A
  raise e db = (err e, db)

  unfoldable pub lift : Result A → M A
  lift r db = (r, db)

  unfoldable pub gets : (Db → A) → M A
  gets f db = (ok (f db), db)

module _ {A B : Type 0} where
  abbrev pub continue : Result A × Db → (A → M B) → Result B × Db
  continue (ok a, db) k = k a db
  continue (err e, db) k = (err e, db)

  infixl 5 ◌>>=◌ ◌>>◌
  unfoldable pub ◌>>=◌ : M A → (A → M B) → M B
  unfolding pure raise lift gets
  ◌>>=◌ m k db = continue (m db) k

  abbrev pub ◌>>◌ : M A → M B → M B
  m >> n = m >>= λ _. n

-- Throw unless the test holds.
unfoldable pub guard : Bool → Error → M (Unit {0})
guard true e = pure tt
guard false e = raise e

-- The first row of a query, or a throw.
unfoldable pub expect : {A : Type 0} → Option A → Error → M A
expect none e = raise e
expect (some a) e = pure a

-- What of the database a rollback does not restore.
abbrev pub rollback : Db → Db → Db
rollback before after = record before {
  clock = after.clock;
  delays = after.delays;
  next_id = after.next_id;
  next_sequence = after.next_sequence;
}

abbrev pub commit : {A : Type 0} → Db → Result A × Db → Result A × Db
commit before (ok a, after) = (ok a, after)
commit before (err e, after) = (err e, rollback before after)

-- `sql.begin`.
unfoldable pub begin : {A : Type 0} → M A → M A
begin m db = commit db (m db)

abbrev pub advance : Db → List ℕ → Db
advance db [] = db
advance db (d ∷ ds) = record db { clock = db.clock + d; delays = ds }

-- `clock_timestamp()`.
unfoldable pub clock_timestamp : M ℕ
clock_timestamp db = let db' = advance db db.delays in (ok db'.clock, db')

-- `gen_random_uuid()` and `randomUUID()`.
unfoldable pub new_id : M ℕ
new_id db = (ok db.next_id, record db { next_id = suc db.next_id })

-- `nextval('execution_server_sequence')`.
unfoldable pub next_sequence : M ℕ
next_sequence db = (ok db.next_sequence, record db { next_sequence = suc db.next_sequence })

-- One table changed.
unfoldable pub on_matches : (List MatchRow → List MatchRow) → M (Unit {0})
on_matches f db = (ok tt, record db { matches = f db.matches })

unfoldable pub on_participants : (List ParticipantRow → List ParticipantRow) → M (Unit {0})
on_participants f db = (ok tt, record db { participants = f db.participants })

unfoldable pub on_executions : (List ExecutionRow → List ExecutionRow) → M (Unit {0})
on_executions f db = (ok tt, record db { executions = f db.executions })

unfoldable pub on_events : (List EventRow → List EventRow) → M (Unit {0})
on_events f db = (ok tt, record db { events = f db.events })

unfoldable pub on_receipts : (List ReceiptRow → List ReceiptRow) → M (Unit {0})
on_receipts f db = (ok tt, record db { receipts = f db.receipts })

unfoldable pub on_rooms : (List RoomRow → List RoomRow) → M (Unit {0})
on_rooms f db = (ok tt, record db { rooms = f db.rooms })

unfoldable pub on_members : (List MemberRow → List MemberRow) → M (Unit {0})
on_members f db = (ok tt, record db { members = f db.members })

unfoldable pub on_sessions : (List SessionRow → List SessionRow) → M (Unit {0})
on_sessions f db = (ok tt, record db { sessions = f db.sessions })

unfoldable pub on_votes : (List VoteRow → List VoteRow) → M (Unit {0})
on_votes f db = (ok tt, record db { votes = f db.votes })

unfoldable pub on_records : (List RecordRow → List RecordRow) → M (Unit {0})
on_records f db = (ok tt, record db { records = f db.records })

unfoldable pub on_answers : (List AnswerRow → List AnswerRow) → M (Unit {0})
on_answers f db = (ok tt, record db { answers = f db.answers })

unfoldable pub on_evaluations : (List EvaluationRow → List EvaluationRow) → M (Unit {0})
on_evaluations f db = (ok tt, record db { evaluations = f db.evaluations })
