-- ===== src/Match/Completion/Decision.antt =====
-- When an accepted submission wins.
use leetbattle.Shared.{ℕ, Bool, true, false, ◌≡◌, Option, some, none, List, find, select, any}
use leetbattle.Domain.Types.{active, EndReason, state_eq}
use leetbattle.Domain.Errors.{ok}
use leetbattle.Store.Rows.{Db, MatchRow, ExecutionRow}
use leetbattle.Match.Config.{Engine}
use leetbattle.Match.Events.{is_match}
use leetbattle.Match.Finish.{finalize_match}
use leetbattle.Match.Finish.Row.{HasResult}
use leetbattle.Match.Disconnects.{is_accepted}
use leetbattle.Match.Completion.{blocks}
use leetbattle.Match.Completion.Order.{IsFirst}

abbrev pub accepted_of : ℕ → Db → List ExecutionRow
accepted_of id db = select (is_accepted id) db.executions

-- The match was active without a winner; the winning submission is accepted, no accepted one
-- precedes it, and none that was received no later is still to be judged; and its player has won.
pub record IsDecided (id : ℕ) (db after : Db) : Type 0 where
  pub row : MatchRow
  pub found : find (is_match id) db.matches ≡ some row
  pub was_active : row.state ≡ active
  pub undecided : row.winner ≡ none
  pub candidate : ExecutionRow
  pub accepted : is_accepted id candidate ≡ true
  pub earliest : IsFirst (accepted_of id db) candidate
  pub unblocked : any (blocks id candidate) db.executions ≡ false
  pub result : HasResult (some candidate.user) EndReason.accepted (find (is_match id) after.matches)

-- What has happened when a candidate was finalized.
record WasFinalized (e : Engine) (id : ℕ) (o : Option ExecutionRow) (db after : Db) : Type 0 where
  pub candidate : ExecutionRow
  pub is_it : o ≡ some candidate
  pub unblocked : any (blocks id candidate) db.executions ≡ false
  pub changed : Bool
  pub finalized :
      finalize_match e id EndReason.accepted (some candidate.user) db ≡ (ok changed, after)
