-- ===== src/Arena/Calls.antt =====
-- The transactions of the match engine and of the arena service on one database. An evaluation is a
-- claim, a call of the judge, and the transaction that keeps its result: what others do during that
-- call are the steps between the two.
use leetbattle.Shared.{ℕ, Option, List, [], ◌∷◌}
use leetbattle.Store.Rows.{Db}
use leetbattle.Store.Tx.{begin}
use leetbattle.Match.Config.{Engine}
use leetbattle.Match.Calls.{Call, perform}
use leetbattle.Arena.Config.{Arena}
use leetbattle.Arena.Claims.{Claim, claim_evaluation}
use leetbattle.Arena.Judgment.{persist_success}
use leetbattle.Arena.Judgment.Resolution.{JudgeSuccess}
use leetbattle.Arena.Failure.{JudgeFailure, persist_failure}
use leetbattle.Arena.Submission.{place_answer}
use leetbattle.Arena.Deadlines.{process_deadline_tx}
use leetbattle.Arena.Recovery.{allow_retry}

pub data Step : Type 0 where
  plays : Call → Step
  places : Option ℕ → ℕ → List ℕ → List ℕ → Step
  times_out : ℕ → Step
  claims : ℕ → Step
  succeeds : Claim → JudgeSuccess → Step
  fails : Claim → Option JudgeFailure → Step
  allows_retry : Option ℕ → ℕ → List ℕ → Step

unfoldable pub take_step : Engine → Arena → Step → Db → Db
take_step e a (plays c) db = perform e c db
take_step e a (places actor id key answer) db = (place_answer a actor id key answer db).1
take_step e a (times_out id) db = (begin (process_deadline_tx a id) db).1
take_step e a (claims id) db = (claim_evaluation a id db).1
take_step e a (succeeds c r) db = (persist_success a c r db).1
take_step e a (fails c error) db = (persist_failure a c error db).1
take_step e a (allows_retry actor id key) db = (allow_retry a actor id key db).1

unfoldable pub take_steps : Engine → Arena → List Step → Db → Db
take_steps e a [] db = db
take_steps e a (s ∷ ss) db = take_steps e a ss (take_step e a s db)
