-- ===== src/Arena/Lifecycle/Steps.antt =====
-- The matches in any history of the two services.
use leetbattle.Shared.{ℕ, refl, List, [], ◌∷◌, Option, some, none, Bool, true, false}
use leetbattle.Domain.Types.{MatchMode}
use leetbattle.Store.Rows.{Db, MatchRow, ParticipantRow}
use leetbattle.Store.Evaluations.{EvaluationRow}
use leetbattle.Store.Watch.{Keeps, Keeps-bind, Run, Run-keep, Run-bind, Run-begin}
use leetbattle.Match.Config.{Engine}
use leetbattle.Match.Calls.Evolution.{perform-Evolves}
use leetbattle.Match.Lifecycle.Rows.{matches_watch, Evolves, Evolves-refl, Evolves-trans}
use leetbattle.Match.Lifecycle.Frame.{frame, Keeps-participants, Keeps-answers}
use leetbattle.Match.Lifecycle.Steps.{Run-append_event}
use leetbattle.Arena.Config.{Arena}
use leetbattle.Arena.Answer.{Measurement, Violation}
use leetbattle.Arena.Claims.{Claim, take_claim, try_claim, claim_evaluation_tx, claim_evaluation}
use leetbattle.Arena.Judgment.{
  count_judged, judge_players, finish_judged, complete_held, persist_success_tx, persist_success,
}
use leetbattle.Arena.Judgment.Resolution.{JudgeSuccess, Verdict}
use leetbattle.Arena.Failure.{
  JudgeFailure, end_failed, announce_failure, fail_held, persist_failure_tx, persist_failure,
}
use leetbattle.Arena.Submission.{
  within_limits, lock_answer, submit_fresh, submit_answer_tx, place_answer,
}
use leetbattle.Arena.Deadlines.{time_out_players, process_deadline, process_deadline_tx}
use leetbattle.Arena.Recovery.{retry_fresh, retry_evaluation_tx, allow_retry}
use leetbattle.Arena.Calls.{
  Step, plays, places, times_out, claims, succeeds, fails, allows_retry, take_step, take_steps,
}
use leetbattle.Arena.Lifecycle.{arena_steps}

Keeps-take_claim : (id : ℕ) → Keeps matches_watch (take_claim id)
unfolding take_claim
Keeps-take_claim id = search frame depth 10

Keeps-try_claim :
    (a : Arena) (id : ℕ) (o : Option EvaluationRow) → Keeps matches_watch (try_claim a id o)
unfolding try_claim
Keeps-try_claim a id none = search frame
Keeps-try_claim a id (some v) = search (frame, Keeps-take_claim) depth 10

Run-claim_evaluation :
    (v : List MatchRow) (a : Arena) (id : ℕ) → Run matches_watch v (claim_evaluation a id)
unfolding claim_evaluation claim_evaluation_tx
Run-claim_evaluation v a id = search (arena_steps, Keeps-try_claim) depth 12

Keeps-count_judged :
    (applies : Bool) (winner : Option ℕ) (p : ParticipantRow)
    → Keeps matches_watch (count_judged applies winner p)
unfolding count_judged
Keeps-count_judged true winner p = search frame
Keeps-count_judged false winner p = search frame

pub Keeps-judge_players :
    (id : ℕ) (mode : MatchMode) (winner : Option ℕ) (applies : Bool) (ps : List ParticipantRow)
    → Keeps matches_watch (judge_players id mode winner applies ps)
unfolding judge_players
Keeps-judge_players id mode winner applies [] = search frame
Keeps-judge_players id mode winner applies (p ∷ ps) = Keeps-bind _ _ _ (Keeps-participants _) λ _.
    Keeps-bind _ _ _ (Keeps-count_judged applies winner p)
      λ _. Keeps-judge_players id mode winner applies ps

Run-finish_judged :
    (v : List MatchRow) (a : Arena) (m : MatchRow) (w : EvaluationRow) (r : Verdict)
    (winner : Option ℕ)
    → Run matches_watch v (finish_judged a m w r winner)
unfolding finish_judged
Run-finish_judged v a m w r winner = search (arena_steps, Keeps-judge_players) depth 40

Run-complete_held :
    (v : List MatchRow) (a : Arena) (m : MatchRow) (c : Claim) (r : JudgeSuccess) (x : Verdict)
    (winner : Option ℕ)
    → Run matches_watch v (complete_held a m c r x winner)
unfolding complete_held
Run-complete_held v a m c r x winner = search (arena_steps, Run-finish_judged) depth 20

Run-persist_success :
    (v : List MatchRow) (a : Arena) (c : Claim) (r : JudgeSuccess)
    → Run matches_watch v (persist_success a c r)
unfolding persist_success persist_success_tx
Run-persist_success v a c r = search (arena_steps, Run-complete_held) depth 20

Run-end_failed :
    (v : List MatchRow) (a : Arena) (m : MatchRow) → Run matches_watch v (end_failed a m)
unfolding end_failed
Run-end_failed v a m = search arena_steps depth 30

Run-announce_failure :
    (v : List MatchRow) (a : Arena) (m : MatchRow) (f : JudgeFailure) (at : Option ℕ)
    → Run matches_watch v (announce_failure a m f at)
unfolding announce_failure
Run-announce_failure v a m f at = search (arena_steps, Run-end_failed) depth 20

Run-fail_held :
    (v : List MatchRow) (a : Arena) (m : MatchRow) (c : Claim) (f : JudgeFailure)
    → Run matches_watch v (fail_held a m c f)
unfolding fail_held
Run-fail_held v a m c f = search (arena_steps, Run-announce_failure) depth 20

Run-persist_failure :
    (v : List MatchRow) (a : Arena) (c : Claim) (error : Option JudgeFailure)
    → Run matches_watch v (persist_failure a c error)
unfolding persist_failure persist_failure_tx
Run-persist_failure v a c error = search (arena_steps, Run-fail_held) depth 20

Keeps-within_limits : (vs : List Violation) → Keeps matches_watch (within_limits vs)
unfolding within_limits
Keeps-within_limits [] = search frame
Keeps-within_limits (v ∷ vs) = search frame

Keeps-lock_answer :
    (id user : ℕ) (measured : Measurement) → Keeps matches_watch (lock_answer id user measured)
unfolding lock_answer
Keeps-lock_answer id user measured = search frame depth 12

Run-submit_fresh :
    (v : List MatchRow) (a : Arena) (m : MatchRow) (p : ParticipantRow) (key : List ℕ)
    (measured : Measurement)
    → Run matches_watch v (submit_fresh a m p key measured)
unfolding submit_fresh
Run-submit_fresh v a m p key measured = search (arena_steps, Keeps-lock_answer) depth 30

Run-submit_answer_tx :
    (v : List MatchRow) (a : Arena) (user id : ℕ) (key : List ℕ) (measured : Measurement)
    → Run matches_watch v (submit_answer_tx a user id key measured)
unfolding submit_answer_tx
Run-submit_answer_tx v a user id key measured = search (arena_steps, Run-submit_fresh) depth 20

Run-place_answer :
    (v : List MatchRow) (a : Arena) (actor : Option ℕ) (id : ℕ) (key answer : List ℕ)
    → Run matches_watch v (place_answer a actor id key answer)
unfolding place_answer
Run-place_answer v a actor id key answer =
    search (arena_steps, Keeps-within_limits, Run-submit_answer_tx) depth 20

Run-time_out_players :
    (v : List MatchRow) (id until : ℕ) (ps : List ParticipantRow)
    → Run matches_watch v (time_out_players id until ps)
unfolding time_out_players
Run-time_out_players v id until [] = search arena_steps
Run-time_out_players v id until (p ∷ ps) =
    Run-bind _ v _ _ (Run-keep _ v _ (Keeps-answers _))
      λ w _. Run-bind _ w _ _ (Run-append_event w id _) λ u _. Run-time_out_players u id until ps

Run-process_deadline :
    (v : List MatchRow) (a : Arena) (m : MatchRow) (o : Option ℕ)
    → Run matches_watch v (process_deadline a m o)
unfolding process_deadline
Run-process_deadline v a m none = search arena_steps
Run-process_deadline v a m (some until) = search (arena_steps, Run-time_out_players) depth 30

Run-process_deadline_tx :
    (v : List MatchRow) (a : Arena) (id : ℕ) → Run matches_watch v (process_deadline_tx a id)
unfolding process_deadline_tx
Run-process_deadline_tx v a id = search (arena_steps, Run-process_deadline) depth 20

Run-retry_fresh :
    (v : List MatchRow) (m : MatchRow) (user : ℕ) (key : List ℕ)
    → Run matches_watch v (retry_fresh m user key)
unfolding retry_fresh
Run-retry_fresh v m user key = search arena_steps depth 30

Run-allow_retry :
    (v : List MatchRow) (a : Arena) (actor : Option ℕ) (id : ℕ) (key : List ℕ)
    → Run matches_watch v (allow_retry a actor id key)
unfolding allow_retry retry_evaluation_tx
Run-allow_retry v a actor id key = search (arena_steps, Run-retry_fresh) depth 30

take_step-Evolves :
    (e : Engine) (a : Arena) (s : Step) (db : Db) → Evolves db.matches (take_step e a s db).matches
unfolding take_step
take_step-Evolves e a (plays c) db = perform-Evolves e c db
take_step-Evolves e a (places actor id key answer) db =
    (Run-place_answer db.matches a actor id key answer).at db refl
take_step-Evolves e a (times_out id) db =
    (Run-begin _ db.matches _ (Run-process_deadline_tx db.matches a id)).at db refl
take_step-Evolves e a (claims id) db = (Run-claim_evaluation db.matches a id).at db refl
take_step-Evolves e a (succeeds c r) db = (Run-persist_success db.matches a c r).at db refl
take_step-Evolves e a (fails c error) db = (Run-persist_failure db.matches a c error).at db refl
take_step-Evolves e a (allows_retry actor id key) db =
    (Run-allow_retry db.matches a actor id key).at db refl

-- Whatever the two services do on one database, in whatever order, the matches that were there stay,
-- in their order, and go forward: each keeps its room, mode, challenge, difficulty and round, its
-- state follows the transition table and its version does not fall; once it has left the lobby it
-- keeps its problem, start and answer deadline, and once it is over its winner, reason, finish and
-- record flag.
pub take_steps-Evolves :
    (e : Engine) (a : Arena) (ss : List Step) (db : Db)
    → Evolves db.matches (take_steps e a ss db).matches
unfolding take_steps
take_steps-Evolves e a [] db = Evolves-refl db.matches
take_steps-Evolves e a (s ∷ ss) db =
    Evolves-trans (take_step-Evolves e a s db) (take_steps-Evolves e a ss (take_step e a s db))
