-- ===== src/Arena/Rounds/Service.antt =====
-- Each transaction of the arena service changes the answers and the evaluations as their relation
-- allows.
use leetbattle.Shared.{
  ℕ, ◌≡◌, refl, Bool, true, false, Option, some, none, List, [], ◌∷◌, find, is_none, arith,
}
use leetbattle.Domain.Types.{MatchMode}
use leetbattle.Store.Rows.{MatchRow, ParticipantRow}
use leetbattle.Store.Evaluations.{AnswerRow, EvaluationRow}
use leetbattle.Store.Watch.{
  Keeps, Keeps-bind, Run, Run-bind, Run-bind_keep, Run-bind_gets, Run-bind_guard, Run-if, Run-begin,
}
use leetbattle.Arena.Config.{Arena}
use leetbattle.Arena.Answer.{Measurement, Violation}
use leetbattle.Arena.Preparation.{is_answer_of}
use leetbattle.Arena.Claims.{
  Claim, is_evaluation, may_claim, take_claim, try_claim, claim_evaluation_tx, claim_evaluation,
}
use leetbattle.Arena.Judgment.{
  count_judged, judge_players, finish_judged, complete_held, persist_success_tx, persist_success,
}
use leetbattle.Arena.Judgment.Resolution.{JudgeSuccess, Verdict}
use leetbattle.Arena.Failure.{
  JudgeFailure, end_failed, announce_failure, fail_held, persist_failure_tx, persist_failure,
}
use leetbattle.Arena.Submission.{
  within_limits, lock_answer, submit_fresh, submit_answer_tx, place_answer,
}
use leetbattle.Arena.Deadlines.{time_out_players, process_deadline, process_deadline_tx}
use leetbattle.Arena.Recovery.{retry_fresh, retry_evaluation_tx, allow_retry}
use leetbattle.Arena.Rounds.Rows.{
  Rounds, rounds_watch, acting, clerk, claimant, worker, other, Keeps-acting, Run-still,
}
use leetbattle.Arena.Rounds.Frame.{still, Keeps-participants, Keeps-clock, Keeps-new_id}
use leetbattle.Arena.Rounds.Engine.Heads.{Keeps-append_event}
use leetbattle.Arena.Rounds.Writes.{
  Run-claim_row, Run-judged_row, Run-failed_row, Run-insert_answer, Run-add_answer,
}
use leetbattle.Arena.Rounds.Preparation.{frames, Run-prepare_evaluation}

-- The claimed row is the one that was found fit to be claimed.
Run-take_claim :
    (v : Rounds) (a : Arena) (id now : ℕ) (w : EvaluationRow)
    → find (is_evaluation id) v.1 ≡ some w
    → may_claim a now w ≡ true
    → Run (acting (claimant id)) v (take_claim id)
unfolding take_claim
Run-take_claim v a id now w found h = Run-bind_keep _ v _ _ (Keeps-acting _ _ Keeps-new_id) λ c.
    Run-bind_keep _ v _ _ (Keeps-acting _ _ Keeps-clock)
      λ later. Run-bind _ v _ _ (Run-claim_row v a id now c later w found h) λ u _. search frames

Run-try_claim :
    (v : Rounds) (a : Arena) (id : ℕ) (o : Option EvaluationRow)
    → find (is_evaluation id) v.1 ≡ o
    → Run (acting (claimant id)) v (try_claim a id o)
unfolding try_claim
Run-try_claim v a id none found = search frames
Run-try_claim v a id (some w) found =
    Run-bind_keep _ v _ _ (Keeps-acting _ _ Keeps-clock)
      λ now. Run-if _ v _ _ _ (λ h. Run-take_claim v a id now w found h) λ _. search frames

pub Run-claim_evaluation :
    (v : Rounds) (a : Arena) (id : ℕ) → Run (acting (claimant id)) v (claim_evaluation a id)
unfolding claim_evaluation claim_evaluation_tx
Run-claim_evaluation v a id =
    Run-begin _ v _
      (Run-bind_gets _ v (λ r. find (is_evaluation id) r.1) _ (Run-try_claim v a id _ refl))

Keeps-count_judged :
    (applies : Bool) (winner : Option ℕ) (p : ParticipantRow)
    → Keeps rounds_watch (count_judged applies winner p)
unfolding count_judged
Keeps-count_judged true winner p = search still
Keeps-count_judged false winner p = search still

Keeps-judge_players :
    (id : ℕ) (mode : MatchMode) (winner : Option ℕ) (applies : Bool) (ps : List ParticipantRow)
    → Keeps rounds_watch (judge_players id mode winner applies ps)
unfolding judge_players
Keeps-judge_players id mode winner applies [] = search still
Keeps-judge_players id mode winner applies (p ∷ ps) = Keeps-bind _ _ _ (Keeps-participants _) λ _.
    Keeps-bind _ _ _ (Keeps-count_judged applies winner p)
      λ _. Keeps-judge_players id mode winner applies ps

pub Keeps-finish_judged :
    (a : Arena) (m : MatchRow) (w : EvaluationRow) (r : Verdict) (winner : Option ℕ)
    → Keeps rounds_watch (finish_judged a m w r winner)
unfolding finish_judged
Keeps-finish_judged a m w r winner = search (frames, Keeps-judge_players) depth 40

Run-complete_held :
    (v : Rounds) (a : Arena) (m : MatchRow) (c : Claim) (r : JudgeSuccess) (x : Verdict)
    (winner : Option ℕ)
    → Run (acting (worker c.row.id c.claim)) v (complete_held a m c r x winner)
unfolding complete_held
Run-complete_held v a m c r x winner = search (frames, Run-judged_row, Keeps-finish_judged) depth 20

pub Run-persist_success :
    (v : Rounds) (a : Arena) (c : Claim) (r : JudgeSuccess)
    → Run (acting (worker c.row.id c.claim)) v (persist_success a c r)
unfolding persist_success persist_success_tx
Run-persist_success v a c r = search (frames, Run-complete_held) depth 20

Keeps-end_failed : (a : Arena) (m : MatchRow) → Keeps rounds_watch (end_failed a m)
unfolding end_failed
Keeps-end_failed a m = search frames depth 30

Keeps-announce_failure :
    (a : Arena) (m : MatchRow) (f : JudgeFailure) (at : Option ℕ)
    → Keeps rounds_watch (announce_failure a m f at)
unfolding announce_failure
Keeps-announce_failure a m f at = search (frames, Keeps-end_failed) depth 20

Run-fail_held :
    (v : Rounds) (a : Arena) (m : MatchRow) (c : Claim) (f : JudgeFailure)
    → Run (acting (worker c.row.id c.claim)) v (fail_held a m c f)
unfolding fail_held
Run-fail_held v a m c f = search (frames, Run-failed_row, Keeps-announce_failure) depth 20

pub Run-persist_failure :
    (v : Rounds) (a : Arena) (c : Claim) (error : Option JudgeFailure)
    → Run (acting (worker c.row.id c.claim)) v (persist_failure a c error)
unfolding persist_failure persist_failure_tx
Run-persist_failure v a c error = search (frames, Run-fail_held) depth 20

pub Keeps-within_limits : (vs : List Violation) → Keeps rounds_watch (within_limits vs)
unfolding within_limits
Keeps-within_limits [] = search still
Keeps-within_limits (v ∷ vs) = search still

none_of : (o : Option AnswerRow) → is_none o ≡ true → o ≡ none
none_of none h = refl
none_of (some w) h = ground arith

-- A second answer of a player is refused.
Run-lock_answer :
    (v : Rounds) (id user : ℕ) (measured : Measurement)
    → Run (acting clerk) v (lock_answer id user measured)
unfolding lock_answer
Run-lock_answer v id user measured =
    Run-bind_gets _ v (λ r. find (is_answer_of id user) r.0) _
      (Run-bind_guard _ v _ _ _ λ fresh.
        Run-bind_keep _ v _ _ (Keeps-acting _ _ Keeps-clock)
          λ now. Run-insert_answer v _ (none_of _ fresh))

Run-submit_fresh :
    (v : Rounds) (a : Arena) (m : MatchRow) (p : ParticipantRow) (key : List ℕ)
    (measured : Measurement)
    → Run (acting clerk) v (submit_fresh a m p key measured)
unfolding submit_fresh
Run-submit_fresh v a m p key measured =
    search (frames, Run-lock_answer, Run-prepare_evaluation) depth 30

Run-submit_answer_tx :
    (v : Rounds) (a : Arena) (user id : ℕ) (key : List ℕ) (measured : Measurement)
    → Run (acting clerk) v (submit_answer_tx a user id key measured)
unfolding submit_answer_tx
Run-submit_answer_tx v a user id key measured = search (frames, Run-submit_fresh) depth 20

pub Run-place_answer :
    (v : Rounds) (a : Arena) (actor : Option ℕ) (id : ℕ) (key answer : List ℕ)
    → Run (acting clerk) v (place_answer a actor id key answer)
unfolding place_answer
Run-place_answer v a actor id key answer =
    search (frames, Keeps-within_limits, Run-submit_answer_tx) depth 20

Run-time_out_players :
    (v : Rounds) (id until : ℕ) (ps : List ParticipantRow)
    → Run (acting clerk) v (time_out_players id until ps)
unfolding time_out_players
Run-time_out_players v id until [] = search frames
Run-time_out_players v id until (p ∷ ps) = Run-bind _ v _ _ (Run-add_answer v id until p) λ w _.
    Run-bind _ w _ _ (Run-still _ w _ (Keeps-append_event id _))
      λ u _. Run-time_out_players u id until ps

Run-process_deadline :
    (v : Rounds) (a : Arena) (m : MatchRow) (o : Option ℕ)
    → Run (acting clerk) v (process_deadline a m o)
unfolding process_deadline
Run-process_deadline v a m none = search frames
Run-process_deadline v a m (some until) =
    search (frames, Run-time_out_players, Run-prepare_evaluation) depth 30

pub Run-process_deadline_tx :
    (v : Rounds) (a : Arena) (id : ℕ) → Run (acting clerk) v (process_deadline_tx a id)
unfolding process_deadline_tx
Run-process_deadline_tx v a id = search (frames, Run-process_deadline) depth 20

Keeps-retry_fresh :
    (m : MatchRow) (user : ℕ) (key : List ℕ) → Keeps rounds_watch (retry_fresh m user key)
unfolding retry_fresh
Keeps-retry_fresh m user key = search frames depth 30

pub Run-allow_retry :
    (v : Rounds) (a : Arena) (actor : Option ℕ) (id : ℕ) (key : List ℕ)
    → Run (acting other) v (allow_retry a actor id key)
unfolding allow_retry retry_evaluation_tx
Run-allow_retry v a actor id key = search (frames, Keeps-retry_fresh) depth 30
