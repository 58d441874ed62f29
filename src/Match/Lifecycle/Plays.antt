-- ===== src/Match/Lifecycle/Plays.antt =====
-- Executions, rematches and sessions: each transaction takes every match forward.
use leetbattle.Shared.{ℕ, List, Option, some, none, Bool}
use leetbattle.Domain.Types.{Language, ExecutionKind, run, submit, state_eq}
use leetbattle.Store.Rows.{MatchRow, ParticipantRow, ExecutionRow, Response}
use leetbattle.Store.Watch.{Keeps, Run}
use leetbattle.Match.Config.{Engine}
use leetbattle.Match.Receipts.{Reservation}
use leetbattle.Match.Results.{RunnerResult}
use leetbattle.Match.Executions.{
  Ingress, existing_execution, announce_active, advance_due, check_limit, insert_execution,
  admit_execution, start_reserved, start_execution_tx, show_progress, progress, mark_found,
  mark_identified, mark_execution_running_tx,
}
use leetbattle.Match.Completion.{
  finalize_candidate, maybe_finalize_accepted, settle_disconnects, settle_submission, apply_result,
  complete_open, already_completed, complete_execution_tx,
}
use leetbattle.Match.Rematch.{
  cast_vote, insert_rematch, create_next, create_rematch, vote, vote_open, vote_reserved,
  request_rematch_tx,
}
use leetbattle.Match.Presence.{connect_tx, mark_away, reconcile_tx}
use leetbattle.Match.Lifecycle.Endings.{Run-finalize_match, Run-evaluate_disconnects}
use leetbattle.Match.Lifecycle.Rows.{matches_watch}
use leetbattle.Match.Lifecycle.Frame.{frame}
use leetbattle.Match.Lifecycle.Steps.{quiet, steps}

Keeps-existing_execution :
    (user id : ℕ) (r : Option Response) → Keeps matches_watch (existing_execution user id r)
unfolding existing_execution
Keeps-existing_execution user id r = search quiet depth 20

Run-announce_active :
    (v : List MatchRow) (m : MatchRow) (o : Option MatchRow)
    → Run matches_watch v (announce_active m o)
unfolding announce_active
Run-announce_active v m none = search steps
Run-announce_active v m (some r) = search steps depth 10

Run-advance_due : (v : List MatchRow) (m : MatchRow) → Run matches_watch v (advance_due m)
unfolding advance_due
Run-advance_due v m = search (steps, Run-announce_active) depth 12

Keeps-check_limit : (kind : ExecutionKind) (o : Option ℕ) → Keeps matches_watch (check_limit kind o)
unfolding check_limit
Keeps-check_limit kind none = search frame
Keeps-check_limit run (some at) = search frame
Keeps-check_limit submit (some at) = search frame

Run-insert_execution :
    (v : List MatchRow) (i : Ingress) (m : MatchRow) (p : ParticipantRow) (l : Language)
    → Run matches_watch v (insert_execution i m p l)
unfolding insert_execution
Run-insert_execution v i m p l = search steps depth 30

Run-admit_execution :
    (v : List MatchRow) (e : Engine) (i : Ingress) (m : MatchRow) (p : ParticipantRow)
    → Run matches_watch v (admit_execution e i m p)
unfolding admit_execution
Run-admit_execution v e i m p = search (steps, Keeps-check_limit, Run-insert_execution) depth 30

Run-start_reserved :
    (v : List MatchRow) (e : Engine) (i : Ingress) (m : MatchRow) (p : ParticipantRow)
    → Run matches_watch v (start_reserved e i m p)
unfolding start_reserved
Run-start_reserved v e i m p = search (steps, Run-advance_due, Run-admit_execution) depth 12

pub Run-start_execution_tx :
    (v : List MatchRow) (e : Engine) (user id : ℕ) (key : List ℕ) (kind : ExecutionKind)
    (hash bytes : ℕ)
    → Run matches_watch v (start_execution_tx e user id key kind hash bytes)
unfolding start_execution_tx
Run-start_execution_tx v e user id key kind hash bytes =
    search (steps, Keeps-existing_execution, Run-start_reserved) depth 30

Run-show_progress :
    (v : List MatchRow) (x : ExecutionRow) (o : Option ParticipantRow)
    → Run matches_watch v (show_progress x o)
unfolding show_progress
Run-show_progress v x none = search steps
Run-show_progress v x (some p) = search steps depth 10

Run-progress : (v : List MatchRow) (x : ExecutionRow) → Run matches_watch v (progress x)
unfolding progress
Run-progress v x = search (steps, Run-show_progress) depth 12

Run-mark_found :
    (v : List MatchRow) (m : MatchRow) (o : Option ExecutionRow)
    → Run matches_watch v (mark_found m o)
unfolding mark_found
Run-mark_found v m none = search steps
Run-mark_found v m (some x) = search (steps, Run-progress) depth 10

Run-mark_identified :
    (v : List MatchRow) (id attempt : ℕ) (o : Option ExecutionRow)
    → Run matches_watch v (mark_identified id attempt o)
unfolding mark_identified
Run-mark_identified v id attempt none = search steps
Run-mark_identified v id attempt (some x) = search (steps, Run-mark_found) depth 12

pub Run-mark_execution_running_tx :
    (v : List MatchRow) (id attempt : ℕ)
    → Run matches_watch v (mark_execution_running_tx id attempt)
unfolding mark_execution_running_tx
Run-mark_execution_running_tx v id attempt = search (steps, Run-mark_identified) depth 10

Run-finalize_candidate :
    (v : List MatchRow) (e : Engine) (id : ℕ) (o : Option ExecutionRow)
    → Run matches_watch v (finalize_candidate e id o)
unfolding finalize_candidate
Run-finalize_candidate v e id none = search steps
Run-finalize_candidate v e id (some x) = search (steps, Run-finalize_match) depth 10

Run-maybe_finalize_accepted :
    (v : List MatchRow) (e : Engine) (id : ℕ) → Run matches_watch v (maybe_finalize_accepted e id)
unfolding maybe_finalize_accepted
Run-maybe_finalize_accepted v e id = search (steps, Run-finalize_candidate) depth 10

Run-settle_disconnects :
    (v : List MatchRow) (e : Engine) (m : MatchRow) → Run matches_watch v (settle_disconnects e m)
unfolding settle_disconnects
Run-settle_disconnects v e m = search (steps, Run-evaluate_disconnects) depth 10

Run-settle_submission :
    (v : List MatchRow) (e : Engine) (x : ExecutionRow) (m : MatchRow)
    → Run matches_watch v (settle_submission e x m)
unfolding settle_submission
Run-settle_submission v e x m =
    search (steps, Run-maybe_finalize_accepted, Run-settle_disconnects) depth 10

Run-apply_result :
    (v : List MatchRow) (e : Engine) (m : MatchRow) (x : ExecutionRow) (r : RunnerResult) (b : Bool)
    (c : Option ℕ) (o : Option ParticipantRow)
    → Run matches_watch v (apply_result e m x r b c o)
unfolding apply_result
Run-apply_result v e m x r b c none = search steps
Run-apply_result v e m x r b c (some p) = search (steps, Run-settle_submission) depth 10

Run-complete_open :
    (v : List MatchRow) (e : Engine) (m : MatchRow) (x : ExecutionRow) (r : RunnerResult)
    → Run matches_watch v (complete_open e m x r)
unfolding complete_open
Run-complete_open v e m x r = search (steps, Run-apply_result) depth 20

Keeps-already_completed :
    (m : MatchRow) (x : ExecutionRow) → Keeps matches_watch (already_completed m x)
unfolding already_completed
Keeps-already_completed m x = search frame

pub Run-complete_execution_tx :
    (v : List MatchRow) (e : Engine) (id : ℕ) (r : RunnerResult)
    → Run matches_watch v (complete_execution_tx e id r)
unfolding complete_execution_tx
Run-complete_execution_tx v e id r =
    search (steps, Run-complete_open, Keeps-already_completed) depth 12

Run-cast_vote :
    (v : List MatchRow) (m : MatchRow) (p : ParticipantRow) (key : List ℕ)
    → Run matches_watch v (cast_vote m p key)
unfolding cast_vote
Run-cast_vote v m p key = search steps depth 12

Run-insert_rematch : (v : List MatchRow) (m : MatchRow) → Run matches_watch v (insert_rematch m)
unfolding insert_rematch
Run-insert_rematch v m = search steps depth 30

Run-create_next :
    (v : List MatchRow) (m : MatchRow) (o : Option MatchRow) → Run matches_watch v (create_next m o)
unfolding create_next
Run-create_next v m none = search Run-insert_rematch
Run-create_next v m (some r) = search steps

Run-create_rematch : (v : List MatchRow) (m : MatchRow) → Run matches_watch v (create_rematch m)
unfolding create_rematch
Run-create_rematch v m = search (steps, Run-create_next)

Run-vote :
    (v : List MatchRow) (m : MatchRow) (p : ParticipantRow) (key : List ℕ)
    → Run matches_watch v (vote m p key)
unfolding vote
Run-vote v m p key = search (steps, Run-cast_vote, Run-create_rematch) depth 20

Run-vote_open :
    (v : List MatchRow) (m : MatchRow) (p : ParticipantRow) (key : List ℕ) (o : Option ℕ)
    → Run matches_watch v (vote_open m p key o)
unfolding vote_open
Run-vote_open v m p key none = search Run-vote
Run-vote_open v m p key (some id) = search steps depth 10

Run-vote_reserved :
    (v : List MatchRow) (m : MatchRow) (p : ParticipantRow) (key : List ℕ) (r : Reservation)
    → Run matches_watch v (vote_reserved m p key r)
unfolding vote_reserved
Run-vote_reserved v m p key r = search (steps, Run-vote_open) depth 10

pub Run-request_rematch_tx :
    (v : List MatchRow) (e : Engine) (user id : ℕ) (key : List ℕ)
    → Run matches_watch v (request_rematch_tx e user id key)
unfolding request_rematch_tx
Run-request_rematch_tx v e user id key = search (steps, Run-vote_reserved) depth 20

pub Run-connect_tx :
    (v : List MatchRow) (e : Engine) (user room id session : ℕ)
    → Run matches_watch v (connect_tx e user room id session)
unfolding connect_tx
Run-connect_tx v e user room id session = search (steps, Run-evaluate_disconnects) depth 20

Run-mark_away :
    (v : List MatchRow) (e : Engine) (m : MatchRow) (p : ParticipantRow) (o : Option ℕ)
    → Run matches_watch v (mark_away e m p o)
unfolding mark_away
Run-mark_away v e m p none = search steps
Run-mark_away v e m p (some at) = search steps depth 10

pub Run-reconcile_tx :
    (v : List MatchRow) (e : Engine) (id user : ℕ) → Run matches_watch v (reconcile_tx e id user)
unfolding reconcile_tx
Run-reconcile_tx v e id user = search (steps, Run-mark_away) depth 20
