-- ===== src/Arena/Rounds/Engine/Executions.antt =====
-- The match engine leaves the answers and the evaluations alone: executions and their results.
use leetbattle.Arena.Rounds.Engine.Endings.{Keeps-evaluate_disconnects, Keeps-finalize_match}
use leetbattle.Arena.Rounds.Engine.Heads.{
  Keeps-append_event, Keeps-assert_idempotency_key, Keeps-complete_command, Keeps-lock_match,
  Keeps-lock_participant, Keeps-require_actor, Keeps-reserve_command,
}
use leetbattle.Arena.Rounds.Frame.{still}
use leetbattle.Arena.Rounds.Rows.{rounds_watch}
use leetbattle.Domain.Types.{ExecutionKind, Language, run, submit}
use leetbattle.Match.Completion.{
  already_completed, apply_result, complete_all, complete_execution, complete_execution_tx,
  complete_open, finalize_candidate, get_execution_result, maybe_finalize_accepted, recover,
  recover_stale_executions, recover_stale_executions_for_match, settle_disconnects,
  settle_submission,
}
use leetbattle.Match.Config.{Engine}
use leetbattle.Match.Executions.{
  Ingress, admit_execution, advance_due, announce_active, check_limit, existing_execution,
  insert_execution, mark_execution_running, mark_execution_running_tx, mark_found, mark_identified,
  progress, show_progress, start_execution, start_execution_tx, start_reserved,
}
use leetbattle.Match.Results.{RawResult, RunnerResult}
use leetbattle.Shared.{Bool, List, Option, [], none, some, ℕ, ◌∷◌}
use leetbattle.Store.Rows.{ExecutionRow, MatchRow, ParticipantRow, Response}
use leetbattle.Store.Watch.{Keeps, Keeps-bind}

pub Keeps-existing_execution :
    (user : ℕ) (id : ℕ) (response : Option Response)
    → Keeps rounds_watch (existing_execution user id response)
unfolding existing_execution
Keeps-existing_execution user id response = search still depth 40

pub Keeps-announce_active :
    (m : MatchRow) (o : Option MatchRow) → Keeps rounds_watch (announce_active m o)
unfolding announce_active
Keeps-announce_active m none = search still depth 40
Keeps-announce_active m (some advanced) = search (still, Keeps-append_event) depth 40

pub Keeps-advance_due : (m : MatchRow) → Keeps rounds_watch (advance_due m)
unfolding advance_due
Keeps-advance_due m = search (still, Keeps-announce_active) depth 40

pub Keeps-check_limit : (k : ExecutionKind) (o : Option ℕ) → Keeps rounds_watch (check_limit k o)
unfolding check_limit
Keeps-check_limit kind none = search still depth 40
Keeps-check_limit run (some at) = search still depth 40
Keeps-check_limit submit (some at) = search still depth 40

pub Keeps-insert_execution :
    (i : Ingress) (m : MatchRow) (p : ParticipantRow) (language : Language)
    → Keeps rounds_watch (insert_execution i m p language)
unfolding insert_execution
Keeps-insert_execution i m p language =
    search (still, Keeps-complete_command, Keeps-append_event) depth 40

pub Keeps-admit_execution :
    (e : Engine) (i : Ingress) (m : MatchRow) (p : ParticipantRow)
    → Keeps rounds_watch (admit_execution e i m p)
unfolding admit_execution
Keeps-admit_execution e i m p = search (still, Keeps-check_limit, Keeps-insert_execution) depth 40

pub Keeps-start_reserved :
    (e : Engine) (i : Ingress) (m : MatchRow) (p : ParticipantRow)
    → Keeps rounds_watch (start_reserved e i m p)
unfolding start_reserved
Keeps-start_reserved e i m p = search (still, Keeps-advance_due, Keeps-admit_execution) depth 40

pub Keeps-start_execution_tx :
    (e : Engine) (user : ℕ) (id : ℕ) (key : List ℕ) (kind : ExecutionKind) (source_hash : ℕ)
    (source_bytes : ℕ)
    → Keeps rounds_watch (start_execution_tx e user id key kind source_hash source_bytes)
unfolding start_execution_tx
Keeps-start_execution_tx e user id key kind source_hash source_bytes =
    search
      (
        still, Keeps-lock_match, Keeps-lock_participant, Keeps-reserve_command,
        Keeps-existing_execution, Keeps-start_reserved,
      )
      depth 40

pub Keeps-start_execution :
    (e : Engine) (actor : Option ℕ) (id : ℕ) (key : List ℕ) (kind : ExecutionKind) (source : List ℕ)
    → Keeps rounds_watch (start_execution e actor id key kind source)
unfolding start_execution
Keeps-start_execution e actor id key kind source =
    search (still, Keeps-require_actor, Keeps-assert_idempotency_key, Keeps-start_execution_tx)
      depth 40

pub Keeps-show_progress :
    (x : ExecutionRow) (o : Option ParticipantRow) → Keeps rounds_watch (show_progress x o)
unfolding show_progress
Keeps-show_progress x none = search still depth 40
Keeps-show_progress x (some p) = search (still, Keeps-append_event) depth 40

pub Keeps-progress : (x : ExecutionRow) → Keeps rounds_watch (progress x)
unfolding progress
Keeps-progress x = search (still, Keeps-show_progress) depth 40

pub Keeps-mark_found :
    (m : MatchRow) (o : Option ExecutionRow) → Keeps rounds_watch (mark_found m o)
unfolding mark_found
Keeps-mark_found m none = search still depth 40
Keeps-mark_found m (some x) = search (still, Keeps-progress) depth 40

pub Keeps-mark_identified :
    (id : ℕ) (attempt : ℕ) (o : Option ExecutionRow)
    → Keeps rounds_watch (mark_identified id attempt o)
unfolding mark_identified
Keeps-mark_identified id attempt none = search still depth 40
Keeps-mark_identified id attempt (some identity) =
    search (still, Keeps-lock_match, Keeps-mark_found) depth 40

pub Keeps-mark_execution_running_tx :
    (id : ℕ) (attempt : ℕ) → Keeps rounds_watch (mark_execution_running_tx id attempt)
unfolding mark_execution_running_tx
Keeps-mark_execution_running_tx id attempt = search (still, Keeps-mark_identified) depth 40

pub Keeps-mark_execution_running :
    (id : ℕ) (attempt : ℕ) → Keeps rounds_watch (mark_execution_running id attempt)
unfolding mark_execution_running
Keeps-mark_execution_running id attempt = search (still, Keeps-mark_execution_running_tx) depth 40

pub Keeps-finalize_candidate :
    (e : Engine) (id : ℕ) (o : Option ExecutionRow) → Keeps rounds_watch (finalize_candidate e id o)
unfolding finalize_candidate
Keeps-finalize_candidate e id none = search still depth 40
Keeps-finalize_candidate e id (some candidate) = search (still, Keeps-finalize_match) depth 40

pub Keeps-maybe_finalize_accepted :
    (e : Engine) (id : ℕ) → Keeps rounds_watch (maybe_finalize_accepted e id)
unfolding maybe_finalize_accepted
Keeps-maybe_finalize_accepted e id =
    search (still, Keeps-lock_match, Keeps-finalize_candidate) depth 40

pub Keeps-settle_disconnects :
    (e : Engine) (m : MatchRow) → Keeps rounds_watch (settle_disconnects e m)
unfolding settle_disconnects
Keeps-settle_disconnects e m = search (still, Keeps-lock_match, Keeps-evaluate_disconnects) depth 40

pub Keeps-settle_submission :
    (e : Engine) (x : ExecutionRow) (m : MatchRow) → Keeps rounds_watch (settle_submission e x m)
unfolding settle_submission
Keeps-settle_submission e x m =
    search (still, Keeps-lock_match, Keeps-maybe_finalize_accepted, Keeps-settle_disconnects) depth
      40

pub Keeps-apply_result :
    (e : Engine) (m : MatchRow) (x : ExecutionRow) (r : RunnerResult) (penalized : Bool)
    (cooldown_until : Option ℕ) (o : Option ParticipantRow)
    → Keeps rounds_watch (apply_result e m x r penalized cooldown_until o)
unfolding apply_result
Keeps-apply_result e m x r penalized cooldown_until none = search still depth 40
Keeps-apply_result e m x r penalized cooldown_until (some p) =
    search (still, Keeps-append_event, Keeps-settle_submission) depth 40

pub Keeps-complete_open :
    (e : Engine) (m : MatchRow) (x : ExecutionRow) (r : RunnerResult)
    → Keeps rounds_watch (complete_open e m x r)
unfolding complete_open
Keeps-complete_open e m x r = search (still, Keeps-lock_participant, Keeps-apply_result) depth 40

pub Keeps-already_completed :
    (m : MatchRow) (x : ExecutionRow) → Keeps rounds_watch (already_completed m x)
unfolding already_completed
Keeps-already_completed m x = search still depth 40

pub Keeps-complete_execution_tx :
    (e : Engine) (id : ℕ) (r : RunnerResult) → Keeps rounds_watch (complete_execution_tx e id r)
unfolding complete_execution_tx
Keeps-complete_execution_tx e id r =
    search (still, Keeps-lock_match, Keeps-complete_open, Keeps-already_completed) depth 40

pub Keeps-complete_execution :
    (e : Engine) (id : ℕ) (raw : RawResult) → Keeps rounds_watch (complete_execution e id raw)
unfolding complete_execution
Keeps-complete_execution e id raw = search (still, Keeps-complete_execution_tx) depth 40

pub Keeps-get_execution_result :
    (actor : Option ℕ) (id : ℕ) → Keeps rounds_watch (get_execution_result actor id)
unfolding get_execution_result
Keeps-get_execution_result actor id = search (still, Keeps-require_actor) depth 40

pub Keeps-complete_all : (x0 : Engine) (x1 : List ℕ) → Keeps rounds_watch (complete_all x0 x1)
unfolding complete_all
Keeps-complete_all e [] = search still depth 40
Keeps-complete_all e (id ∷ ids) =
    Keeps-bind _ _ _ (Keeps-complete_execution e id _) λ _. Keeps-complete_all e ids

pub Keeps-recover :
    (e : Engine) (stale_after : ℕ) (where_match : (ExecutionRow → Bool))
    → Keeps rounds_watch (recover e stale_after where_match)
unfolding recover
Keeps-recover e stale_after where_match = search (still, Keeps-complete_all) depth 40

pub Keeps-recover_stale_executions :
    (e : Engine) (stale_after : ℕ) → Keeps rounds_watch (recover_stale_executions e stale_after)
unfolding recover_stale_executions
Keeps-recover_stale_executions e stale_after = search (still, Keeps-recover) depth 40

pub Keeps-recover_stale_executions_for_match :
    (e : Engine) (id : ℕ) (stale_after : ℕ)
    → Keeps rounds_watch (recover_stale_executions_for_match e id stale_after)
unfolding recover_stale_executions_for_match
Keeps-recover_stale_executions_for_match e id stale_after = search (still, Keeps-recover) depth 40
