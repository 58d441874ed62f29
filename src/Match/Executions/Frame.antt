-- ===== src/Match/Executions/Frame.antt =====
-- The actions that do not touch the table of the executions.
use leetbattle.Shared.{ℕ, Bool, true, false, ◌≡◌, refl, Option, some, none, List, [], ◌∷◌, ◌∙◌}
use leetbattle.Domain.Types.{EndReason, mode_eq}
use leetbattle.Store.Rows.{
  Db, MatchRow, ParticipantRow, RecordRow, ExecutionRow, EventRow, ReceiptRow, Event, Response,
}
use leetbattle.Store.Tx.{
  advance, clock_timestamp, on_matches, on_participants, on_records, on_events, on_receipts,
}
use leetbattle.Store.Watch.{
  Watch, Keeps, Keeps-lift, Keeps-gets, Keeps-guard, Keeps-pure, Keeps-raise, Keeps-expect,
  Keeps-if, Keeps-bind,
}
use leetbattle.Match.Config.{Engine}
use leetbattle.Match.Events.{append_event}
use leetbattle.Match.Receipts.{complete_command}
use leetbattle.Match.Locks.{lock_match, lock_participant}
use leetbattle.Match.Finish.{
  count_result, settle_players, announce_rematch, open_rematch, finalize_open, finalize_match,
}
use leetbattle.Match.Disconnects.{
  forfeit_to, decide_disconnects, check_disconnects, evaluate_active, evaluate_disconnects,
}

abbrev pub executions_watch : Watch
executions_watch = record {
  View = List ExecutionRow;
  view = λ db. db.executions;
  Rel = λ v w. v ≡ w;
  rel_refl = λ v. refl;
  rel_trans = λ u v w h k. h ∙ k;
  rel_rollback = λ before after h. refl;
}

advance_executions : (db : Db) (ds : List ℕ) → (advance db ds).executions ≡ db.executions
advance_executions db [] = refl
advance_executions db (d ∷ ds) = refl

pub Keeps-clock : Keeps executions_watch clock_timestamp
unfolding clock_timestamp
Keeps-clock = record { at = λ db. advance_executions db db.delays }

pub Keeps-matches : (f : List MatchRow → List MatchRow) → Keeps executions_watch (on_matches f)
unfolding on_matches
Keeps-matches f = record { at = λ db. refl }

pub Keeps-participants :
    (f : List ParticipantRow → List ParticipantRow) → Keeps executions_watch (on_participants f)
unfolding on_participants
Keeps-participants f = record { at = λ db. refl }

pub Keeps-records : (f : List RecordRow → List RecordRow) → Keeps executions_watch (on_records f)
unfolding on_records
Keeps-records f = record { at = λ db. refl }

pub Keeps-events : (f : List EventRow → List EventRow) → Keeps executions_watch (on_events f)
unfolding on_events
Keeps-events f = record { at = λ db. refl }

pub Keeps-receipts :
    (f : List ReceiptRow → List ReceiptRow) → Keeps executions_watch (on_receipts f)
unfolding on_receipts
Keeps-receipts f = record { at = λ db. refl }

pub ruleset still = (
  Keeps-lift, Keeps-gets, Keeps-guard, Keeps-pure, Keeps-raise, Keeps-expect, Keeps-if, Keeps-bind,
  Keeps-clock, Keeps-matches, Keeps-participants, Keeps-records, Keeps-events, Keeps-receipts,
)

pub Keeps-append_event : (i : ℕ) (event : Event) → Keeps executions_watch (append_event i event)
unfolding append_event
Keeps-append_event i event = search still depth 20

pub Keeps-complete_command :
    (user : ℕ) (key : List ℕ) (r : Response) → Keeps executions_watch (complete_command user key r)
unfolding complete_command
Keeps-complete_command user key r = search still

pub Keeps-lock_match : (i : ℕ) → Keeps executions_watch (lock_match i)
unfolding lock_match
Keeps-lock_match i = search still

pub Keeps-lock_participant : (i user : ℕ) → Keeps executions_watch (lock_participant i user)
unfolding lock_participant
Keeps-lock_participant i user = search still

pub ruleset executions_frame =
    (still, Keeps-append_event, Keeps-complete_command, Keeps-lock_match, Keeps-lock_participant)

Keeps-count_result :
    (t : Bool) (w : Option ℕ) (p : ParticipantRow) → Keeps executions_watch (count_result t w p)
unfolding count_result
Keeps-count_result true w p = search still
Keeps-count_result false w p = search still

Keeps-settle_players :
    (id : ℕ) (r : EndReason) (w : Option ℕ) (t : Bool) (ps : List ParticipantRow)
    → Keeps executions_watch (settle_players id r w t ps)
unfolding settle_players
Keeps-settle_players id r w t [] = search still
Keeps-settle_players id r w t (p ∷ ps) =
    Keeps-bind _ _ _ (Keeps-participants _)
      λ _. Keeps-bind _ _ _ (Keeps-count_result t w p) λ _. Keeps-settle_players id r w t ps

Keeps-announce :
    (i deadline : ℕ) (b : Bool) → Keeps executions_watch (announce_rematch i deadline b)
unfolding announce_rematch
Keeps-announce i deadline false = search still
Keeps-announce i deadline true = search executions_frame

Keeps-open_rematch : (e : Engine) (i : ℕ) → Keeps executions_watch (open_rematch e i)
unfolding open_rematch
Keeps-open_rematch e i = search (still, Keeps-announce) depth 20

Keeps-finalize_open :
    (e : Engine) (m : MatchRow) (r : EndReason) (w : Option ℕ)
    → Keeps executions_watch (finalize_open e m r w)
unfolding finalize_open
Keeps-finalize_open e m r w =
    search (executions_frame, Keeps-settle_players, Keeps-open_rematch) depth 20

pub Keeps-finalize_match :
    (e : Engine) (i : ℕ) (r : EndReason) (w : Option ℕ)
    → Keeps executions_watch (finalize_match e i r w)
unfolding finalize_match
Keeps-finalize_match e i r w = search (executions_frame, Keeps-finalize_open) depth 10

Keeps-forfeit_to :
    (e : Engine) (i : ℕ) (o : Option ParticipantRow) → Keeps executions_watch (forfeit_to e i o)
unfolding forfeit_to
Keeps-forfeit_to e i none = search still
Keeps-forfeit_to e i (some p) = search Keeps-finalize_match

Keeps-decide :
    (e : Engine) (i : ℕ) (ps gone late : List ParticipantRow)
    → Keeps executions_watch (decide_disconnects e i ps gone late)
unfolding decide_disconnects
Keeps-decide e i ps gone late = search (still, Keeps-finalize_match, Keeps-forfeit_to)

Keeps-check :
    (e : Engine) (i : ℕ) (ps gone late : List ParticipantRow)
    → Keeps executions_watch (check_disconnects e i ps gone late)
unfolding check_disconnects
Keeps-check e i ps gone late = search (still, Keeps-decide) depth 10

Keeps-evaluate_active : (e : Engine) (m : MatchRow) → Keeps executions_watch (evaluate_active e m)
unfolding evaluate_active
Keeps-evaluate_active e m = search (still, Keeps-check) depth 10

pub Keeps-evaluate_disconnects :
    (e : Engine) (i : ℕ) → Keeps executions_watch (evaluate_disconnects e i)
unfolding evaluate_disconnects
Keeps-evaluate_disconnects e i = search (executions_frame, Keeps-evaluate_active) depth 10
