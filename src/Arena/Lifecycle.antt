-- ===== src/Arena/Lifecycle.antt =====
-- Each transaction of the arena service takes every match forward.
pub mod Steps
use leetbattle.Shared.{
  ℕ, List, [], ◌∷◌, Option, some, none, Bool, true, false, ◌≡◌, refl, find, update_first, arith,
  is_some, if◌then◌else◌,
}
use leetbattle.Domain.Types.{EndReason, MatchMode, active, judging, finished}
use leetbattle.Domain.StateMachine.{can_transition}
use leetbattle.Domain.StateMachine.Laws.{stay, go}
use leetbattle.Store.Rows.{MatchRow, ParticipantRow, ReceiptRow}
use leetbattle.Store.Evaluations.{EvaluationSnapshot, EvaluationRow}
use leetbattle.Store.Tx.{on_matches}
use leetbattle.Store.Watch.{
  Keeps, Keeps-bind, Run, Run-keep, Run-bind, Run-bind_keep, Run-if, Run-begin,
}
use leetbattle.Match.Receipts.{Command, assert_idempotency_key}
use leetbattle.Match.Finish.{close}
use leetbattle.Match.Lifecycle.Rows.{matches_watch, RowStep, Evolves-update}
use leetbattle.Match.Lifecycle.Frame.{frame, Keeps-participants, Keeps-answers}
use leetbattle.Match.Lifecycle.Writes.{Run-on_matches}
use leetbattle.Match.Lifecycle.Steps.{steps, Run-append_event}
use leetbattle.Arena.Config.{Arena}
use leetbattle.Arena.Commands.{lock_arena_match, reserve_found, reserve}
use leetbattle.Arena.Answer.{Measurement, Violation}
use leetbattle.Arena.Endings.{
  announce_open, open_arena_rematch, is_judging, release_players, finalize_skipped,
}
use leetbattle.Arena.Preparation.{
  Answer, is_active_match, to_judging, start_judging, insert_evaluation, evaluate_answers,
  prepare_active, prepare_evaluation,
}
use leetbattle.Domain.Types.{ProblemRef}

RowStep-to_judging : (m : MatchRow) → m.state ≡ active → RowStep m (to_judging m)
unfolding can_transition
RowStep-to_judging m h = record {
  leads = rw h (go {s = active} {t = judging} refl stay);
  facts = ground arith;
}

RowStep-close-judging :
    (winner : Option ℕ) (reason : EndReason) (applies : Bool) (now : ℕ) (m : MatchRow)
    → m.state ≡ judging
    → RowStep m (close winner reason applies now m)
unfolding can_transition
RowStep-close-judging winner reason applies now m h = record {
  leads = rw h (go {s = judging} {t = finished} refl stay);
  facts = ground arith;
}

Run-to_judging :
    (v : List MatchRow) (id : ℕ)
    → Run matches_watch v (on_matches (update_first (is_active_match id) to_judging))
Run-to_judging v id = Run-on_matches v _ (
    Evolves-update (is_active_match id) to_judging v
      (λ m _ hit. RowStep-to_judging m (ground arith)))

pub Run-close_judging :
    (v : List MatchRow) (id : ℕ) (winner : Option ℕ) (reason : EndReason) (applies : Bool) (now : ℕ)
    → Run matches_watch v
        (on_matches (update_first (is_judging id) (close winner reason applies now)))
Run-close_judging v id winner reason applies now = Run-on_matches v _ (
    Evolves-update (is_judging id) (close winner reason applies now) v
      (λ m _ hit. RowStep-close-judging winner reason applies now m (ground arith)))

pub Keeps-lock_arena_match : (id : ℕ) → Keeps matches_watch (lock_arena_match id)
unfolding lock_arena_match
Keeps-lock_arena_match id = search frame

pub Keeps-assert_key : (key : List ℕ) → Keeps matches_watch (assert_idempotency_key key)
unfolding assert_idempotency_key
Keeps-assert_key key = search frame

Keeps-reserve_found :
    (a : Arena) (c : Command) (o : Option ReceiptRow) → Keeps matches_watch (reserve_found a c o)
unfolding reserve_found
Keeps-reserve_found a c none = search frame
Keeps-reserve_found a c (some r) = search frame

pub Keeps-reserve : (a : Arena) (c : Command) → Keeps matches_watch (reserve a c)
unfolding reserve
Keeps-reserve a c = search (frame, Keeps-assert_key, Keeps-reserve_found) depth 10

Run-announce_open :
    (v : List MatchRow) (id until : ℕ) (b : Bool) → Run matches_watch v (announce_open id until b)
unfolding announce_open
Run-announce_open v id until false = search steps
Run-announce_open v id until true = search steps depth 10

pub Run-open_arena_rematch :
    (v : List MatchRow) (a : Arena) (id : ℕ) → Run matches_watch v (open_arena_rematch a id)
unfolding open_arena_rematch
Run-open_arena_rematch v a id = search (steps, Run-announce_open) depth 20

Keeps-release_players :
    (id : ℕ) (ps : List ParticipantRow) → Keeps matches_watch (release_players id ps)
unfolding release_players
Keeps-release_players id [] = search frame
Keeps-release_players id (p ∷ ps) =
    Keeps-bind _ _ _ (Keeps-participants _) λ _. Keeps-release_players id ps

Run-finalize_skipped :
    (v : List MatchRow) (a : Arena) (m : MatchRow) (id : ℕ) (ps : List ParticipantRow)
    (reason : EndReason)
    → Run matches_watch v (finalize_skipped a m id ps reason)
unfolding finalize_skipped
Run-finalize_skipped v a m id ps reason =
    search (steps, Run-close_judging, Keeps-release_players, Run-open_arena_rematch) depth 30

Run-start_judging :
    (v : List MatchRow) (a : Arena) (m : MatchRow) (id : ℕ) (ps : List ParticipantRow)
    (ws : List Answer)
    → Run matches_watch v (start_judging a m id ps ws)
unfolding start_judging
Run-start_judging v a m id ps ws = search (steps, Run-to_judging, Run-finalize_skipped) depth 20

Run-insert_evaluation :
    (v : List MatchRow) (a : Arena) (m : MatchRow) (ps : List ParticipantRow) (ws : List Answer)
    (s : EvaluationSnapshot) (first : Answer) (second : Option Answer) (o : Option EvaluationRow)
    → Run matches_watch v (insert_evaluation a m ps ws s first second o)
unfolding insert_evaluation
Run-insert_evaluation v a m ps ws s first second none = search (steps, Run-start_judging) depth 20
Run-insert_evaluation v a m ps ws s first second (some old) = search steps

Run-evaluate_answers :
    (v : List MatchRow) (a : Arena) (m : MatchRow) (p : ProblemRef) (ps : List ParticipantRow)
    (ws : List Answer)
    → Run matches_watch v (evaluate_answers a m p ps ws)
unfolding evaluate_answers
Run-evaluate_answers v a m p ps ws = search (steps, Run-insert_evaluation) depth 30

Run-prepare_active :
    (v : List MatchRow) (a : Arena) (m : MatchRow) → Run matches_watch v (prepare_active a m)
unfolding prepare_active
Run-prepare_active v a m = search (steps, Run-evaluate_answers) depth 30

pub Run-prepare_evaluation :
    (v : List MatchRow) (a : Arena) (m : MatchRow) → Run matches_watch v (prepare_evaluation a m)
unfolding prepare_evaluation
Run-prepare_evaluation v a m = search (steps, Run-prepare_active) depth 10

pub ruleset arena_steps = (
  steps, Keeps-lock_arena_match, Keeps-assert_key, Keeps-reserve, Run-open_arena_rematch,
  Run-prepare_evaluation, Run-close_judging,
)
