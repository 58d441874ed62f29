-- ===== src/Arena/Rounds/Preparation.antt =====
-- The statements at the head of the arena transactions, and the preparation of an evaluation.
use leetbattle.Shared.{ℕ, Bool, true, false, Option, some, none, List, [], ◌∷◌}
use leetbattle.Domain.Types.{EndReason, ProblemRef}
use leetbattle.Store.Rows.{MatchRow, ParticipantRow, ReceiptRow}
use leetbattle.Store.Evaluations.{EvaluationSnapshot, EvaluationRow}
use leetbattle.Store.Watch.{
  Keeps, Keeps-bind, Run, Run-bind, Run-bind_keep, Run-bind_gets, Run-bind_guard, Run-if, Run-begin,
}
use leetbattle.Match.Receipts.{Command}
use leetbattle.Arena.Config.{Arena}
use leetbattle.Arena.Commands.{lock_arena_match, reserve_found, reserve}
use leetbattle.Arena.Endings.{announce_open, open_arena_rematch, release_players, finalize_skipped}
use leetbattle.Arena.Preparation.{
  Answer, start_judging, insert_evaluation, evaluate_answers, prepare_active, prepare_evaluation,
}
use leetbattle.Arena.Rounds.Rows.{Rounds, rounds_watch, acting, clerk, Run-still}
use leetbattle.Arena.Rounds.Frame.{still, Keeps-participants, Keeps-clock, Keeps-new_id}
use leetbattle.Arena.Rounds.Engine.Heads.{
  Keeps-append_event, Keeps-require_actor, Keeps-lock_participant, Keeps-complete_command,
  Keeps-assert_idempotency_key,
}
use leetbattle.Arena.Rounds.Writes.{Run-skip_row, Run-insert_row}

pub Keeps-lock_arena_match : (id : ℕ) → Keeps rounds_watch (lock_arena_match id)
unfolding lock_arena_match
Keeps-lock_arena_match id = search still

Keeps-reserve_found :
    (a : Arena) (c : Command) (o : Option ReceiptRow) → Keeps rounds_watch (reserve_found a c o)
unfolding reserve_found
Keeps-reserve_found a c none = search still
Keeps-reserve_found a c (some r) = search still

pub Keeps-reserve : (a : Arena) (c : Command) → Keeps rounds_watch (reserve a c)
unfolding reserve
Keeps-reserve a c = search (still, Keeps-assert_idempotency_key, Keeps-reserve_found) depth 10

Keeps-announce_open : (id until : ℕ) (b : Bool) → Keeps rounds_watch (announce_open id until b)
unfolding announce_open
Keeps-announce_open id until false = search still
Keeps-announce_open id until true = search (still, Keeps-append_event) depth 10

pub Keeps-open_arena_rematch : (a : Arena) (id : ℕ) → Keeps rounds_watch (open_arena_rematch a id)
unfolding open_arena_rematch
Keeps-open_arena_rematch a id = search (still, Keeps-announce_open) depth 20

pub Keeps-release_players :
    (id : ℕ) (ps : List ParticipantRow) → Keeps rounds_watch (release_players id ps)
unfolding release_players
Keeps-release_players id [] = search still
Keeps-release_players id (p ∷ ps) =
    Keeps-bind _ _ _ (Keeps-participants _) λ _. Keeps-release_players id ps

pub ruleset frames = (
  still, Keeps-append_event, Keeps-require_actor, Keeps-lock_participant, Keeps-complete_command,
  Keeps-assert_idempotency_key, Keeps-lock_arena_match, Keeps-reserve, Keeps-open_arena_rematch,
  Keeps-release_players, Run-still, Run-bind, Run-if, Run-begin,
)

Run-finalize_skipped :
    (v : Rounds) (a : Arena) (m : MatchRow) (id : ℕ) (ps : List ParticipantRow) (reason : EndReason)
    → Run (acting clerk) v (finalize_skipped a m id ps reason)
unfolding finalize_skipped
Run-finalize_skipped v a m id ps reason = search (frames, Run-skip_row) depth 30

Run-start_judging :
    (v : Rounds) (a : Arena) (m : MatchRow) (id : ℕ) (ps : List ParticipantRow) (ws : List Answer)
    → Run (acting clerk) v (start_judging a m id ps ws)
unfolding start_judging
Run-start_judging v a m id ps ws = search (frames, Run-finalize_skipped) depth 20

Run-insert_evaluation :
    (v : Rounds) (a : Arena) (m : MatchRow) (ps : List ParticipantRow) (ws : List Answer)
    (s : EvaluationSnapshot) (first : Answer) (second : Option Answer) (o : Option EvaluationRow)
    → Run (acting clerk) v (insert_evaluation a m ps ws s first second o)
unfolding insert_evaluation
Run-insert_evaluation v a m ps ws s first second none =
    search (frames, Run-insert_row, Run-start_judging) depth 20
Run-insert_evaluation v a m ps ws s first second (some old) = search frames

Run-evaluate_answers :
    (v : Rounds) (a : Arena) (m : MatchRow) (p : ProblemRef) (ps : List ParticipantRow)
    (ws : List Answer)
    → Run (acting clerk) v (evaluate_answers a m p ps ws)
unfolding evaluate_answers
Run-evaluate_answers v a m p ps ws = search (frames, Run-insert_evaluation) depth 30

Run-prepare_active :
    (v : Rounds) (a : Arena) (m : MatchRow) → Run (acting clerk) v (prepare_active a m)
unfolding prepare_active
Run-prepare_active v a m = search (frames, Run-evaluate_answers) depth 30

pub Run-prepare_evaluation :
    (v : Rounds) (a : Arena) (m : MatchRow) → Run (acting clerk) v (prepare_evaluation a m)
unfolding prepare_evaluation
Run-prepare_evaluation v a m = search (frames, Run-prepare_active) depth 10
