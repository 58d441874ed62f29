-- ===== src/Arena/Rounds/Engine/Endings.antt =====
-- The match engine leaves the answers and the evaluations alone: the ends of a match.
use leetbattle.Arena.Rounds.Engine.Heads.{
  Keeps-append_event, Keeps-complete_command, Keeps-get_snapshot_by_match, Keeps-lock_match,
  Keeps-lock_participant, Keeps-require_actor, Keeps-reserve_command,
}
use leetbattle.Arena.Rounds.Frame.{Keeps-begin, Keeps-participants, still}
use leetbattle.Arena.Rounds.Rows.{rounds_watch}
use leetbattle.Domain.Types.{EndReason}
use leetbattle.Match.Config.{Engine}
use leetbattle.Match.Disconnects.{
  check_disconnects, decide_disconnects, evaluate_active, evaluate_all, evaluate_disconnects,
  forfeit_to, process_due_disconnect_for_match, process_due_disconnects,
}
use leetbattle.Match.Ending.{
  cancel_lobby, cancel_match, cancel_match_tx, concede, forfeit_active, forfeit_match,
  forfeit_match_tx,
}
use leetbattle.Match.Finish.{
  announce_rematch, count_result, finalize_match, finalize_open, open_rematch, settle_players,
}
use leetbattle.Shared.{Bool, List, Option, [], false, none, some, true, ℕ, ◌∷◌}
use leetbattle.Store.Rows.{MatchRow, ParticipantRow}
use leetbattle.Store.Watch.{Keeps, Keeps-bind}

pub Keeps-count_result :
    (b : Bool) (winner : Option ℕ) (p : ParticipantRow)
    → Keeps rounds_watch (count_result b winner p)
unfolding count_result
Keeps-count_result true winner p = search still depth 40
Keeps-count_result false winner p = search still depth 40

pub Keeps-settle_players :
    (id : ℕ) (reason : EndReason) (winner : Option ℕ) (applies : Bool) (xs : List ParticipantRow)
    → Keeps rounds_watch (settle_players id reason winner applies xs)
unfolding settle_players
Keeps-settle_players id reason winner applies [] = search still depth 40
Keeps-settle_players id reason winner applies (p ∷ ps) =
    Keeps-bind _ _ _ (Keeps-participants _) λ _.
      Keeps-bind _ _ _ (Keeps-count_result applies winner p)
        λ _. Keeps-settle_players id reason winner applies ps

pub Keeps-announce_rematch :
    (id : ℕ) (deadline : ℕ) (b : Bool) → Keeps rounds_watch (announce_rematch id deadline b)
unfolding announce_rematch
Keeps-announce_rematch id deadline false = search still depth 40
Keeps-announce_rematch id deadline true = search (still, Keeps-append_event) depth 40

pub Keeps-open_rematch : (e : Engine) (id : ℕ) → Keeps rounds_watch (open_rematch e id)
unfolding open_rematch
Keeps-open_rematch e id = search (still, Keeps-announce_rematch) depth 40

pub Keeps-finalize_open :
    (e : Engine) (m : MatchRow) (reason : EndReason) (winner : Option ℕ)
    → Keeps rounds_watch (finalize_open e m reason winner)
unfolding finalize_open
Keeps-finalize_open e m reason winner =
    search (still, Keeps-append_event, Keeps-settle_players, Keeps-open_rematch) depth 40

pub Keeps-finalize_match :
    (e : Engine) (id : ℕ) (reason : EndReason) (winner : Option ℕ)
    → Keeps rounds_watch (finalize_match e id reason winner)
unfolding finalize_match
Keeps-finalize_match e id reason winner =
    search (still, Keeps-lock_match, Keeps-finalize_open) depth 40

pub Keeps-forfeit_to :
    (e : Engine) (id : ℕ) (o : Option ParticipantRow) → Keeps rounds_watch (forfeit_to e id o)
unfolding forfeit_to
Keeps-forfeit_to e id none = search still depth 40
Keeps-forfeit_to e id (some winner) = search (still, Keeps-finalize_match) depth 40

pub Keeps-decide_disconnects :
    (e : Engine) (id : ℕ) (ps : List ParticipantRow) (gone : List ParticipantRow)
    (late : List ParticipantRow)
    → Keeps rounds_watch (decide_disconnects e id ps gone late)
unfolding decide_disconnects
Keeps-decide_disconnects e id ps gone late =
    search (still, Keeps-finalize_match, Keeps-forfeit_to) depth 40

pub Keeps-check_disconnects :
    (e : Engine) (id : ℕ) (ps : List ParticipantRow) (gone : List ParticipantRow)
    (late : List ParticipantRow)
    → Keeps rounds_watch (check_disconnects e id ps gone late)
unfolding check_disconnects
Keeps-check_disconnects e id ps gone late = search (still, Keeps-decide_disconnects) depth 40

pub Keeps-evaluate_active : (e : Engine) (m : MatchRow) → Keeps rounds_watch (evaluate_active e m)
unfolding evaluate_active
Keeps-evaluate_active e m = search (still, Keeps-check_disconnects) depth 40

pub Keeps-evaluate_disconnects :
    (e : Engine) (id : ℕ) → Keeps rounds_watch (evaluate_disconnects e id)
unfolding evaluate_disconnects
Keeps-evaluate_disconnects e id = search (still, Keeps-lock_match, Keeps-evaluate_active) depth 40

pub Keeps-evaluate_all : (x0 : Engine) (x1 : List ℕ) → Keeps rounds_watch (evaluate_all x0 x1)
unfolding evaluate_all
Keeps-evaluate_all e [] = search still depth 40
Keeps-evaluate_all e (id ∷ ids) =
    Keeps-bind _ _ _ (Keeps-begin _ (Keeps-evaluate_disconnects e id))
      λ _. Keeps-bind _ _ _ (Keeps-evaluate_all e ids) λ _. search still

pub Keeps-process_due_disconnects :
    (e : Engine) (limit : ℕ) → Keeps rounds_watch (process_due_disconnects e limit)
unfolding process_due_disconnects
Keeps-process_due_disconnects e limit = search (still, Keeps-evaluate_all) depth 40

pub Keeps-process_due_disconnect_for_match :
    (e : Engine) (id : ℕ) → Keeps rounds_watch (process_due_disconnect_for_match e id)
unfolding process_due_disconnect_for_match
Keeps-process_due_disconnect_for_match e id = search (still, Keeps-evaluate_disconnects) depth 40

pub Keeps-cancel_lobby :
    (m : MatchRow) (user : ℕ) (key : List ℕ) → Keeps rounds_watch (cancel_lobby m user key)
unfolding cancel_lobby
Keeps-cancel_lobby m user key = search (still, Keeps-complete_command, Keeps-append_event) depth 40

pub Keeps-cancel_match_tx :
    (e : Engine) (user : ℕ) (id : ℕ) (key : List ℕ)
    → Keeps rounds_watch (cancel_match_tx e user id key)
unfolding cancel_match_tx
Keeps-cancel_match_tx e user id key =
    search
      (still, Keeps-lock_match, Keeps-lock_participant, Keeps-reserve_command, Keeps-cancel_lobby)
      depth 40

pub Keeps-cancel_match :
    (e : Engine) (actor : Option ℕ) (id : ℕ) (key : List ℕ)
    → Keeps rounds_watch (cancel_match e actor id key)
unfolding cancel_match
Keeps-cancel_match e actor id key =
    search (still, Keeps-require_actor, Keeps-get_snapshot_by_match, Keeps-cancel_match_tx) depth 40

pub Keeps-concede :
    (e : Engine) (id : ℕ) (o : Option ParticipantRow) → Keeps rounds_watch (concede e id o)
unfolding concede
Keeps-concede e id none = search (still, Keeps-finalize_match) depth 40
Keeps-concede e id (some opponent) = search (still, Keeps-finalize_match) depth 40

pub Keeps-forfeit_active :
    (e : Engine) (m : MatchRow) (user : ℕ) (key : List ℕ)
    → Keeps rounds_watch (forfeit_active e m user key)
unfolding forfeit_active
Keeps-forfeit_active e m user key = search (still, Keeps-complete_command, Keeps-concede) depth 40

pub Keeps-forfeit_match_tx :
    (e : Engine) (user : ℕ) (id : ℕ) (key : List ℕ)
    → Keeps rounds_watch (forfeit_match_tx e user id key)
unfolding forfeit_match_tx
Keeps-forfeit_match_tx e user id key =
    search
      (still, Keeps-lock_match, Keeps-lock_participant, Keeps-reserve_command, Keeps-forfeit_active)
      depth 40

pub Keeps-forfeit_match :
    (e : Engine) (actor : Option ℕ) (id : ℕ) (key : List ℕ)
    → Keeps rounds_watch (forfeit_match e actor id key)
unfolding forfeit_match
Keeps-forfeit_match e actor id key =
    search (still, Keeps-require_actor, Keeps-get_snapshot_by_match, Keeps-forfeit_match_tx) depth
      40
