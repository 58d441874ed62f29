-- ===== src/Match/Lifecycle/Endings.antt =====
-- The end of a match: each transaction takes every match forward.
use leetbattle.Shared.{ℕ, List, [], ◌∷◌, Option, some, none, Bool, true, false, ◌≡◌, find}
use leetbattle.Domain.Types.{EndReason, lobby, state_beq_iff, state_eq}
use leetbattle.Store.Rows.{MatchRow, ParticipantRow}
use leetbattle.Store.Watch.{
  Keeps, Keeps-bind, Run, Run-keep, Run-bind, Run-bind_keep, Run-bind_guard, Run-if, Keeps-lift,
  Keeps-guard, Keeps-gets, Keeps-pure,
}
use leetbattle.Match.Config.{Engine}
use leetbattle.Match.Events.{is_match}
use leetbattle.Match.Finish.{
  is_open, settle_players, count_result, announce_rematch, open_rematch, finalize_open,
  finalize_match,
}
use leetbattle.Match.Disconnects.{
  forfeit_to, decide_disconnects, check_disconnects, evaluate_active, evaluate_disconnects,
}
use leetbattle.Match.Ending.{
  cancel_lobby, cancel_match_tx, concede, forfeit_active, forfeit_match_tx,
}
use leetbattle.Match.Lifecycle.Rows.{matches_watch}
use leetbattle.Match.Lifecycle.Frame.{frame, Keeps-clock, Keeps-participants}
use leetbattle.Match.Lifecycle.Writes.{Run-close, Run-cancel_row}
use leetbattle.Match.Lifecycle.Steps.{
  steps, Run-bind_lock, Keeps-lock_participant, Keeps-reserve_command,
}

Keeps-count_result :
    (applies : Bool) (winner : Option ℕ) (p : ParticipantRow)
    → Keeps matches_watch (count_result applies winner p)
unfolding count_result
Keeps-count_result true winner p = search frame
Keeps-count_result false winner p = search frame

pub Keeps-settle_players :
    (id : ℕ) (reason : EndReason) (winner : Option ℕ) (applies : Bool) (ps : List ParticipantRow)
    → Keeps matches_watch (settle_players id reason winner applies ps)
unfolding settle_players
Keeps-settle_players id reason winner applies [] = search frame
Keeps-settle_players id reason winner applies (p ∷ ps) =
    Keeps-bind _ _ _ (Keeps-participants _) λ _.
      Keeps-bind _ _ _ (Keeps-count_result applies winner p)
        λ _. Keeps-settle_players id reason winner applies ps

Run-announce_rematch :
    (v : List MatchRow) (id deadline : ℕ) (b : Bool)
    → Run matches_watch v (announce_rematch id deadline b)
unfolding announce_rematch
Run-announce_rematch v id deadline false = search steps
Run-announce_rematch v id deadline true = search steps depth 10

Run-open_rematch :
    (v : List MatchRow) (e : Engine) (id : ℕ) → Run matches_watch v (open_rematch e id)
unfolding open_rematch
Run-open_rematch v e id = search (steps, Run-announce_rematch) depth 20

-- The match is closed while it is open, so this goes by the locked row.
Run-finalize_open :
    (v : List MatchRow) (e : Engine) (m : MatchRow) (reason : EndReason) (winner : Option ℕ)
    → find (is_match m.id) v ≡ some m
    → is_open m.state ≡ true
    → Run matches_watch v (finalize_open e m reason winner)
unfolding finalize_open
Run-finalize_open v e m reason winner found h = Run-bind_keep _ v _ _ (Keeps-lift _ _) λ _.
    Run-bind_keep _ v _ _ (Keeps-gets _ _) λ ps. Run-bind_keep _ v _ _ (Keeps-guard _ _ _) λ _.
      Run-bind_keep _ v _ _ Keeps-clock λ now.
        Run-bind _ v _ _ (Run-close v m winner reason _ now found h)
          λ w _. search (steps, Keeps-settle_players, Run-open_rematch) depth 20

pub Run-finalize_match :
    (v : List MatchRow) (e : Engine) (id : ℕ) (reason : EndReason) (winner : Option ℕ)
    → Run matches_watch v (finalize_match e id reason winner)
unfolding finalize_match
Run-finalize_match v e id reason winner = Run-bind_lock v id _ λ m found.
    Run-if _ v _ _ _ (Run-finalize_open v e m reason winner found)
      (λ _. Run-keep _ v _ (Keeps-pure _ false))

Run-forfeit_to :
    (v : List MatchRow) (e : Engine) (id : ℕ) (o : Option ParticipantRow)
    → Run matches_watch v (forfeit_to e id o)
unfolding forfeit_to
Run-forfeit_to v e id none = search steps
Run-forfeit_to v e id (some p) = search Run-finalize_match

Run-decide_disconnects :
    (v : List MatchRow) (e : Engine) (id : ℕ) (ps gone late : List ParticipantRow)
    → Run matches_watch v (decide_disconnects e id ps gone late)
unfolding decide_disconnects
Run-decide_disconnects v e id ps gone late =
    search (steps, Run-finalize_match, Run-forfeit_to) depth 10

Run-check_disconnects :
    (v : List MatchRow) (e : Engine) (id : ℕ) (ps gone late : List ParticipantRow)
    → Run matches_watch v (check_disconnects e id ps gone late)
unfolding check_disconnects
Run-check_disconnects v e id ps gone late = search (steps, Run-decide_disconnects) depth 10

Run-evaluate_active :
    (v : List MatchRow) (e : Engine) (m : MatchRow) → Run matches_watch v (evaluate_active e m)
unfolding evaluate_active
Run-evaluate_active v e m = search (steps, Run-check_disconnects) depth 12

pub Run-evaluate_disconnects :
    (v : List MatchRow) (e : Engine) (id : ℕ) → Run matches_watch v (evaluate_disconnects e id)
unfolding evaluate_disconnects
Run-evaluate_disconnects v e id = search (steps, Run-evaluate_active) depth 12

Run-cancel_lobby :
    (v : List MatchRow) (m : MatchRow) (user : ℕ) (key : List ℕ)
    → find (is_match m.id) v ≡ some m
    → Run matches_watch v (cancel_lobby m user key)
unfolding cancel_lobby
Run-cancel_lobby v m user key found = Run-bind_guard matches_watch v _ _ _ λ waits.
    Run-bind_keep _ v _ _ (Keeps-lift _ _) λ _. Run-bind_keep _ v _ _ Keeps-clock λ now.
      Run-bind _ v _ _ (Run-cancel_row v m now found ((state_beq_iff m.state lobby).0 waits))
        λ w _. search steps depth 30

pub Run-cancel_match_tx :
    (v : List MatchRow) (e : Engine) (user id : ℕ) (key : List ℕ)
    → Run matches_watch v (cancel_match_tx e user id key)
unfolding cancel_match_tx
Run-cancel_match_tx v e user id key = Run-bind_lock v id _ λ m found.
    Run-bind_keep _ v _ _ (Keeps-lock_participant id user) λ p.
      Run-bind_keep _ v _ _ (Keeps-guard _ _ _) λ _.
        Run-bind_keep _ v _ _ (Keeps-reserve_command e _) λ r.
          Run-if _ v _ _ _ (λ _. Run-keep _ v _ (Keeps-pure _ tt))
            (λ _. Run-cancel_lobby v m user key found)

Run-concede :
    (v : List MatchRow) (e : Engine) (id : ℕ) (o : Option ParticipantRow)
    → Run matches_watch v (concede e id o)
unfolding concede
Run-concede v e id none = search Run-finalize_match
Run-concede v e id (some p) = search Run-finalize_match

Run-forfeit_active :
    (v : List MatchRow) (e : Engine) (m : MatchRow) (user : ℕ) (key : List ℕ)
    → Run matches_watch v (forfeit_active e m user key)
unfolding forfeit_active
Run-forfeit_active v e m user key = search (steps, Run-concede) depth 20

pub Run-forfeit_match_tx :
    (v : List MatchRow) (e : Engine) (user id : ℕ) (key : List ℕ)
    → Run matches_watch v (forfeit_match_tx e user id key)
unfolding forfeit_match_tx
Run-forfeit_match_tx v e user id key = search (steps, Run-forfeit_active) depth 20
