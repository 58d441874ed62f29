-- ===== src/Match/Lifecycle/Writes.antt =====
-- Each write to a row of `matches` is a `RowStep`.
use leetbattle.Shared.{
  ℕ, ◌≡◌, refl, Bool, true, Option, some, List, find, update_first, arith, subst, sym, ◌∷◌,
}
use leetbattle.Domain.Types.{
  MatchState, lobby, countdown, active, judging, finished, rematch_pending, EndReason, ProblemRef,
}
use leetbattle.Domain.StateMachine.{can_transition}
use leetbattle.Domain.StateMachine.Laws.{Leads, stay, go}
use leetbattle.Store.Rows.{MatchRow}
use leetbattle.Store.Tx.{on_matches}
use leetbattle.Store.Watch.{Run}
use leetbattle.Match.Config.{Engine}
use leetbattle.Match.Events.{is_match, bump}
use leetbattle.Match.Countdown.{is_due_countdown, activate}
use leetbattle.Match.Lobby.{is_lobby, to_countdown}
use leetbattle.Match.Finish.{is_open, close, is_finished, to_rematch}
use leetbattle.Match.Ending.{cancel_row}
use leetbattle.Match.Rematch.{links}
use leetbattle.Match.Lifecycle.Rows.{
  matches_watch, RowStep, Evolves, Evolves-update, Evolves-refl, grow,
}

-- An action on the table is its function.
pub Run-on_matches :
    (v : List MatchRow) (f : List MatchRow → List MatchRow)
    → Evolves v (f v)
    → Run matches_watch v (on_matches f)
unfolding on_matches
Run-on_matches v f h = record { at = λ db e. subst (λ u. Evolves v (f u)) (sym e) h }

Leads-finished : (s : MatchState) → is_open s ≡ true → Leads s finished
unfolding can_transition
Leads-finished lobby h = go {t = finished} refl stay
Leads-finished countdown h = go {t = finished} refl stay
Leads-finished active h = go {t = finished} refl stay
Leads-finished judging h = cc
Leads-finished finished h = stay
Leads-finished rematch_pending h = cc

pub RowStep-bump : (m : MatchRow) → RowStep m (bump m)
RowStep-bump m = record { leads = stay; facts = ground arith }

RowStep-close :
    (winner : Option ℕ) (reason : EndReason) (applies : Bool) (now : ℕ) (m : MatchRow)
    → is_open m.state ≡ true
    → RowStep m (close winner reason applies now m)
RowStep-close winner reason applies now m h = record {
  leads = Leads-finished m.state h;
  facts = ground arith;
}

RowStep-activate : (m : MatchRow) → m.state ≡ countdown → RowStep m (activate m)
unfolding can_transition
RowStep-activate m h = record {
  leads = rw h (go {s = countdown} {t = active} refl stay);
  facts = ground arith;
}

RowStep-to_countdown :
    (e : Engine) (p : ProblemRef) (now : ℕ) (m : MatchRow)
    → m.state ≡ lobby
    → RowStep m (to_countdown e p now m)
unfolding can_transition
RowStep-to_countdown e p now m h = record {
  leads = rw h (go {s = lobby} {t = countdown} refl stay);
  facts = ground arith;
}

pub RowStep-to_rematch :
    (deadline : ℕ) (m : MatchRow) → m.state ≡ finished → RowStep m (to_rematch deadline m)
unfolding can_transition
RowStep-to_rematch deadline m h = record {
  leads = rw h (go {s = finished} {t = rematch_pending} refl stay);
  facts = ground arith;
}

RowStep-cancel : (now : ℕ) (m : MatchRow) → m.state ≡ lobby → RowStep m (cancel_row now m)
unfolding can_transition
RowStep-cancel now m h = record {
  leads = rw h (go {s = lobby} {t = finished} refl stay);
  facts = ground arith;
}

RowStep-link : (id : ℕ) (m : MatchRow) → RowStep m (record m { rematch_created = some id })
RowStep-link id m = record { leads = stay; facts = ground arith }

pub Run-bump :
    (v : List MatchRow) (id : ℕ)
    → Run matches_watch v (on_matches (update_first (is_match id) bump))
Run-bump v id = Run-on_matches v _ (Evolves-update (is_match id) bump v (λ m _ _. RowStep-bump m))

pub Run-close :
    (v : List MatchRow) (m : MatchRow) (winner : Option ℕ) (reason : EndReason) (applies : Bool)
    (now : ℕ)
    → find (is_match m.id) v ≡ some m
    → is_open m.state ≡ true
    → Run matches_watch v
        (on_matches (update_first (is_match m.id) (close winner reason applies now)))
Run-close v m winner reason applies now found h = Run-on_matches v _ (
    Evolves-update (is_match m.id) (close winner reason applies now) v
      (λ n e _. RowStep-close winner reason applies now n (ground (arith, found, e))))

pub Run-cancel_row :
    (v : List MatchRow) (m : MatchRow) (now : ℕ)
    → find (is_match m.id) v ≡ some m
    → m.state ≡ lobby
    → Run matches_watch v (on_matches (update_first (is_match m.id) (cancel_row now)))
Run-cancel_row v m now found h = Run-on_matches v _ (
    Evolves-update (is_match m.id) (cancel_row now) v
      (λ n e _. RowStep-cancel now n (ground (arith, found, e))))

pub Run-activate :
    (v : List MatchRow) (now id : ℕ)
    → Run matches_watch v (on_matches (update_first (is_due_countdown now id) activate))
Run-activate v now id = Run-on_matches v _ (
    Evolves-update (is_due_countdown now id) activate v
      (λ m _ hit. RowStep-activate m (ground arith)))

pub Run-to_countdown :
    (v : List MatchRow) (e : Engine) (p : ProblemRef) (now id : ℕ)
    → Run matches_watch v (on_matches (update_first (is_lobby id) (to_countdown e p now)))
Run-to_countdown v e p now id = Run-on_matches v _ (
    Evolves-update (is_lobby id) (to_countdown e p now) v
      (λ m _ hit. RowStep-to_countdown e p now m (ground arith)))

pub Run-to_rematch :
    (v : List MatchRow) (deadline id : ℕ)
    → Run matches_watch v (on_matches (update_first (is_finished id) (to_rematch deadline)))
Run-to_rematch v deadline id = Run-on_matches v _ (
    Evolves-update (is_finished id) (to_rematch deadline) v
      (λ m _ hit. RowStep-to_rematch deadline m (ground arith)))

pub Run-link :
    (v : List MatchRow) (id new : ℕ)
    → Run matches_watch v
        (on_matches (update_first (links id) (λ m. record m { rematch_created = some new })))
Run-link v id new = Run-on_matches v _ (
    Evolves-update (links id) (λ m. record m { rematch_created = some new }) v
      (λ m _ _. RowStep-link new m))

pub Run-insert_match :
    (v : List MatchRow) (m : MatchRow) → Run matches_watch v (on_matches (λ ms. m ∷ ms))
Run-insert_match v m = Run-on_matches v (λ ms. m ∷ ms) (grow (Evolves-refl v))

pub ruleset writes =
    (Run-bump, Run-activate, Run-to_countdown, Run-to_rematch, Run-link, Run-insert_match)
