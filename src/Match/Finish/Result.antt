-- ===== src/Match/Finish/Result.antt =====
-- The result that the end of a match writes.
use leetbattle.Shared.{
  ℕ, Bool, true, false, ◌≡◌, refl, Option, some, List, arith, find, update_first, ap, sym, ◌∙◌,
  subst, ◌==◌, if◌then◌else◌,
}
use leetbattle.Domain.Types.{MatchState, EndReason, practice, mode_eq, state_eq}
use leetbattle.Domain.Errors.{ok}
use leetbattle.Store.Rows.{Db, MatchRow, ParticipantRow, match_finished}
use leetbattle.Store.Tx.{M, ◌>>=◌, ◌>>◌, pure, gets, expect}
use leetbattle.Store.Watch.{Keeps-lift, Keeps-gets, Keeps-guard, Run, kept}
use leetbattle.Store.Outcomes.{bind-ok, gets-ok, expect-ok}
use leetbattle.Match.Config.{Engine}
use leetbattle.Match.Events.{is_match, append_event}
use leetbattle.Match.Locks.{lock_match}
use leetbattle.Match.Finish.{
  is_open, close, settle_players, announce_rematch, open_rematch, finalize_open, finalize_match,
  applies_record, is_winner, slot_of,
}
use leetbattle.Match.Lifecycle.Rows.{is_over, matches_watch}
use leetbattle.Match.Lifecycle.Frame.{Keeps-clock}
use leetbattle.Match.Lifecycle.Steps.{find-is_match}
use leetbattle.Match.Finish.Row.{
  row_watch, Follows, row_steps, Run-append_event, find-update, on_matches-ok, HasResult,
  HasResult-close,
}

Run-announce :
    (id i : ℕ) (v : Option MatchRow) (deadline : ℕ) (b : Bool)
    → Run (row_watch id) v (announce_rematch i deadline b)
unfolding announce_rematch
Run-announce id i v deadline false = search row_steps
Run-announce id i v deadline true = search (row_steps, Run-append_event) depth 10

Run-open_rematch :
    (id i : ℕ) (v : Option MatchRow) (e : Engine) → Run (row_watch id) v (open_rematch e i)
unfolding open_rematch
Run-open_rematch id i v e = search (row_steps, Run-announce) depth 20

-- What follows the write of the result.
rest : Engine → MatchRow → EndReason → Option ℕ → List ParticipantRow → M Bool
rest e m reason winner ps = do
  settle_players m.id reason winner (applies_record m reason (find (is_winner winner) ps)) ps
  append_event m.id (match_finished reason (slot_of (find (is_winner winner) ps)))
  if m.mode == practice then pure true else open_rematch e m.id

Run-rest :
    (v : Option MatchRow) (e : Engine) (m : MatchRow) (reason : EndReason) (winner : Option ℕ)
    (ps : List ParticipantRow)
    → Run (row_watch m.id) v (rest e m reason winner ps)
unfolding rest
Run-rest v e m reason winner ps = search (row_steps, Run-append_event, Run-open_rematch) depth 10

finalize_open-HasResult :
    (e : Engine) (m : MatchRow) (reason : EndReason) (winner : Option ℕ) (db after : Db) (b : Bool)
    → find (is_match m.id) db.matches ≡ some m
    → finalize_open e m reason winner db ≡ (ok b, after)
    → HasResult winner reason (find (is_match m.id) after.matches)
unfolding finalize_open rest
finalize_open-HasResult e m reason winner db after b found h =
    let b1 = bind-ok _ _ db b after h in
    let k1 = kept matches_watch _ _ _ _ (Keeps-lift _ _) b1.first in
    let b2 = bind-ok _ _ _ b after b1.second in
    let k2 = kept matches_watch _ _ _ _ (Keeps-gets _ _) b2.first in
    let b3 = bind-ok _ _ _ b after b2.second in
    let k3 = kept matches_watch _ _ _ _ (Keeps-guard _ _ _) b3.first in
    let b4 = bind-ok _ _ _ b after b3.second in
    let k4 = kept matches_watch _ _ _ _ Keeps-clock b4.first in
    let b5 = bind-ok _ _ _ b after b4.second in
    let k5 = on_matches-ok _ _ _ _ b5.first in
    let applies = applies_record m reason (find (is_winner winner) b2.value) in
    let written =
      find-update m.id (close winner reason applies b4.value) db.matches m (λ n. refl) found in
    let same =
      ap
        (λ ms.
          find (is_match m.id)
            (update_first (is_match m.id) (close winner reason applies b4.value) ms))
        (k4 ∙ k3 ∙ k2 ∙ k1) in
    let follows =
      (Run-rest _ e m reason winner b2.value).at b5.between
        (ap (find (is_match m.id)) k5 ∙ same ∙ written) in
    HasResult-close winner reason applies b4.value m _ (
      subst
        (λ r.
          Follows (some (close winner reason applies b4.value m))
            (find (is_match m.id) r.1.matches))
        b5.second follows)

is_open-over : (s : MatchState) → is_over s ≡ true → is_open s ≡ false
is_open-over s h = ground arith

finalize_match_open :
    (e : Engine) (m : MatchRow) (reason : EndReason) (winner : Option ℕ) (db after : Db) (b : Bool)
    (t : Bool)
    → find (is_match m.id) db.matches ≡ some m
    → (if t then finalize_open e m reason winner else pure false) db ≡ (ok b, after)
    → b ≡ true
    → HasResult winner reason (find (is_match m.id) after.matches)
unfolding pure
finalize_match_open e m reason winner db after b true found h k =
    finalize_open-HasResult e m reason winner db after b found h
finalize_match_open e m reason winner db after b false found h k = ground arith

-- A match that is ended by `finalize_match` is over, with that winner and that reason.
pub finalize_match-HasResult :
    (e : Engine) (id : ℕ) (reason : EndReason) (winner : Option ℕ) (db after : Db)
    → finalize_match e id reason winner db ≡ (ok true, after)
    → HasResult winner reason (find (is_match id) after.matches)
unfolding finalize_match lock_match
finalize_match-HasResult e id reason winner db after h =
    let b1 = bind-ok _ _ db true after h in
    let b2 = bind-ok _ _ db b1.value b1.between b1.first in
    let g = gets-ok _ _ _ _ b2.first in
    let x = expect-ok _ _ _ _ _ b2.second in
    let here = sym g.0 ∙ x.0 in
    let same_id = find-is_match id db.matches b1.value here in
    let found = subst (λ i. find (is_match i) db.matches ≡ some b1.value) (sym same_id) here in
    let found' =
      subst (λ d. find (is_match b1.value.id) d.matches ≡ some b1.value) (sym (x.1 ∙ g.1)) found in
    subst (λ i. HasResult winner reason (find (is_match i) after.matches)) same_id
      (finalize_match_open e b1.value reason winner b1.between after true _ found' b1.second refl)

finalize_open-locked :
    (e : Engine) (id : ℕ) (m : MatchRow) (reason : EndReason) (winner : Option ℕ) (db after : Db)
    (b : Bool)
    → find (is_match id) db.matches ≡ some m
    → is_open m.state ≡ true
    → finalize_match e id reason winner db ≡ (ok b, after)
    → finalize_open e m reason winner db ≡ (ok b, after)
unfolding finalize_match lock_match gets expect pure ◌>>=◌
finalize_open-locked e id m reason winner db after b found h k = rw h at (rw found at k)

-- An open match for which `finalize_match` returns is over, with that winner and that reason.
pub finalize_match-open :
    (e : Engine) (id : ℕ) (m : MatchRow) (reason : EndReason) (winner : Option ℕ) (db after : Db)
    (b : Bool)
    → find (is_match id) db.matches ≡ some m
    → is_open m.state ≡ true
    → finalize_match e id reason winner db ≡ (ok b, after)
    → HasResult winner reason (find (is_match id) after.matches)
finalize_match-open e id m reason winner db after b found h k =
    let same_id = find-is_match id db.matches m found in
    subst (λ i. HasResult winner reason (find (is_match i) after.matches)) same_id
      (finalize_open-HasResult e m reason winner db after b
        (subst (λ i. find (is_match i) db.matches ≡ some m) (sym same_id) found)
        (finalize_open-locked e id m reason winner db after b found h k))

-- When a match has been ended by `finalize_match`, ending it again, in any way, changes nothing.
pub finalize_match-again :
    (e : Engine) (id : ℕ) (reason next_reason : EndReason) (winner next_winner : Option ℕ)
    (db after : Db)
    → finalize_match e id reason winner db ≡ (ok true, after)
    → finalize_match e id next_reason next_winner after ≡ (ok false, after)
unfolding finalize_match lock_match gets expect ◌>>=◌ pure
finalize_match-again e id reason next_reason winner next_winner db after h =
    let r = finalize_match-HasResult e id reason winner db after h in
    rw r.is_there (rw (is_open-over r.row.state r.over) refl)
