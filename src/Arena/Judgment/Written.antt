-- ===== src/Arena/Judgment/Written.antt =====
-- The writes of `persistSuccess` that end a match.
use leetbattle.Shared.{
  ℕ, Bool, true, false, ◌≡◌, refl, Option, some, List, [], ◌∷◌, arith, find, any, update_first, ap,
  sym, ◌∙◌, subst, Bool-cases, inl, inr, ◌==◌, if◌then◌else◌,
}
use leetbattle.Domain.Types.{mode_eq, state_eq, judging, ai_ml, challenge_eq}
use leetbattle.Domain.Errors.{ok}
use leetbattle.Store.Rows.{Db, MatchRow}
use leetbattle.Store.Tx.{M, ◌>>=◌, pure, gets, expect, clock_timestamp, on_evaluations}
use leetbattle.Store.Watch.{kept}
use leetbattle.Store.Clock.{tick, clock-ok}
use leetbattle.Match.Lifecycle.Rows.{matches_watch}
use leetbattle.Store.Outcomes.{bind-ok, gets-ok, guard-ok, begin-ok}
use leetbattle.Match.Events.{is_match}
use leetbattle.Match.Finish.Row.{HasResult}
use leetbattle.Match.Lifecycle.Frame.{Keeps-clock}
use leetbattle.Arena.Config.{Arena}
use leetbattle.Match.Lifecycle.Steps.{find-is_match}
use leetbattle.Arena.Commands.{lock_arena_match, is_arena_match}
use leetbattle.Arena.Claims.{Claim, is_held}
use leetbattle.Arena.Rounds.Rows.{rounds_watch}
use leetbattle.Arena.Rounds.Frame.{Keeps-clock as Keeps-clock'}
use leetbattle.Arena.Rounds.Service.{Keeps-finish_judged}
use leetbattle.Store.Evaluations.{EvaluationRow}
use leetbattle.Arena.Judgment.{
  judged_row, is_timed_out, judged_reason, finish_judged, complete_held, persist_success_tx,
  persist_success,
}
use leetbattle.Arena.Judgment.Resolution.{JudgeSuccess, Verdict, resolve, winner_of}
use leetbattle.Arena.Judgment.Ended.{finish_judged-HasResult}

-- A judgment that has ended the match: its claim held the evaluation, the match has the result, and
-- the row of the evaluation has the judgment.
pub record IsWritten (c : Claim) (r : JudgeSuccess) (v : Verdict) (winner : Option ℕ)
    (db after : Db) : Type 0 where
  pub held : any (is_held c.row.id c.claim) db.evaluations ≡ true
  pub result :
      HasResult winner
        (judged_reason (any (is_timed_out c.row.match_id) db.answers))
        (find (is_match c.row.match_id) after.matches)
  pub judged :
      after.evaluations
      ≡ update_first
          (is_held c.row.id c.claim)
          (judged_row r v winner (tick db).clock)
          db.evaluations

on_evaluations-ok :
    (f : List EvaluationRow → List EvaluationRow) (db after : Db) (u : Unit {0})
    → on_evaluations f db ≡ (ok u, after)
    → after ≡ record db { evaluations = f db.evaluations }
unfolding on_evaluations
on_evaluations-ok f db after u h = ground arith

if_held :
    (t : Bool) (m : M Bool) (db after : Db)
    → (if t then m else pure false) db ≡ (ok true, after)
    → (t ≡ true) × (m db ≡ (ok true, after))
unfolding pure
if_held true m db after h = (refl, h)
if_held false m db after h = ground arith

same_evaluations :
    (a : Arena) (m : MatchRow) (w : EvaluationRow) (v : Verdict) (winner : Option ℕ) (db after : Db)
    → finish_judged a m w v winner db ≡ (ok true, after)
    → after.evaluations ≡ db.evaluations
same_evaluations a m w v winner db after h =
    ap (λ r. r.1.evaluations) (sym h) ∙ ap (λ s. s.1) ((Keeps-finish_judged a m w v winner).at db)

clock-rounds :
    (db after : Db) (t : ℕ)
    → clock_timestamp db ≡ (ok t, after)
    → rounds_watch.view after ≡ rounds_watch.view db
clock-rounds db after t h = ap (λ r. rounds_watch.view r.1) (sym h) ∙ Keeps-clock'.at db

complete_held-IsWritten :
    (a : Arena) (m : MatchRow) (c : Claim) (r : JudgeSuccess) (v : Verdict) (winner : Option ℕ)
    (db after : Db)
    → m.id ≡ c.row.match_id
    → find (is_match m.id) db.matches ≡ some m
    → (m.state == judging) ≡ true
    → complete_held a m c r v winner db ≡ (ok true, after)
    → IsWritten c r v winner db after
unfolding complete_held
complete_held-IsWritten a m c r v winner db after same found j h =
    let b1 = bind-ok _ _ db true after h in
    let k1 = kept matches_watch _ _ _ _ Keeps-clock b1.first in
    let r1 = clock-rounds _ _ _ b1.first in
    let b2 = bind-ok _ _ _ true after b1.second in
    let g2 = gets-ok _ _ _ _ b2.first in
    let b3 = bind-ok _ _ _ true after b2.second in
    let w3 = on_evaluations-ok _ _ _ _ b3.first in
    let (held, ended) = if_held b2.value _ _ _ b3.second in
    let same_matches : b3.between.matches ≡ db.matches =
      ap (λ d. d.matches) w3 ∙ ap (λ d. d.matches) g2.1 ∙ k1 in
    let same_answers : b3.between.answers ≡ db.answers =
      ap (λ d. d.answers) w3 ∙ ap (λ d. d.answers) g2.1 ∙ ap (λ s. s.0) r1 in
    let same_rows : b2.between.evaluations ≡ db.evaluations =
      ap (λ d. d.evaluations) g2.1 ∙ ap (λ s. s.1) r1 in
    let result =
      finish_judged-HasResult a m c.row v winner b3.between after
        (ap (find (is_match m.id)) same_matches ∙ found) j ended in
    record {
      held = ap (any (is_held c.row.id c.claim)) (sym (ap (λ s. s.1) r1)) ∙ sym g2.0 ∙ held;
      result =
          subst
            (λ i.
              HasResult winner (judged_reason (any (is_timed_out i) db.answers))
                (find (is_match i) after.matches))
            same
            (subst
              (λ ws.
                HasResult winner (judged_reason (any (is_timed_out m.id) ws))
                  (find (is_match m.id) after.matches))
              same_answers result);
      judged =
          same_evaluations a m c.row v winner b3.between after ended
          ∙ ap (λ d. d.evaluations) w3
          ∙ ap (update_first (is_held c.row.id c.claim) (judged_row r v winner b1.value)) same_rows
          ∙ ap
              (λ t.
                update_first (is_held c.row.id c.claim) (judged_row r v winner t) db.evaluations)
              (clock-ok _ _ _ b1.first).0;
    }

pub find-arena_match :
    (id : ℕ) (ms : List MatchRow) (m : MatchRow)
    → (m.challenge == ai_ml) ≡ true
    → find (is_match id) ms ≡ some m
    → find (is_arena_match id) ms ≡ some m
find-arena_match id [] m k e = cc
find-arena_match id (n ∷ ms) m k e = elim (Bool-cases (is_match id n)) [
  | inl same ↦ ground (arith, e, same, k)
  | inr other ↦ let r = find-arena_match id ms m k (rw other at e) in ground (arith, other, r)
]

persist_tx-IsWritten :
    (a : Arena) (m : MatchRow) (c : Claim) (r : JudgeSuccess) (v : Verdict) (winner : Option ℕ)
    (db after : Db)
    → find (is_match c.row.match_id) db.matches ≡ some m
    → (m.challenge == ai_ml) ≡ true
    → persist_success_tx a c r v winner db ≡ (ok true, after)
    → IsWritten c r v winner db after
unfolding persist_success_tx lock_arena_match gets expect pure ◌>>=◌
persist_tx-IsWritten a m c r v winner db after found k h =
    let same = find-is_match c.row.match_id db.matches m found in
    let locked = find-arena_match c.row.match_id db.matches m k found in
    let (j, held) = if_held (m.state == judging) _ _ _ (rw locked at h) in
    complete_held-IsWritten a m c r v winner db after same
      (subst (λ i. find (is_match i) db.matches ≡ some m) (sym same) found) j held

-- A result that ends the match was written for its claim.
pub persist_success-IsWritten :
    (a : Arena) (m : MatchRow) (c : Claim) (r : JudgeSuccess) (db after : Db)
    → find (is_match c.row.match_id) db.matches ≡ some m
    → (m.challenge == ai_ml) ≡ true
    → persist_success a c r db ≡ (ok true, after)
    → let v = resolve c.row.snapshot r in IsWritten c r v (winner_of c.row v) db after
unfolding persist_success
persist_success-IsWritten a m c r db after found k h =
    let b1 = bind-ok _ _ db true after h in
    let g = guard-ok _ _ _ _ _ b1.first in
    let v = resolve c.row.snapshot r in
    let t = begin-ok _ _ _ _ b1.second in
    persist_tx-IsWritten a m c r v (winner_of c.row v) db after found k
      (subst (λ d. persist_success_tx a c r v (winner_of c.row v) d ≡ (ok true, after)) g.1 t)
