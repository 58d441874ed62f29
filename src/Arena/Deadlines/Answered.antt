-- ===== src/Arena/Deadlines/Answered.antt =====
-- After the deadline every player of the match has an answer.
use leetbattle.Shared.{
  ℕ, ◌≤◌, ◌≡◌, refl, ◌∙◌, sym, ap, subst, Bool, true, false, Option, some, none, List, [], ◌∷◌,
  find, select, all, arith, leb, ◌==◌, if◌then◌else◌,
}
use leetbattle.Domain.Types.{active, state_eq, slot_eq}
use leetbattle.Domain.Errors.{ok}
use leetbattle.Store.Rows.{Db, MatchRow, ParticipantRow}
use leetbattle.Store.Evaluations.{AnswerRow}
use leetbattle.Store.Tx.{M, pure, ◌>>=◌, on_answers}
use leetbattle.Store.Watch.{Run, kept, ran}
use leetbattle.Store.Clock.{tick, tick-eq, clock-ok}
use leetbattle.Store.Outcomes.{bind-ok, gets-ok, expect-ok, pure-ok}
use leetbattle.Match.Snapshot.{by_slot}
use leetbattle.Arena.Config.{Arena}
use leetbattle.Arena.Commands.{lock_arena_match, is_arena_match}
use leetbattle.Arena.Rounds.Preparation.{frames, Run-prepare_evaluation}
use leetbattle.Arena.Preparation.{prepare_evaluation}
use leetbattle.Arena.Deadlines.{
  Processed, process_deadline_tx, is_missing, time_out_players, process_deadline,
}
use leetbattle.Arena.Rounds.Rows.{Rounds, rounds_watch, acting, clerk, same}
use leetbattle.Arena.Rounds.Engine.Heads.{Keeps-append_event}
use leetbattle.Arena.Deadlines.Missing.{
  is_answered, add_all, add_all_answered, all_kept, all-by_slot,
}

on_answers-ok :
    (f : List AnswerRow → List AnswerRow) (db after : Db)
    → on_answers f db ≡ (ok tt, after)
    → after.answers ≡ f db.answers
unfolding on_answers
on_answers-ok f db after h = ground arith

time_out_players-answers :
    (id until : ℕ) (ps : List ParticipantRow) (db after : Db)
    → time_out_players id until ps db ≡ (ok tt, after)
    → after.answers ≡ add_all id until ps db.answers
unfolding time_out_players add_all
time_out_players-answers id until [] db after h = ap (λ d. d.answers) (pure-ok _ _ _ _ h).1
time_out_players-answers id until (p ∷ ps) db after h =
    let b1 = bind-ok _ _ db tt after h in
    let b2 = bind-ok _ _ _ tt after b1.second in
    let written = on_answers-ok _ _ _ b1.first in
    let still = ap (λ v. v.0) (kept rounds_watch _ _ _ _ (Keeps-append_event id _) b2.first) in
    time_out_players-answers id until ps b2.between after b2.second
    ∙ ap (add_all id until ps) (still ∙ written)

-- A deadline that has been processed.
pub record IsProcessed (id : ℕ) (before after : Db) : Type 0 where
  pub row : MatchRow
  pub found : find (is_arena_match id) before.matches ≡ some row
  pub is_active : row.state ≡ active
  pub until : ℕ
  pub deadline : row.answer_deadline_at ≡ some until
  pub is_due : until ≤ (tick before).clock
  pub answered : all (is_answered row.id after.answers) (by_slot row.id before.participants) ≡ true

if_processed :
    (t : Bool) (m : M Processed) (db after : Db) (r : Processed)
    → (if t then m else pure (record { is_processed = false; evaluation = none })) db
      ≡ (ok r, after)
    → r.is_processed ≡ true
    → (t ≡ true) × (m db ≡ (ok r, after))
unfolding pure
if_processed true m db after r h k = (refl, h)
if_processed false m db after r h k = ground arith

-- What follows the answers that are put in.
rest : Arena → MatchRow → M Processed
rest a m = do
  evaluation ← prepare_evaluation a m
  pure (record { is_processed = true; evaluation = evaluation })

Run-rest : (v : Rounds) (a : Arena) (m : MatchRow) → Run (acting clerk) v (rest a m)
unfolding rest
Run-rest v a m = search (frames, Run-prepare_evaluation) depth 10

process_deadline_answered :
    (a : Arena) (m : MatchRow) (until : ℕ) (db after : Db) (r : Processed)
    → process_deadline a m (some until) db ≡ (ok r, after)
    → r.is_processed ≡ true
    → (until ≤ (tick db).clock)
      × (all (is_answered m.id after.answers) (by_slot m.id db.participants) ≡ true)
unfolding process_deadline rest
process_deadline_answered a m until db after r h k =
    let b1 = bind-ok _ _ db r after h in
    let c1 = clock-ok _ _ _ b1.first in
    let same_players : b1.between.participants ≡ db.participants =
      ap (λ d. d.participants) c1.1 ∙ ap (λ d. d.participants) (tick-eq db) in
    let (late, run) = if_processed (leb until b1.value) _ _ _ r b1.second k in
    let b2 = bind-ok _ _ _ r after run in
    let g2 = gets-ok _ _ _ _ b2.first in
    let b3 = bind-ok _ _ _ r after b2.second in
    let put = time_out_players-answers m.id until b2.value _ _ b3.first in
    let later =
      ran (acting clerk) _ _ _ _ _ (Run-rest ((acting clerk).view b3.between) a m) refl b3.second in
    let ps = by_slot m.id b1.between.participants in
    let filled =
      add_all_answered m.id until ps b1.between.answers b1.between.answers
        (all-by_slot m.id b1.between.participants) same in
    let written : b3.between.answers
        ≡ add_all m.id until (select (is_missing b1.between.answers) ps) b1.between.answers =
      put
      ∙ ap (λ qs. add_all m.id until qs b2.between.answers) g2.0
      ∙ ap (λ d. add_all m.id until (select (is_missing b1.between.answers) ps) d.answers) g2.1 in
    let done = subst (λ ws. all (is_answered m.id ws) ps ≡ true) (sym written) filled in
    (
      ground (arith, c1.0, late),
      subst (λ qs. all (is_answered m.id after.answers) (by_slot m.id qs) ≡ true) same_players
          (all_kept m.id ps later.answers done),
    )

deadline_answered :
    (a : Arena) (m : MatchRow) (o : Option ℕ) (db after : Db) (r : Processed)
    → process_deadline a m o db ≡ (ok r, after)
    → r.is_processed ≡ true
    → (until : ℕ) × (o ≡ some until)
      × (until ≤ (tick db).clock)
      × (all (is_answered m.id after.answers) (by_slot m.id db.participants) ≡ true)
unfolding process_deadline pure
deadline_answered a m none db after r h k = ground arith
deadline_answered a m (some until) db after r h k =
    let (late, full) = process_deadline_answered a m until db after r h k in
    (until, refl, late, full)

-- A deadline is processed only for an AI/ML match that is active and whose deadline is not later than
-- the time at which the clock is read, and afterwards each of its players has an answer.
pub process_deadline-IsProcessed :
    (a : Arena) (id : ℕ) (db after : Db) (r : Processed)
    → process_deadline_tx a id db ≡ (ok r, after)
    → r.is_processed ≡ true
    → IsProcessed id db after
unfolding process_deadline_tx lock_arena_match
process_deadline-IsProcessed a id db after r h k =
    let b1 = bind-ok _ _ db r after h in
    let b1' = bind-ok _ _ _ _ _ b1.first in
    let g1 = gets-ok _ _ _ _ b1'.first in
    let x1 = expect-ok _ _ _ _ _ b1'.second in
    let start : b1.between ≡ db = x1.1 ∙ g1.1 in
    let (open_match, run) = if_processed (b1.value.state == active) _ _ _ r b1.second k in
    let (until, deadline, late, full) =
      deadline_answered a b1.value b1.value.answer_deadline_at _ _ r run k in
    record {
      row = b1.value;
      found = sym g1.0 ∙ x1.0;
      is_active = ground (arith, open_match);
      until = until;
      deadline = deadline;
      is_due = subst (λ d. until ≤ (tick d).clock) start late;
      answered =
          subst
            (λ d.
              all (is_answered b1.value.id after.answers) (by_slot b1.value.id d.participants)
              ≡ true)
            start full;
    }
