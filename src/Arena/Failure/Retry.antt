-- ===== src/Arena/Failure/Retry.antt =====
-- A failure of the judge that may be retried.
use leetbattle.Shared.{
  ℕ, ◌+◌, ◌≤◌, ◌≡◌, refl, ◌∙◌, ap, true, Option, some, List, [], ◌∷◌, find, any, update_first,
  arith, Bool-cases, inl, inr, if◌then◌else◌,
}
use leetbattle.Domain.Types.{judging, state_eq, ai_ml, challenge_eq}
use leetbattle.Domain.Errors.{ok}
use leetbattle.Store.Rows.{Db, MatchRow, EventRow, Event}
use leetbattle.Store.Evaluations.{EvaluationRow}
use leetbattle.Store.Clock.{tick, tick-eq}
use leetbattle.Store.Tx.{
  pure, raise, gets, expect, begin, on_matches, on_events, ◌>>=◌, clock_timestamp, on_evaluations,
}
use leetbattle.Match.Config.{seconds}
use leetbattle.Match.Events.{is_match, bump, stamp, append_event}
use leetbattle.Match.Finish.Row.{find-update}
use leetbattle.Match.Lifecycle.Steps.{find-is_match}
use leetbattle.Arena.Judgment.Written.{find-arena_match}
use leetbattle.Arena.Config.{Arena}
use leetbattle.Arena.Commands.{lock_arena_match}
use leetbattle.Arena.Claims.{Claim, is_evaluation, is_held}
use leetbattle.Arena.Leases.{IsClaimed, claim_evaluation-IsClaimed}
use leetbattle.Arena.Failure.{
  JudgeFailure, is_budget_open, retry_at, failed_row, announce_failure, fail_held,
  persist_failure_tx, persist_failure,
}
use leetbattle.Arena.Rounds.Engine.Heads.{Keeps-append_event}

-- The worker whose claim holds the evaluation of a match that is being judged.
pub record IsHolder (c : Claim) (m : MatchRow) (v : EvaluationRow) (db : Db) : Type 0 where
  pub found_match : find (is_match c.row.match_id) db.matches ≡ some m
  pub is_ai_ml : m.challenge ≡ ai_ml
  pub is_judged : m.state ≡ judging
  pub found_row : find (is_evaluation c.row.id) db.evaluations ≡ some v
  pub held : is_held c.row.id c.claim v ≡ true

-- The delay after the failure.
abbrev pub delay : Arena → JudgeFailure → ℕ
delay a f = seconds (
    if is_budget_open f.code
    then a.budget_circuit_recovery_rate_limit_seconds
    else a.recovery_rate_limit_seconds)

found_held :
    (id claim : ℕ) (f : EvaluationRow → EvaluationRow) (vs : List EvaluationRow) (v : EvaluationRow)
    → ((w : EvaluationRow) → (f w).id ≡ w.id)
    → find (is_evaluation id) vs ≡ some v
    → is_held id claim v ≡ true
    → (find (is_evaluation id) (update_first (is_held id claim) f vs) ≡ some (f v))
      × (any (is_held id claim) vs ≡ true)
found_held id claim f [] v keeps e h = cc
found_held id claim f (w ∷ vs) v keeps e h = elim (Bool-cases (is_evaluation id w)) [
  | inl hit ↦ ground (arith, e, h, hit, keeps w)
  | inr miss ↦
      let rest = found_held id claim f vs v keeps (rw miss at e) h in ground (arith, rest, miss)
]

-- The event of a match that is there is appended.
record IsAppended (id : ℕ) (event : Event) (db : Db) : Type 0 where
  row : EventRow
  after : Db
  returns : append_event id event db ≡ (ok row, after)
  same_evaluations : after.evaluations ≡ db.evaluations

append_event-IsAppended :
    (id : ℕ) (event : Event) (db : Db) (m : MatchRow)
    → find (is_match id) db.matches ≡ some m
    → IsAppended id event db
unfolding append_event clock_timestamp on_matches on_events ◌>>=◌ gets expect pure raise
append_event-IsAppended id event db m found =
    let t = tick-eq db in
    let b = find-update id bump db.matches m (λ n. refl) found in
    record {
      row = record {
        match_id = id;
        version = (bump m).version;
        event = event;
        server_timestamp = stamp id (tick db).clock db.events;
      };
      after = (append_event id event db).1;
      returns = ground (arith, t, b);
      same_evaluations = ap (λ v. v.1) ((Keeps-append_event id event).at db);
    }

announce_again :
    (a : Arena) (m : MatchRow) (f : JudgeFailure) (at : Option ℕ) (db : Db)
    → find (is_match m.id) db.matches ≡ some m
    → f.is_retryable ≡ true
    → ((announce_failure a m f at db).0 ≡ ok tt)
      × ((announce_failure a m f at db).1.evaluations ≡ db.evaluations)
unfolding announce_failure ◌>>=◌ pure
announce_again a m f at db found again =
    let e = append_event-IsAppended m.id (Event.judge_failed at f.is_retryable) db m found in
    ground (arith, e.returns, e.same_evaluations, again)

-- The database after the row is written.
abbrev written : Arena → Claim → JudgeFailure → Db → Db
written a c f db = record (tick db) {
  evaluations =
      update_first (is_held c.row.id c.claim) (failed_row f (some ((tick db).clock + delay a f)))
        db.evaluations;
}

fail_held_retryable :
    (a : Arena) (c : Claim) (m : MatchRow) (v : EvaluationRow) (f : JudgeFailure) (db : Db)
    → IsHolder c m v db
    → f.is_retryable ≡ true
    → ((fail_held a m c f db).0 ≡ ok tt)
      × (find (is_evaluation c.row.id) (fail_held a m c f db).1.evaluations
          ≡ some (failed_row f (some ((tick db).clock + delay a f)) v))
unfolding fail_held clock_timestamp on_evaluations ◌>>=◌ gets pure
fail_held_retryable a c m v f db h again =
    let t = tick-eq db in
    let same_id = find-is_match c.row.match_id db.matches m h.found_match in
    let found : find (is_match m.id) (written a c f db).matches ≡ some m =
      ap (λ d. find (is_match m.id) d.matches) t
      ∙ ap (λ i. find (is_match i) db.matches) same_id
      ∙ h.found_match in
    let e =
      announce_again a m f (some ((tick db).clock + delay a f)) (written a c f db) found again in
    let (row, held) =
      found_held c.row.id c.claim (failed_row f (some ((tick db).clock + delay a f))) db.evaluations
        v (λ w. refl) h.found_row h.held in
    let at : retry_at a f (tick db).clock ≡ some ((tick db).clock + delay a f) =
      ground (arith, again) in
    let run : fail_held a m c f db
        ≡ announce_failure a m f (some ((tick db).clock + delay a f)) (written a c f db) =
      ground (arith, t, held, at) in
    (
      ap (λ r. r.0) run ∙ e.0,
      ap (λ r. find (is_evaluation c.row.id) r.1.evaluations) run
          ∙ ap (find (is_evaluation c.row.id)) e.1
          ∙ row,
    )

-- If the holder of the claim hands in a failure that may be retried while the match is being judged,
-- then the call succeeds, and from the end of the delay on, the longer one when the budget was used up,
-- the evaluation is claimed by the first worker that asks, if nothing has happened to it in between.
pub persist_failure-IsClaimed :
    (a : Arena) (c : Claim) (m : MatchRow) (v : EvaluationRow) (f : JudgeFailure) (db later : Db)
    → IsHolder c m v db
    → f.is_retryable ≡ true
    → find (is_evaluation c.row.id) later.evaluations
      ≡ find (is_evaluation c.row.id) (persist_failure a c (some f) db).1.evaluations
    → (tick db).clock + delay a f ≤ (tick later).clock
    → ((persist_failure a c (some f) db).0 ≡ ok tt)
      × IsClaimed a c.row.id (failed_row f (some ((tick db).clock + delay a f)) v) later
unfolding persist_failure persist_failure_tx lock_arena_match begin ◌>>=◌ gets expect pure
persist_failure-IsClaimed a c m v f db later h again same late =
    let locked =
      find-arena_match c.row.match_id db.matches m (ground (arith, h.is_ai_ml)) h.found_match in
    let (done, row) = fail_held_retryable a c m v f db h again in
    let j = h.is_judged in
    let run : persist_failure a c (some f) db ≡ fail_held a m c f db =
      ground (arith, locked, j, done) in
    (
      ap (λ r. r.0) run ∙ done,
      claim_evaluation-IsClaimed a c.row.id _ later
          (same ∙ ap (λ r. find (is_evaluation c.row.id) r.1.evaluations) run ∙ row) again late,
    )
