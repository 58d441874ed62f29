-- ===== src/Arena/Leases.antt =====
-- When an evaluation can be claimed.
pub mod Lost
use leetbattle.Shared.{
  ℕ, suc, ◌+◌, ◌≤◌, ◌≡◌, refl, Bool, true, false, ◌&&◌, not, Option, some, none, List, [], ◌∷◌,
  find, any, update_first, nat_beq, leb, arith, is_none, ◌==◌, if◌then◌else◌,
}
use leetbattle.Domain.Types.{duel, mode_eq, judging, state_eq}
use leetbattle.Domain.Errors.{ok, err, domain_error, match_not_found, fault}
use leetbattle.Store.Rows.{Db, MatchRow}
use leetbattle.Store.Evaluations.{pending, in_progress, completed, failed, skipped, EvaluationRow}
use leetbattle.Store.Rollback.{IsUnwritten}
use leetbattle.Store.Clock.{tick, tick-eq}
use leetbattle.Store.Tx.{
  M, pure, raise, gets, guard, expect, begin, commit, continue, advance, ◌>>=◌, clock_timestamp,
  new_id, on_evaluations,
}
use leetbattle.Match.Config.{seconds}
use leetbattle.Arena.Config.{Arena}
use leetbattle.Arena.Commands.{lock_arena_match}
use leetbattle.Arena.Claims.{
  Claim, is_evaluation, may_claim, claim_row, is_held, take_claim, try_claim, claim_evaluation_tx,
  claim_evaluation,
}

-- Can the evaluation still be claimed?
abbrev pub is_claimable : EvaluationRow → Bool
is_claimable v = elim v.status [
  | pending ↦ true
  | in_progress ↦ true
  | completed ↦ false
  | failed ↦ v.failure_retryable
  | skipped ↦ false
]

abbrev pub after_lease : Arena → Option ℕ → ℕ
after_lease a none = 0
after_lease a (some time) = time + seconds a.stale_claim_seconds

abbrev pub after_wait : Option ℕ → ℕ
after_wait none = 0
after_wait (some time) = time

-- The time from which it can be claimed.
abbrev pub claimable_from : Arena → EvaluationRow → ℕ
claimable_from a v = elim v.status [
  | in_progress ↦ after_lease a v.claimed_at
  | failed ↦ after_wait v.retry_not_before
  | _ ↦ 0
]

may_claim_from :
    (a : Arena) (now : ℕ) (v : EvaluationRow)
    → is_claimable v ≡ true
    → claimable_from a v ≤ now
    → may_claim a now v ≡ true
may_claim_from a now v h le = ground arith

found_updated :
    (id : ℕ) (f : EvaluationRow → EvaluationRow) (vs : List EvaluationRow) (v : EvaluationRow)
    → ((w : EvaluationRow) → (f w).id ≡ w.id)
    → find (is_evaluation id) vs ≡ some v
    → find (is_evaluation id) (update_first (is_evaluation id) f vs) ≡ some (f v)
found_updated id f [] v same h = ground arith
found_updated id f (w ∷ vs) v same h =
    let rest = found_updated id f vs v same in let e = same w in ground (arith, rest, e)

-- What a successful claim of the evaluation gives.
pub record IsClaimed (a : Arena) (id : ℕ) (v : EvaluationRow) (db : Db) : Type 0 where
  pub time : ℕ
  pub after : Db
  pub returns :
      claim_evaluation a id db
      ≡ (ok (some (record { row = claim_row db.next_id time v; claim = db.next_id })), after)
  pub row : find (is_evaluation id) after.evaluations ≡ some (claim_row db.next_id time v)

take_claim-IsClaimed :
    (id c : ℕ) (db : Db) (v : EvaluationRow)
    → find (is_evaluation id) db.evaluations ≡ some v
    → db.next_id ≡ c
    → take_claim id db ≡ (
      ok (
          some (record {
            row = claim_row c (tick (record db { next_id = suc db.next_id })).clock v;
            claim = c;
          })),
      record (tick (record db { next_id = suc db.next_id })) {
        evaluations =
            update_first
              (is_evaluation id)
              (claim_row c (tick (record db { next_id = suc db.next_id })).clock)
              db.evaluations;
      },
    )
unfolding take_claim ◌>>=◌ new_id clock_timestamp on_evaluations gets pure
take_claim-IsClaimed id c db v found e =
    let t = tick-eq (record db { next_id = suc db.next_id }) in
    let f =
      found_updated id (claim_row c (tick (record db { next_id = suc db.next_id })).clock)
        db.evaluations v (λ w. refl) found in
    ground (arith, t, f)

-- An evaluation that is not settled and whose last failure, if it failed, may be retried is claimed
-- by the first worker that asks once the time has come: at once if it waits, when the lease of another
-- worker has run out, or when the delay after the failure is over. The call returns the row in progress
-- under a new claim, the failure cleared, and the table has that row.
pub claim_evaluation-IsClaimed :
    (a : Arena) (id : ℕ) (v : EvaluationRow) (db : Db)
    → find (is_evaluation id) db.evaluations ≡ some v
    → is_claimable v ≡ true
    → claimable_from a v ≤ (tick db).clock
    → IsClaimed a id v db
unfolding claim_evaluation claim_evaluation_tx try_claim begin ◌>>=◌ gets clock_timestamp
claim_evaluation-IsClaimed a id v db found h le =
    let t = tick-eq db in
    let may = may_claim_from a (tick db).clock v h le in
    let taken = take_claim-IsClaimed id db.next_id (tick db) v (rw t found) (rw t refl) in
    let row =
      found_updated id
        (claim_row db.next_id (tick (record (tick db) { next_id = suc (tick db).next_id })).clock)
        (tick db).evaluations v (λ w. refl) (rw t found) in
    record {
      time = (tick (record (tick db) { next_id = suc (tick db).next_id })).clock;
      after = (take_claim id (tick db)).1;
      returns = ground (arith, found, may, taken);
      row = ground (arith, row, taken);
    }
