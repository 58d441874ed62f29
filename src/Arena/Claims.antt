-- ===== src/Arena/Claims.antt =====
-- `claimEvaluation` of AiMlArenaService: the lease of an evaluation.
use leetbattle.Shared.{
  ℕ, ◌+◌, Bool, true, false, ◌&&◌, Option, some, none, find, update_first, nat_beq, leb,
  if◌then◌else◌,
}
use leetbattle.Store.Evaluations.{pending, in_progress, completed, failed, skipped, EvaluationRow}
use leetbattle.Store.Tx.{M, pure, gets, begin, ◌>>=◌, ◌>>◌, clock_timestamp, new_id, on_evaluations}
use leetbattle.Match.Config.{seconds}
use leetbattle.Arena.Config.{Arena}

-- EvaluationRow & { claimId }.
pub record Claim : Type 0 where
  pub row : EvaluationRow
  pub claim : ℕ

abbrev pub is_evaluation : ℕ → EvaluationRow → Bool
is_evaluation id v = nat_beq v.id id

-- `time <= clock_timestamp() - age`.
abbrev pub is_stale : Arena → ℕ → Option ℕ → Bool
is_stale a now none = false
is_stale a now (some time) = leb (time + seconds a.stale_claim_seconds) now

abbrev pub is_free : Arena → ℕ → Option ℕ → Bool
is_free a now none = true
is_free a now (some time) = leb (time + seconds a.stale_claim_seconds) now

abbrev pub is_ready : ℕ → Option ℕ → Bool
is_ready now none = true
is_ready now (some time) = leb time now

-- May the evaluation be claimed at this time?
abbrev pub may_claim : Arena → ℕ → EvaluationRow → Bool
may_claim a now v = elim v.status [
  | pending ↦ true
  | in_progress ↦ is_free a now v.claimed_at
  | completed ↦ false
  | failed ↦ is_ready now v.retry_not_before && v.failure_retryable
  | skipped ↦ false
]

abbrev pub started : Option ℕ → ℕ → Option ℕ
started none now = some now
started (some time) now = some time

abbrev pub claim_row : ℕ → ℕ → EvaluationRow → EvaluationRow
claim_row claim now v = record v {
  status = in_progress;
  worker_claim = some claim;
  claimed_at = some now;
  retry_not_before = none;
  failure_code = none;
  failure_retryable = false;
  started_at = started v.started_at now;
}

unfoldable pub take_claim : ℕ → M (Option Claim)
take_claim id = do
  claim ← new_id
  now ← clock_timestamp
  on_evaluations (update_first (is_evaluation id) (claim_row claim now))
  found ← gets (λ db. find (is_evaluation id) db.evaluations)
  pure (elim found [ none ↦ none | some v ↦ some (record { row = v; claim = claim }) ])

unfoldable pub try_claim : Arena → ℕ → Option EvaluationRow → M (Option Claim)
try_claim a id none = pure none
try_claim a id (some v) = do
  now ← clock_timestamp
  if may_claim a now v then take_claim id else pure none

unfoldable pub claim_evaluation_tx : Arena → ℕ → M (Option Claim)
claim_evaluation_tx a id = do
  found ← gets (λ db. find (is_evaluation id) db.evaluations)
  try_claim a id found

unfoldable pub claim_evaluation : Arena → ℕ → M (Option Claim)
claim_evaluation a id = begin (claim_evaluation_tx a id)

-- `WHERE id = … AND status = 'IN_PROGRESS' AND worker_claim_id = …`.
abbrev pub is_held : ℕ → ℕ → EvaluationRow → Bool
is_held id claim v =
    nat_beq v.id id
    && ((elim v.status [ in_progress ↦ true | _ ↦ false ])
        && (elim v.worker_claim [ none ↦ false | some c ↦ nat_beq c claim ]))
