-- ===== src/Match/Config.antt =====
-- The options of the engine and what it takes from elsewhere: the catalogs, the chooser, and the
-- hashes of node:crypto.
use leetbattle.Shared.{ℕ, ◌*◌, Bool, List, Option}
use leetbattle.Domain.Types.{
  Difficulty, Language, MatchMode, ChallengeType, ExecutionKind, ProblemRef, AiMlQuestion,
}

-- The payload of a command, of which a hash is stored.
pub data Payload : Type 0 where
  room_payload : Difficulty → Option MatchMode → Option ChallengeType → Payload
  join_payload : ℕ → Payload
  language_payload : Language → Payload
  ready_payload : Bool → Payload
  empty_payload : Payload
  execution_payload : ExecutionKind → ℕ → Payload
  answer_payload : List ℕ → Payload

-- MatchEngineOptions with the catalogs and the hashes.
pub record Engine : Type 0 where
  pub countdown_ms : ℕ
  pub reconnect_grace_seconds : ℕ
  pub rematch_window_seconds : ℕ
  pub sample_rate_limit_seconds : ℕ
  pub failed_submission_cooldown_seconds : ℕ
  pub max_source_bytes : ℕ
  pub answer_duration_ms : ℕ
  pub choose_index : ℕ → ℕ
  pub coding_problems : Difficulty → List ProblemRef
  pub ai_ml_problems : Difficulty → List ProblemRef
  pub ai_ml_get : ℕ → ℕ → Option AiMlQuestion
  pub invite_token : ℕ → List ℕ → List ℕ
  pub sha256 : List ℕ → ℕ
  pub hash_payload : Payload → ℕ

-- Durations in microseconds.
abbrev pub ms : ℕ → ℕ
ms n = n * 1000

abbrev pub seconds : ℕ → ℕ
seconds n = n * 1000000

-- REALTIME_SESSION_STALE_AFTER_SECONDS of realtime/timing.ts.
abbrev pub stale_after_seconds : ℕ
stale_after_seconds = 45
