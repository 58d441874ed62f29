-- ===== src/Arena/Config.antt =====
-- AiMlArenaOptions of arena-service.ts, with the normal form of texts and the hash of payloads.
use leetbattle.Shared.{ℕ, List}
use leetbattle.Judge.Scoring.Types.{JsNumber}
use leetbattle.Match.Config.{Payload}

pub record Arena : Type 0 where
  pub requested_model : ℕ
  pub rematch_window_seconds : ℕ
  pub recovery_rate_limit_seconds : ℕ
  pub budget_circuit_recovery_rate_limit_seconds : ℕ
  pub stale_claim_seconds : ℕ
  pub choose_answer_a_index : ℕ → JsNumber
  pub nfc : List ℕ → List ℕ
  pub hash_payload : Payload → ℕ
