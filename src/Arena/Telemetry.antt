-- ===== src/Arena/Telemetry.antt =====
-- `safeAiMlJudgeAttemptTelemetry` of arena-service.ts: what is kept of the attempts of the judge.
use leetbattle.Shared.{
  ℕ, Bool, ◌&&◌, Option, some, none, List, length, leb, ltb, map, take, if◌then◌else◌,
}
use leetbattle.Judge.Scoring.Types.{JsNumber, whole, other}
use leetbattle.Store.Evaluations.{Classification, unknown, Telemetry}

-- AiMlJudgeAttemptMetadata. A text or a classification that is another value is `none`.
pub record Attempt : Type 0 where
  pub reservation : Option (List ℕ)
  pub attempt : JsNumber
  pub classification : Option Classification
  pub is_retryable : Bool
  pub latency_ms : JsNumber
  pub http_status : JsNumber
  pub response : Option (List ℕ)
  pub returned_model : Option (List ℕ)
  pub input_tokens : JsNumber
  pub output_tokens : JsNumber
  pub cached_tokens : JsNumber
  pub reasoning_tokens : JsNumber

abbrev pub safe_integer : JsNumber → Option ℕ
safe_integer (whole n) = if ltb n 9007199254740992 then some n else none
safe_integer other = none

abbrev pub between : ℕ → ℕ → JsNumber → Option ℕ
between low high (whole n) = if leb low n && leb n high then some n else none
between low high other = none

abbrev pub safe_text : Option (List ℕ) → ℕ → Option (List ℕ)
safe_text none maximum = none
safe_text (some s) maximum = if ltb 0 (length s) then some (take maximum s) else none

abbrev pub safe_classification : Option Classification → Classification
safe_classification (some c) = c
safe_classification none = unknown

abbrev pub safe_attempt : Attempt → Telemetry
safe_attempt a = record {
  reservation = safe_text a.reservation 128;
  attempt = between 1 3 a.attempt;
  classification = safe_classification a.classification;
  is_retryable = a.is_retryable;
  latency_ms = safe_integer a.latency_ms;
  http_status = between 100 599 a.http_status;
  response = safe_text a.response 255;
  returned_model = safe_text a.returned_model 255;
  input_tokens = safe_integer a.input_tokens;
  output_tokens = safe_integer a.output_tokens;
  cached_tokens = safe_integer a.cached_tokens;
  reasoning_tokens = safe_integer a.reasoning_tokens;
}

unfoldable pub safe_attempts : List Attempt → List Telemetry
safe_attempts attempts = map safe_attempt attempts
