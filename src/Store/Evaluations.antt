-- ===== src/Store/Evaluations.antt =====
-- The rows of ai_ml_answers, ai_ml_question_registry, ai_ml_judge_prompts and ai_ml_evaluations, with
-- the types of their columns. An answer is its code points.
use leetbattle.Shared.{ℕ, Bool, Option, List, String}
use leetbattle.Domain.Types.{Difficulty}
use leetbattle.Judge.Scoring.Types.{Snapshot, Score, TieBreak}
use leetbattle.Store.Json.{Json}

-- submission_source.
pub data Source : Type 0 where
  player deadline : Source

pub record AnswerRow : Type 0 where
  pub match_id : ℕ
  pub user : ℕ
  pub text : List ℕ
  pub word_count : ℕ
  pub character_count : ℕ
  pub utf8_byte_count : ℕ
  pub source : Source
  pub submitted_at : ℕ

pub record QuestionRow : Type 0 where
  pub question : ℕ
  pub version : ℕ
  pub title : String
  pub prompt : String
  pub difficulty : Difficulty
  pub category : String
  pub private_material : Json
  pub is_active : Bool

pub record PromptRow : Type 0 where
  pub version : ℕ
  pub duel_instructions : String
  pub practice_instructions : String
  pub schema_version : String
  pub is_active : Bool

-- A criterion of PrivateQuestionMaterial.
pub record RubricCriterion : Type 0 where
  pub criterion : String
  pub label : String
  pub description : String
  pub weight : ℕ

-- PrivateQuestionMaterial of arena-service.ts.
pub record Material : Type 0 where
  pub reference_answer_notes : String
  pub required_concepts : List String
  pub optional_nuances : List String
  pub serious_errors : List String
  pub criteria : List RubricCriterion

-- AiMlEvaluationSnapshot of contracts.ts; `scored` is what the scores depend on.
pub record EvaluationSnapshot : Type 0 where
  pub scored : Snapshot
  pub instructions : String
  pub question : ℕ
  pub version : ℕ
  pub title : String
  pub prompt : String
  pub difficulty : Difficulty
  pub category : String
  pub material : Material

-- AiMlJudgeAttemptClassification.
pub data Classification : Type 0 where
  success network timeout rate_limit provider_5xx provider_4xx refusal incomplete : Classification
  schema_invalid semantic_invalid configuration unknown : Classification

-- What is kept of an attempt.
pub record Telemetry : Type 0 where
  pub reservation : Option (List ℕ)
  pub attempt : Option ℕ
  pub classification : Classification
  pub is_retryable : Bool
  pub latency_ms : Option ℕ
  pub http_status : Option ℕ
  pub response : Option (List ℕ)
  pub returned_model : Option (List ℕ)
  pub input_tokens : Option ℕ
  pub output_tokens : Option ℕ
  pub cached_tokens : Option ℕ
  pub reasoning_tokens : Option ℕ

pub data EvaluationStatus : Type 0 where
  pending in_progress completed failed skipped : EvaluationStatus

-- completion_classification.
pub data Completion : Type 0 where
  judged tie_break blank_forfeit blank_no_contest : Completion

-- AiMlJudgeFailureCode, and the code of any other failure.
pub data FailureCode : Type 0 where
  budget_circuit_open budget_accounting_failed network timeout rate_limit provider_5xx : FailureCode
  provider_4xx refusal incomplete schema_invalid semantic_invalid configuration unknown :
      FailureCode
  judge_request_failed : FailureCode

-- EvaluationRow, with the columns of the result. `failure_retryable` is that member of
-- failure_metadata.
pub record EvaluationRow : Type 0 where
  pub id : ℕ
  pub match_id : ℕ
  pub status : EvaluationStatus
  pub snapshot : EvaluationSnapshot
  pub answer_a_user : Option ℕ
  pub answer_b_user : Option ℕ
  pub requested_model : ℕ
  pub attempt_count : ℕ
  pub provider_attempts : List Telemetry
  pub worker_claim : Option ℕ
  pub claimed_at : Option ℕ
  pub started_at : Option ℕ
  pub retry_not_before : Option ℕ
  pub failure_code : Option FailureCode
  pub failure_retryable : Bool
  pub scores_a : List Score
  pub scores_b : Option (List Score)
  pub raw_a : Option ℕ
  pub raw_b : Option ℕ
  pub official_a : Option ℕ
  pub official_b : Option ℕ
  pub winner : Option ℕ
  pub tie_break_reason : Option TieBreak
  pub classification : Option Completion
  pub created_at : ℕ
  pub completed_at : Option ℕ
