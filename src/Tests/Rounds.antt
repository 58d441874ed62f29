-- ===== src/Tests/Rounds.antt =====
-- An arena service and AI/ML duels of the users 1 and 2 in which a question is answered and judged.
use leetbattle.Shared.{ℕ, true, false, Option, some, none, List, [], ◌∷◌, String}
use leetbattle.Domain.Types.{MatchState, ai_ml, duel, easy}
use leetbattle.Judge.Scoring.Types.{whole, Snapshot, a, TieBreak}
use leetbattle.Store.Rows.{Db, MatchRow}
use leetbattle.Store.Evaluations.{
  player, AnswerRow, QuestionRow, PromptRow, RubricCriterion, Material, EvaluationSnapshot,
  EvaluationStatus, in_progress, FailureCode, EvaluationRow,
}
use leetbattle.Arena.Config.{Arena}
use leetbattle.Arena.Claims.{Claim}
use leetbattle.Arena.Failure.{JudgeFailure}
use leetbattle.Arena.Judgment.Resolution.{JudgeSuccess}
use leetbattle.Arena.Material.Rubric.{material_json}
use leetbattle.Tests.Fixtures.{hash, match_in, players, database}

abbrev pub arena : Arena
arena = record {
  requested_model = 1;
  rematch_window_seconds = 30;
  recovery_rate_limit_seconds = 30;
  budget_circuit_recovery_rate_limit_seconds = 300;
  stale_claim_seconds = 180;
  choose_answer_a_index = λ n. whole 0;
  nfc = λ cs. cs;
  hash_payload = hash;
}

abbrev pub criterion : String → ℕ → RubricCriterion
criterion name weight = record {
  criterion = name;
  label = name;
  description = "As the notes say";
  weight = weight;
}

abbrev pub material : Material
material = record {
  reference_answer_notes = "Bias and variance trade off";
  required_concepts = "bias" ∷ "variance" ∷ [];
  optional_nuances = [];
  serious_errors = "More data always helps" ∷ [];
  criteria =
      criterion "technical_correctness" 50
      ∷ criterion "completeness" 30
      ∷ criterion "clarity" 20
      ∷ [];
}

abbrev pub question : QuestionRow
question = record {
  question = 1;
  version = 1;
  title = "Overfitting";
  prompt = "Why does a model overfit?";
  difficulty = easy;
  category = "fundamentals";
  private_material = material_json material;
  is_active = true;
}

abbrev pub prompt : PromptRow
prompt = record {
  version = 2;
  duel_instructions = "Compare the answers";
  practice_instructions = "Score the answer";
  schema_version = "v1";
  is_active = true;
}

abbrev pub snapshot_with : Snapshot → EvaluationSnapshot
snapshot_with scored = record {
  scored = scored;
  instructions = "Compare the answers";
  question = 1;
  version = 1;
  title = "Overfitting";
  prompt = "Why does a model overfit?";
  difficulty = easy;
  category = "fundamentals";
  material = material;
}

-- The answers "a" and "b".
abbrev pub answers : Snapshot
answers = record {
  mode = duel;
  schema_version = "v1";
  criteria = [];
  answer_a = 97 ∷ [];
  answer_b = some (98 ∷ []);
}

abbrev pub evaluation : EvaluationStatus → Option ℕ → EvaluationRow
evaluation status claim = record {
  id = 40;
  match_id = 7;
  status = status;
  snapshot = snapshot_with answers;
  answer_a_user = some 1;
  answer_b_user = some 2;
  requested_model = 1;
  attempt_count = 0;
  provider_attempts = [];
  worker_claim = claim;
  claimed_at = none;
  started_at = none;
  retry_not_before = none;
  failure_code = none;
  failure_retryable = false;
  scores_a = [];
  scores_b = none;
  raw_a = none;
  raw_b = none;
  official_a = none;
  official_b = none;
  winner = none;
  tie_break_reason = none;
  classification = none;
  created_at = 800000;
  completed_at = none;
}

abbrev pub answer_of : ℕ → List ℕ → AnswerRow
answer_of user text = record {
  match_id = 7;
  user = user;
  text = text;
  word_count = 1;
  character_count = 1;
  utf8_byte_count = 1;
  source = player;
  submitted_at = 700000;
}

abbrev pub round_in : MatchState → ℕ → MatchRow
round_in s deadline = record (match_in s) { challenge = ai_ml; answer_deadline_at = some deadline }

abbrev pub round_with : MatchRow → List AnswerRow → List EvaluationRow → Db
round_with m ws vs = record (database m players []) {
  answers = ws;
  evaluations = vs;
  questions = question ∷ [];
  prompts = prompt ∷ [];
}

-- The worker 45 has the evaluation.
abbrev pub claim : Claim
claim = record { row = evaluation in_progress (some 45); claim = 45 }

abbrev pub judged : Db
judged =
    round_with (round_in MatchState.judging 900000)
      (answer_of 1 (97 ∷ []) ∷ answer_of 2 (98 ∷ []) ∷ []) (evaluation in_progress (some 45) ∷ [])

abbrev pub verdict : JudgeSuccess
verdict = record {
  scores_a = [];
  scores_b = some [];
  winner = some a;
  tie_break = TieBreak.none;
  raw_a = 70;
  raw_b = some 60;
  official_a = 70;
  official_b = some 60;
  attempt_count = 1;
  attempts = [];
}

abbrev pub failure : FailureCode → JudgeFailure
failure code = record { code = code; is_retryable = true; attempt_count = 3; attempts = [] }
