-- ===== src/Arena/Preparation.antt =====
-- `prepareEvaluationTx` of AiMlArenaService.
use leetbattle.Shared.{
  ℕ, Bool, true, false, not, ◌&&◌, Option, some, none, List, [], ◌∷◌, String, length, find, any,
  all, select, update_first, get_elem?, map, nat_beq, ◌==◌, list_eq, nat_eq, sort_by, if◌then◌else◌,
}
use mathlib.Core.List.{reverse}
use leetbattle.Domain.Types.{
  MatchMode, duel, practice, mode_eq, active, judging, state_eq, EndReason, answer_timeout, Slot,
  ProblemRef,
}
use leetbattle.Domain.Errors.{domain_error, fault, judge_unavailable}
use leetbattle.Judge.Scoring.Types.{JsNumber, whole, other, Criterion}
use leetbattle.Store.Evaluations.{
  Source, player, deadline, AnswerRow, QuestionRow, PromptRow, RubricCriterion, Material,
  EvaluationSnapshot, pending, EvaluationRow,
}
use leetbattle.Store.Rows.{MatchRow, ParticipantRow, judging_started}
use leetbattle.Store.Tx.{
  M, pure, gets, guard, expect, ◌>>=◌, ◌>>◌, clock_timestamp, new_id, on_matches, on_evaluations,
}
use leetbattle.Match.Events.{is_match, append_event}
use leetbattle.Match.Snapshot.{by_slot}
use leetbattle.Arena.Config.{Arena}
use leetbattle.Arena.Material.{parse_private_material}
use leetbattle.Arena.Endings.{finalize_skipped}

-- ArenaAnswerRow.
pub record Answer : Type 0 where
  pub user : ℕ
  pub slot : Slot
  pub text : List ℕ
  pub source : Source

abbrev pub is_answer_of : ℕ → ℕ → AnswerRow → Bool
is_answer_of id user w = nat_beq w.match_id id && nat_beq w.user user

abbrev pub with_answer : ParticipantRow → Option AnswerRow → List Answer → List Answer
with_answer p none rest = rest
with_answer p (some w) rest =
    record { user = p.user; slot = p.slot; text = w.text; source = w.source } ∷ rest

abbrev pub join_answers : List AnswerRow → List ParticipantRow → List Answer
join_answers ws [] = []
join_answers ws (p ∷ ps) =
    with_answer p (find (is_answer_of p.match_id p.user) ws) (join_answers ws ps)

abbrev pub expected_answers : MatchMode → ℕ
expected_answers practice = 1
expected_answers duel = 2

abbrev pub is_question : ProblemRef → QuestionRow → Bool
is_question p q = nat_beq q.question p.problem && nat_beq q.version p.version

abbrev pub first_prompt : List PromptRow → Option PromptRow
first_prompt [] = none
first_prompt (p ∷ ps) = some p

-- ORDER BY version DESC LIMIT 1.
abbrev pub newest_prompt : List PromptRow → Option PromptRow
newest_prompt ps = first_prompt (reverse (sort_by (λ p. p.version) (select (λ p. p.is_active) ps)))

-- The anonymous answer A: an index out of range is a throw.
abbrev pub answer_at : JsNumber → List Answer → Option Answer
answer_at (whole i) ws = get_elem? ws i
answer_at other ws = none

-- Of a duel, the answer of the other player; `none` is a throw.
abbrev pub answer_b_of : MatchMode → Answer → List Answer → Option (Option Answer)
answer_b_of practice a ws = some none
answer_b_of duel a ws = elim (find (λ w. not (nat_beq w.user a.user)) ws) [
  | none ↦ none
  | some w ↦ some (some w)
]

abbrev pub text_of : Option Answer → Option (List ℕ)
text_of none = none
text_of (some w) = some w.text

abbrev pub user_of : Option Answer → Option ℕ
user_of none = none
user_of (some w) = some w.user

abbrev pub instructions_of : MatchMode → PromptRow → String
instructions_of duel p = p.duel_instructions
instructions_of practice p = p.practice_instructions

abbrev pub judged_criterion : RubricCriterion → Criterion
judged_criterion c = record { criterion = c.criterion; max_score = c.weight }

abbrev pub snapshot_of :
    MatchMode → QuestionRow → PromptRow → Material → Answer → Option Answer → EvaluationSnapshot
snapshot_of mode q p material first second = record {
  scored = record {
    mode = mode;
    schema_version = p.schema_version;
    criteria = map judged_criterion material.criteria;
    answer_a = first.text;
    answer_b = text_of second;
  };
  instructions = instructions_of mode p;
  question = q.question;
  version = q.version;
  title = q.title;
  prompt = q.prompt;
  difficulty = q.difficulty;
  category = q.category;
  material = material;
}

abbrev pub fresh_evaluation :
    Arena → MatchRow → EvaluationSnapshot → Answer → Option Answer → ℕ → ℕ → EvaluationRow
fresh_evaluation a m snapshot first second id now = record {
  id = id;
  match_id = m.id;
  status = pending;
  snapshot = snapshot;
  answer_a_user = some first.user;
  answer_b_user = user_of second;
  requested_model = a.requested_model;
  attempt_count = 0;
  provider_attempts = [];
  worker_claim = none;
  claimed_at = none;
  started_at = none;
  retry_not_before = none;
  failure_code = none;
  failure_retryable = false;
  scores_a = [];
  scores_b = none;
  raw_a = none;
  raw_b = none;
  official_a = none;
  official_b = none;
  winner = none;
  tie_break_reason = none;
  classification = none;
  created_at = now;
  completed_at = none;
}

abbrev pub is_active_match : ℕ → MatchRow → Bool
is_active_match id m = is_match id m && m.state == active

abbrev pub to_judging : MatchRow → MatchRow
to_judging m = record m { state = judging }

abbrev pub is_late : Answer → Bool
is_late w = elim w.source [ deadline ↦ true | player ↦ false ]

abbrev pub blank_reason : List Answer → EndReason
blank_reason ws = if any is_late ws then answer_timeout else EndReason.no_contest

-- The evaluation that a judge is to be asked for: none if all answers are blank.
unfoldable pub start_judging :
    Arena → MatchRow → ℕ → List ParticipantRow → List Answer → M (Option ℕ)
start_judging a m id ps ws = do
  on_matches (update_first (is_active_match m.id) to_judging)
  append_event m.id judging_started
  if all (λ w. w.text == []) ws
      then (do finalize_skipped a m id ps (blank_reason ws); pure none)
      else pure (some id)

unfoldable pub insert_evaluation :
    Arena
    → MatchRow
    → List ParticipantRow
    → List Answer
    → EvaluationSnapshot
    → Answer
    → Option Answer
    → Option EvaluationRow
    → M (Option ℕ)
insert_evaluation a m ps ws snapshot first second (some old) = pure none
insert_evaluation a m ps ws snapshot first second none = do
  id ← new_id
  now ← clock_timestamp
  on_evaluations (λ vs. fresh_evaluation a m snapshot first second id now ∷ vs)
  start_judging a m id ps ws

unfoldable pub evaluate_answers :
    Arena → MatchRow → ProblemRef → List ParticipantRow → List Answer → M (Option ℕ)
evaluate_answers a m problem ps ws = do
  found_question ← gets (λ db. find (is_question problem) db.questions)
  found_prompt ← gets (λ db. newest_prompt db.prompts)
  question ← expect found_question (domain_error judge_unavailable 503)
  prompt ← expect found_prompt (domain_error judge_unavailable 503)
  material ← expect (parse_private_material question.private_material) fault
  first ← expect (answer_at (a.choose_answer_a_index (length ws)) ws) fault
  second ← expect (answer_b_of m.mode first ws) fault
  old ← gets (λ db. find (λ v. nat_beq v.match_id m.id) db.evaluations)
  insert_evaluation a m ps ws (snapshot_of m.mode question prompt material first second) first
      second old

unfoldable pub prepare_active : Arena → MatchRow → M (Option ℕ)
prepare_active a m = do
  problem ← expect m.problem fault
  guard (not (nat_beq problem.version 0)) fault
  ps ← gets (λ db. by_slot m.id db.participants)
  ws ← gets (λ db. join_answers db.answers ps)
  if nat_beq (length ps) (expected_answers m.mode) && nat_beq (length ws) (expected_answers m.mode)
      then evaluate_answers a m problem ps ws
      else pure none

unfoldable pub prepare_evaluation : Arena → MatchRow → M (Option ℕ)
prepare_evaluation a m = if m.state == active then prepare_active a m else pure none
