-- ===== src/Arena/Submission.antt =====
-- `submitAnswer` and `evaluate` of AiMlArenaService.
pub mod Refused
pub mod Placed
use leetbattle.Shared.{
  ℕ, Bool, true, false, ◌&&◌, Option, some, none, List, [], ◌∷◌, find, ltb, ◌==◌, is_none, is_some,
  if◌then◌else◌,
}
use leetbattle.Domain.Types.{active, state_eq}
use leetbattle.Domain.Errors.{
  ErrorCode, domain_error, answer_word_limit, answer_character_limit, answer_byte_limit,
  invalid_state, answer_deadline_passed, answer_already_submitted,
}
use leetbattle.Store.Evaluations.{player, AnswerRow}
use leetbattle.Store.Rows.{
  MatchRow, ParticipantRow, submit_ai_ml_answer, evaluation_response, answer_submitted,
}
use leetbattle.Store.Tx.{
  M, pure, raise, gets, guard, begin, ◌>>=◌, ◌>>◌, clock_timestamp, on_answers,
}
use leetbattle.Match.Config.{answer_payload}
use leetbattle.Match.Events.{append_event}
use leetbattle.Match.Locks.{require_actor, lock_participant}
use leetbattle.Match.Receipts.{Command, assert_idempotency_key, complete_command}
use leetbattle.Arena.Config.{Arena}
use leetbattle.Arena.Answer.{
  Measurement, Violation, too_many_words, too_many_characters, too_many_utf8_bytes, measure_answer,
  answer_limits,
}
use leetbattle.Arena.Commands.{lock_arena_match, reserve}
use leetbattle.Arena.Preparation.{is_answer_of, prepare_evaluation}
use leetbattle.Arena.Claims.{Claim, claim_evaluation}
use leetbattle.Arena.Judgment.{persist_success}
use leetbattle.Arena.Judgment.Resolution.{JudgeSuccess}
use leetbattle.Arena.Failure.{JudgeFailure, persist_failure}

-- What the judge answers; `failed none` is an error of another class.
pub data Reply : Type 0 where
  succeeded : JudgeSuccess → Reply
  failed : Option JudgeFailure → Reply

-- `judge.evaluate` of AiMlJudgeAdapter. While it is awaited, others may act on the database.
abbrev pub Judge : Type 0
Judge = Claim → M Reply

unfoldable pub persist : Arena → Claim → Reply → M Bool
persist a c (succeeded r) = persist_success a c r
persist a c (failed error) = do persist_failure a c error; pure false

unfoldable pub evaluate_claim : Arena → Judge → Option Claim → M Bool
evaluate_claim a judge none = pure false
evaluate_claim a judge (some c) = do reply ← judge c; persist a c reply

unfoldable pub evaluate : Arena → Judge → ℕ → M Bool
evaluate a judge id = do c ← claim_evaluation a id; evaluate_claim a judge c

abbrev pub limit_code : Violation → ErrorCode
limit_code too_many_words = answer_word_limit
limit_code too_many_characters = answer_character_limit
limit_code too_many_utf8_bytes = answer_byte_limit

unfoldable pub within_limits : List Violation → M (Unit {0})
within_limits [] = pure tt
within_limits (v ∷ vs) = raise (domain_error (limit_code v) 413)

pub record Prepared : Type 0 where
  pub evaluation : Option ℕ
  pub is_duplicate : Bool

abbrev pub submit_command : ℕ → ℕ → List ℕ → List ℕ → Command
submit_command user id key text = record {
  actor = user;
  key = key;
  command = submit_ai_ml_answer;
  match_id = some id;
  payload = answer_payload text;
}

abbrev pub player_answer : ℕ → ℕ → Measurement → ℕ → AnswerRow
player_answer id user measured now = record {
  match_id = id;
  user = user;
  text = measured.normalized;
  word_count = measured.word_count;
  character_count = measured.character_count;
  utf8_byte_count = measured.utf8_byte_count;
  source = player;
  submitted_at = now;
}

abbrev pub is_before : ℕ → Option ℕ → Bool
is_before now none = false
is_before now (some until) = ltb now until

-- The insertion fails on an answer of the same user in the match.
unfoldable pub lock_answer : ℕ → ℕ → Measurement → M (Unit {0})
lock_answer id user measured = do
  old ← gets (λ db. find (is_answer_of id user) db.answers)
  guard (is_none old) (domain_error answer_already_submitted 409)
  now ← clock_timestamp
  on_answers (λ ws. player_answer id user measured now ∷ ws)

unfoldable pub submit_fresh : Arena → MatchRow → ParticipantRow → List ℕ → Measurement → M Prepared
submit_fresh a m p key measured = do
  guard (m.state == active && is_some m.answer_deadline_at) (domain_error invalid_state 409)
  now ← clock_timestamp
  guard (is_before now m.answer_deadline_at) (domain_error answer_deadline_passed 409)
  lock_answer m.id p.user measured
  append_event m.id (answer_submitted p.slot)
  evaluation ← prepare_evaluation a m
  complete_command p.user key (evaluation_response evaluation)
  pure (record { evaluation = evaluation; is_duplicate = false })

unfoldable pub submit_answer_tx : Arena → ℕ → ℕ → List ℕ → Measurement → M Prepared
submit_answer_tx a user id key measured = do
  m ← lock_arena_match id
  p ← lock_participant id user
  duplicate ← reserve a (submit_command user id key measured.normalized)
  if duplicate
      then pure (record { evaluation = none; is_duplicate = true })
      else submit_fresh a m p key measured

unfoldable pub evaluate_prepared : Arena → Judge → Option ℕ → M (Unit {0})
evaluate_prepared a judge none = pure tt
evaluate_prepared a judge (some id) = do evaluate a judge id; pure tt

-- What comes before the evaluation.
unfoldable pub place_answer : Arena → Option ℕ → ℕ → List ℕ → List ℕ → M Prepared
place_answer a actor id key answer = do
  user ← require_actor actor
  assert_idempotency_key key
  let measured = measure_answer a.nfc answer_limits answer
  within_limits measured.violations
  begin (submit_answer_tx a user id key measured)

unfoldable pub submit_answer : Arena → Judge → Option ℕ → ℕ → List ℕ → List ℕ → M Prepared
submit_answer a judge actor id key answer = do
  prepared ← place_answer a actor id key answer
  evaluate_prepared a judge prepared.evaluation
  pure prepared
