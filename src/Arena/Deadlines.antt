-- ===== src/Arena/Deadlines.antt =====
-- `processAnswerDeadlineForMatch` and `processDueAnswerDeadlines` of AiMlArenaService.
pub mod Missing
pub mod Answered
use leetbattle.Shared.{
  ℕ, ◌+◌, min, max, Bool, true, false, ◌&&◌, Option, some, none, List, [], ◌∷◌, find, select, map,
  leb, is_none, sort_by, take, ◌==◌, if◌then◌else◌,
}
use leetbattle.Domain.Types.{ai_ml, challenge_eq, active, state_eq}
use leetbattle.Store.Evaluations.{deadline, AnswerRow}
use leetbattle.Store.Rows.{MatchRow, ParticipantRow, answer_timed_out}
use leetbattle.Store.Tx.{M, pure, gets, begin, ◌>>=◌, ◌>>◌, clock_timestamp, on_answers}
use leetbattle.Match.Events.{append_event}
use leetbattle.Match.Snapshot.{by_slot}
use leetbattle.Match.Countdown.{is_due, get_or}
use leetbattle.Arena.Config.{Arena}
use leetbattle.Arena.Commands.{lock_arena_match}
use leetbattle.Arena.Preparation.{is_answer_of, prepare_evaluation}
use leetbattle.Arena.Submission.{Judge, evaluate_prepared}

pub record Processed : Type 0 where
  pub is_processed : Bool
  pub evaluation : Option ℕ

abbrev pub deadline_answer : ℕ → ℕ → ParticipantRow → AnswerRow
deadline_answer id until p = record {
  match_id = id;
  user = p.user;
  text = [];
  word_count = 0;
  character_count = 0;
  utf8_byte_count = 0;
  source = deadline;
  submitted_at = until;
}

abbrev pub is_missing : List AnswerRow → ParticipantRow → Bool
is_missing ws p = is_none (find (is_answer_of p.match_id p.user) ws)

-- ON CONFLICT DO NOTHING.
abbrev pub add_answer : ℕ → ℕ → ParticipantRow → List AnswerRow → List AnswerRow
add_answer id until p ws =
    if is_none (find (is_answer_of id p.user) ws) then deadline_answer id until p ∷ ws else ws

unfoldable pub time_out_players : ℕ → ℕ → List ParticipantRow → M (Unit {0})
time_out_players id until [] = pure tt
time_out_players id until (p ∷ ps) = do
  on_answers (add_answer id until p)
  append_event id (answer_timed_out p.slot)
  time_out_players id until ps

unfoldable pub process_deadline : Arena → MatchRow → Option ℕ → M Processed
process_deadline a m none = pure (record { is_processed = false; evaluation = none })
process_deadline a m (some until) = do
  now ← clock_timestamp
  if leb until now
      then (do
        missing ← gets (λ db. select (is_missing db.answers) (by_slot m.id db.participants))
        time_out_players m.id until missing
        evaluation ← prepare_evaluation a m
        pure (record { is_processed = true; evaluation = evaluation }))
      else pure (record { is_processed = false; evaluation = none })

unfoldable pub process_deadline_tx : Arena → ℕ → M Processed
process_deadline_tx a id = do
  m ← lock_arena_match id
  if m.state == active
      then process_deadline a m m.answer_deadline_at
      else pure (record { is_processed = false; evaluation = none })

-- `evaluateImmediately` as the last argument.
unfoldable pub process_answer_deadline_for_match : Arena → Judge → ℕ → Bool → M Bool
process_answer_deadline_for_match a judge id immediately = do
  processed ← begin (process_deadline_tx a id)
  evaluate_prepared a judge (if immediately then processed.evaluation else none)
  pure processed.is_processed

unfoldable pub process_all_deadlines : Arena → Judge → Bool → List ℕ → M ℕ
process_all_deadlines a judge immediately [] = pure 0
process_all_deadlines a judge immediately (id ∷ ids) = do
  one ← process_answer_deadline_for_match a judge id immediately
  rest ← process_all_deadlines a judge immediately ids
  pure (if one then rest + 1 else rest)

abbrev pub is_overdue : ℕ → MatchRow → Bool
is_overdue now m = m.challenge == ai_ml && (m.state == active && is_due now m.answer_deadline_at)

unfoldable pub process_due_answer_deadlines : Arena → Judge → ℕ → Bool → M ℕ
process_due_answer_deadlines a judge limit immediately = do
  now ← clock_timestamp
  ids ← gets λ db.
      map (λ m. m.id)
        (take (max 1 (min 500 limit)) (
          sort_by (λ m. get_or 0 m.answer_deadline_at)
            (sort_by (λ m. m.id) (select (is_overdue now) db.matches))))
  process_all_deadlines a judge immediately ids
