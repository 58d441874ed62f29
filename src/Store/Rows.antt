-- ===== src/Store/Rows.antt =====
-- The rows of the tables, with the columns that the services read. Identifiers are numbers, a time
-- is a number of microseconds, a duration of a program a number of thousandths of a millisecond,
-- and a text of which only the code units count is their list.
use leetbattle.Shared.{ℕ, Bool, true, false, Option, List, String}
use leetbattle.Domain.Types.{
  Difficulty, Language, MatchMode, ChallengeType, MatchState, EndReason, Verdict, ExecutionKind,
  Activity, Outcome, Slot, ProblemRef, AiMlQuestion,
}
use leetbattle.Judge.Scoring.Types.{TieBreak}
use leetbattle.Store.Evaluations.{AnswerRow, QuestionRow, PromptRow, EvaluationRow}

-- MatchRow of match-engine.ts. The three columns of the problem are null together.
pub record MatchRow : Type 0 where
  pub id : ℕ
  pub room_id : ℕ
  pub challenge : ChallengeType
  pub mode : MatchMode
  pub round_number : ℕ
  pub previous_match : Option ℕ
  pub state : MatchState
  pub difficulty : Difficulty
  pub problem : Option ProblemRef
  pub starts_at : Option ℕ
  pub answer_deadline_at : Option ℕ
  pub finished_at : Option ℕ
  pub rematch_deadline : Option ℕ
  pub rematch_created : Option ℕ
  pub winner : Option ℕ
  pub end_reason : Option EndReason
  pub records_applied : Bool
  pub version : ℕ

-- ParticipantRow of match-engine.ts.
pub record ParticipantRow : Type 0 where
  pub match_id : ℕ
  pub user : ℕ
  pub slot : Slot
  pub language : Option Language
  pub ready_at : Option ℕ
  pub activity : Activity
  pub best_passed_count : ℕ
  pub hidden_test_count : Option ℕ
  pub cooldown_until : Option ℕ
  pub last_sample_run_at : Option ℕ
  pub active_execution : Option ℕ
  pub connected : Bool
  pub disconnected_at : Option ℕ
  pub reconnect_deadline : Option ℕ
  pub outcome : Option Outcome

pub data ExecutionStatus : Type 0 where
  queued running completed : ExecutionStatus

abbrev pub is_completed : ExecutionStatus → Bool
is_completed completed = true
is_completed _ = false

-- The stored summary of a result; `details` stands for what the runner shows of a sample run.
pub record Summary : Type 0 where
  pub verdict : Verdict
  pub passed_count : ℕ
  pub total_count : ℕ
  pub runtime : Option ℕ
  pub compile : Option ℕ
  pub cooldown_until : Option ℕ
  pub details : Option ℕ

pub record ExecutionRow : Type 0 where
  pub id : ℕ
  pub match_id : ℕ
  pub user : ℕ
  pub key : List ℕ
  pub kind : ExecutionKind
  pub language : Language
  pub source_hash : ℕ
  pub source_bytes : ℕ
  pub received_at : ℕ
  pub sequence : ℕ
  pub status : ExecutionStatus
  pub attempts : ℕ
  pub result : Option Summary
  pub created_at : ℕ

-- The events of a match, with their payloads.
pub data Event : Type 0 where
  match_created : Difficulty → MatchMode → ChallengeType → ℕ → Option ℕ → Event
  player_joined : Slot → Event
  language_changed : Slot → Language → Event
  ready_changed : Slot → Bool → Event
  countdown_started : Option ℕ → MatchMode → Event
  coding_active : Option ProblemRef → Event
  ai_ml_active : AiMlQuestion → Option ℕ → Event
  execution_started : Slot → ExecutionKind → Event
  execution_progress : Slot → ExecutionKind → Activity → Event
  run_completed : Slot → Activity → Event
  submit_completed : Slot → Bool → ℕ → ℕ → Activity → Option ℕ → Event
  match_finished : EndReason → Option Slot → Event
  rematch_opened : ℕ → Event
  rematch_voted : Slot → Event
  rematch_created : ℕ → ℕ → Event
  connection_changed : Slot → Bool → Option ℕ → Event
  answer_submitted : Slot → Event
  answer_timed_out : Slot → Event
  judging_started : Event
  automatic_resolution : MatchMode → List Slot → Event
  judge_failed : Option ℕ → Bool → Event
  judgment_completed : List (Slot × ℕ) → Option Slot → TieBreak → Bool → Event

pub record EventRow : Type 0 where
  pub match_id : ℕ
  pub version : ℕ
  pub event : Event
  pub server_timestamp : ℕ

pub data CommandType : Type 0 where
  create_room join_room set_language set_ready cancel_match run submit rematch_vote forfeit_match :
      CommandType
  submit_ai_ml_answer retry_ai_ml_judging : CommandType

abbrev pub command_code : CommandType → ℕ
command_code create_room = 0
command_code join_room = 1
command_code set_language = 2
command_code set_ready = 3
command_code cancel_match = 4
command_code run = 5
command_code submit = 6
command_code rematch_vote = 7
command_code forfeit_match = 8
command_code submit_ai_ml_answer = 9
command_code retry_ai_ml_judging = 10

-- The response stored with a command.
pub data Response : Type 0 where
  room_response : ℕ → ℕ → Response
  match_response : ℕ → Response
  execution_response : ℕ → Response
  ok_response : Response
  evaluation_response : Option ℕ → Response

pub record ReceiptRow : Type 0 where
  pub actor : ℕ
  pub key : List ℕ
  pub command : CommandType
  pub match_id : Option ℕ
  pub payload_hash : ℕ
  pub response : Option Response
  pub completed_at : Option ℕ

pub record RoomRow : Type 0 where
  pub id : ℕ
  pub token_hash : ℕ
  pub host : ℕ
  pub difficulty : Difficulty
  pub mode : MatchMode
  pub challenge : ChallengeType
  pub active_match : Option ℕ
  pub closed_at : Option ℕ

pub record MemberRow : Type 0 where
  pub room_id : ℕ
  pub user : ℕ
  pub slot : Slot

pub record SessionRow : Type 0 where
  pub id : ℕ
  pub room_id : ℕ
  pub match_id : ℕ
  pub user : ℕ
  pub last_seen_at : ℕ
  pub disconnected_at : Option ℕ

pub record VoteRow : Type 0 where
  pub match_id : ℕ
  pub user : ℕ
  pub key : List ℕ

pub record RecordRow : Type 0 where
  pub user : ℕ
  pub wins : ℕ
  pub losses : ℕ

pub record ProfileRow : Type 0 where
  pub user : ℕ
  pub username : String

-- The database. `clock` is its clock, and `delays` the time that passes at each reading of it;
-- `next_id` and `next_sequence` stand for `gen_random_uuid` and `execution_server_sequence`.
pub record Db : Type 0 where
  pub profiles : List ProfileRow
  pub records : List RecordRow
  pub rooms : List RoomRow
  pub members : List MemberRow
  pub matches : List MatchRow
  pub participants : List ParticipantRow
  pub executions : List ExecutionRow
  pub events : List EventRow
  pub receipts : List ReceiptRow
  pub sessions : List SessionRow
  pub votes : List VoteRow
  pub answers : List AnswerRow
  pub evaluations : List EvaluationRow
  pub questions : List QuestionRow
  pub prompts : List PromptRow
  pub clock : ℕ
  pub delays : List ℕ
  pub next_id : ℕ
  pub next_sequence : ℕ
