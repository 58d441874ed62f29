-- ===== src/Match/Snapshot.antt =====
-- `getSnapshot` and `getSnapshotByMatch` of match-engine.ts. The reads of a snapshot follow one
-- another with no transaction of another method between them.
pub mod Privacy
use leetbattle.Shared.{
  ℕ, Bool, true, false, not, ◌&&◌, ◌||◌, Option, some, none, List, [], ◌∷◌, ◌++◌, String, find,
  select, any, leb, nat_beq, ◌==◌, if◌then◌else◌, is_none, is_some, map, option_eq, nat_eq,
}
use mathlib.Core.Option
use leetbattle.Domain.Types.{
  Difficulty, MatchMode, ChallengeType, coding, ai_ml, MatchState, active, EndReason, Language,
  Activity, thinking, cooldown, submitted, Outcome, Slot, one, two, ProblemRef, AiMlQuestion,
  state_eq, challenge_eq, activity_eq, slot_eq,
}
use leetbattle.Domain.Types
use leetbattle.Domain.Errors.{domain_error, match_not_found, not_a_participant}
use leetbattle.Store.Rows.{Db, MatchRow, ParticipantRow, ProfileRow, VoteRow}
use leetbattle.Store.Evaluations.{AnswerRow, EvaluationRow, EvaluationStatus, pending, in_progress}
use leetbattle.Store.Tx.{M, pure, gets, expect, guard, ◌>>=◌, ◌>>◌, clock_timestamp}
use leetbattle.Match.Config.{Engine}
use leetbattle.Match.Events.{is_match}
use leetbattle.Match.Locks.{
  require_actor, assert_match_participant, assert_room_membership, is_participant,
}
use leetbattle.Match.Countdown.{advance_countdown, question_of, is_due}

-- PlayerSnapshot of types.ts.
pub record PlayerSnapshot : Type 0 where
  pub username : String
  pub slot : Slot
  pub is_self : Bool
  pub language : Option Language
  pub ready : Bool
  pub connected : Bool
  pub activity : Activity
  pub best_passed_count : ℕ
  pub hidden_test_count : Option ℕ
  pub cooldown_until : Option ℕ
  pub outcome : Option Outcome
  pub submitted_at : Option ℕ

pub data JudgeStatus : Type 0 where
  idle judging failed completed skipped : JudgeStatus

-- MatchSnapshot of types.ts.
pub record MatchSnapshot : Type 0 where
  pub room_id : ℕ
  pub match_id : ℕ
  pub challenge : ChallengeType
  pub mode : MatchMode
  pub round_number : ℕ
  pub difficulty : Difficulty
  pub state : MatchState
  pub version : ℕ
  pub server_timestamp : ℕ
  pub starts_at : Option ℕ
  pub answer_deadline_at : Option ℕ
  pub finished_at : Option ℕ
  pub rematch_deadline : Option ℕ
  pub end_reason : Option EndReason
  pub winner_username : Option String
  pub problem : Option ProblemRef
  pub question : Option AiMlQuestion
  pub judge_status : JudgeStatus
  pub retry_at : Option ℕ
  pub players : List PlayerSnapshot
  pub rematch_votes : List Slot
  pub rematch_created : Option ℕ

-- A participant joined with the profile and the answer.
pub record Player : Type 0 where
  pub row : ParticipantRow
  pub username : String
  pub submitted_at : Option ℕ

-- A cooldown that is over reads as thinking.
abbrev pub shown_activity : ℕ → ParticipantRow → Activity
shown_activity now p =
    if p.activity == cooldown && is_due now p.cooldown_until then thinking else p.activity

abbrev pub answer_of : List AnswerRow → ParticipantRow → Option ℕ
answer_of answers p =
    Option.map (λ a. a.submitted_at)
      (find (λ a. nat_beq a.match_id p.match_id && nat_beq a.user p.user) answers)

abbrev pub join_profile :
    ℕ → List AnswerRow → ParticipantRow → Option ProfileRow → List Player → List Player
join_profile now answers p none rest = rest
join_profile now answers p (some profile) rest =
    record {
      row = record p { activity = shown_activity now p };
      username = profile.username;
      submitted_at = answer_of answers p;
    }
    ∷ rest

unfoldable pub join_players : ℕ → Db → List ParticipantRow → List Player
join_players now db [] = []
join_players now db (p ∷ ps) =
    join_profile now db.answers p (find (λ f. nat_beq f.user p.user) db.profiles)
      (join_players now db ps)

-- `WHERE match_id = id ORDER BY slot`.
abbrev pub by_slot : ℕ → List ParticipantRow → List ParticipantRow
by_slot id ps =
    select (λ p. nat_beq p.match_id id && p.slot == one) ps
    ++ select (λ p. nat_beq p.match_id id && p.slot == two) ps

abbrev pub can_reveal_problem : MatchRow → Bool
can_reveal_problem m =
    m.state == active || m.state == MatchState.judging || not (is_none m.finished_at)

abbrev pub shown_problem : MatchRow → Option ProblemRef
shown_problem m = if can_reveal_problem m && m.challenge == coding then m.problem else none

abbrev pub shown_question : Engine → MatchRow → Option AiMlQuestion
shown_question e m =
    if can_reveal_problem m && m.challenge == ai_ml then question_of e m.problem else none

abbrev pub judge_status_of : Option EvaluationRow → JudgeStatus
judge_status_of none = idle
judge_status_of (some v) = elim v.status [
  | pending ↦ JudgeStatus.judging
  | in_progress ↦ JudgeStatus.judging
  | EvaluationStatus.completed ↦ JudgeStatus.completed
  | EvaluationStatus.failed ↦ JudgeStatus.failed
  | EvaluationStatus.skipped ↦ JudgeStatus.skipped
]

-- Only an AI/ML match has an evaluation.
abbrev pub evaluation_of : MatchRow → List EvaluationRow → Option EvaluationRow
evaluation_of m vs = if m.challenge == ai_ml then find (λ v. nat_beq v.match_id m.id) vs else none

abbrev pub retry_of : Option EvaluationRow → Option ℕ
retry_of none = none
retry_of (some v) = v.retry_not_before

abbrev pub player_snapshot : ℕ → MatchRow → Player → PlayerSnapshot
player_snapshot user m p = record {
  username = p.username;
  slot = p.row.slot;
  is_self = nat_beq p.row.user user;
  language = p.row.language;
  ready = not (is_none p.row.ready_at);
  connected = p.row.connected;
  activity =
      if m.challenge == ai_ml && (is_some p.submitted_at && m.state == active)
      then submitted
      else p.row.activity;
  best_passed_count = p.row.best_passed_count;
  hidden_test_count = p.row.hidden_test_count;
  cooldown_until = p.row.cooldown_until;
  outcome = p.row.outcome;
  submitted_at = if nat_beq p.row.user user then p.submitted_at else none;
}

abbrev pub has_voted : ℕ → List VoteRow → Player → Bool
has_voted id votes p = any (λ v. nat_beq v.match_id id && nat_beq v.user p.row.user) votes

abbrev pub winner_name : Option ℕ → List Player → Option String
winner_name winner players =
    Option.map (λ p. p.username) (find (λ p. some p.row.user == winner) players)

unfoldable pub snapshot_of : Engine → ℕ → ℕ → MatchRow → List Player → Db → MatchSnapshot
snapshot_of e user now m players db = record {
  room_id = m.room_id;
  match_id = m.id;
  challenge = m.challenge;
  mode = m.mode;
  round_number = m.round_number;
  difficulty = m.difficulty;
  state = m.state;
  version = m.version;
  server_timestamp = now;
  starts_at = m.starts_at;
  answer_deadline_at =
      if m.challenge == ai_ml && can_reveal_problem m then m.answer_deadline_at else none;
  finished_at = m.finished_at;
  rematch_deadline = m.rematch_deadline;
  end_reason = m.end_reason;
  winner_username = winner_name m.winner players;
  problem = shown_problem m;
  question = shown_question e m;
  judge_status = judge_status_of (evaluation_of m db.evaluations);
  retry_at = retry_of (evaluation_of m db.evaluations);
  players = map (player_snapshot user m) players;
  rematch_votes = map (λ p. p.row.slot) (select (has_voted m.id db.votes) players);
  rematch_created = m.rematch_created;
}

unfoldable pub get_snapshot_by_match : Engine → Option ℕ → ℕ → M MatchSnapshot
get_snapshot_by_match e actor id = do
  user ← require_actor actor
  assert_match_participant actor id
  advance_countdown e id
  now ← clock_timestamp
  found ← gets (λ db. find (is_match id) db.matches)
  m ← expect found (domain_error match_not_found 404)
  later ← clock_timestamp
  players ← gets (λ db. join_players later db (by_slot id db.participants))
  guard (any (λ p. nat_beq p.row.user user) players) (domain_error not_a_participant 403)
  gets (snapshot_of e user now m players)

unfoldable pub get_snapshot : Engine → Option ℕ → ℕ → M MatchSnapshot
get_snapshot e actor room = do
  membership ← assert_room_membership actor room
  id ← expect membership.match_id (domain_error match_not_found 404)
  get_snapshot_by_match e actor id
