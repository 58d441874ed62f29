-- ===== src/Match/Lobby.antt =====
-- `setLanguage` and `setReady` of match-engine.ts.
use mathlib.Core.List.{reverse}
use leetbattle.Shared.{
  sort_by, ℕ, ◌+◌, Bool, true, not, ◌&&◌, ◌||◌, Option, some, none, List, [], ◌∷◌, find, select,
  all, update_first, length, nat_beq, ltb, ◌==◌, if◌then◌else◌, is_none,
}
use leetbattle.Domain.Types.{
  Language, practice, coding, ai_ml, lobby, countdown, ProblemRef, mode_eq, challenge_eq, state_eq,
  difficulty_eq,
}
use leetbattle.Domain.Errors.{
  domain_error, invalid_state, invalid_challenge_type, language_required,
}
use leetbattle.Store.Evaluations.{QuestionRow}
use leetbattle.Store.Rows.{
  Db, MatchRow, ParticipantRow, CommandType, language_changed, ready_changed, countdown_started,
  ok_response,
}
use leetbattle.Store.Tx.{
  M, pure, gets, guard, lift, begin, ◌>>=◌, ◌>>◌, clock_timestamp, on_matches, on_participants,
}
use leetbattle.Match.Config.{Engine, language_payload, ready_payload, ms}
use leetbattle.Match.Receipts.{reserve_command, complete_command}
use leetbattle.Match.Events.{is_match, append_event}
use leetbattle.Match.Locks.{
  require_actor, lock_match, lock_participant, is_participant, is_live, has_live_presence,
}
use leetbattle.Match.Problems.{choose_problem}
use leetbattle.Match.Snapshot.{MatchSnapshot, get_snapshot_by_match, by_slot}

unfoldable pub change_language : MatchRow → ParticipantRow → Language → List ℕ → M (Unit {0})
change_language m p language key = do
  guard (m.state == lobby) (domain_error invalid_state 409)
  guard (not (m.challenge == ai_ml)) (domain_error invalid_challenge_type 409)
  on_participants (
      update_first (is_participant m.id p.user)
        (λ q. record q { language = some language; ready_at = none }))
  append_event m.id (language_changed p.slot language)
  complete_command p.user key ok_response

unfoldable pub set_language_tx : Engine → ℕ → ℕ → Language → List ℕ → M (Unit {0})
set_language_tx e user id language key = do
  m ← lock_match id
  p ← lock_participant id user
  r ← reserve_command e (record {
    actor = user;
    key = key;
    command = CommandType.set_language;
    match_id = some id;
    payload = language_payload language;
  })
  if r.duplicate then pure tt else change_language m p language key

unfoldable pub set_language : Engine → Option ℕ → ℕ → Language → List ℕ → M MatchSnapshot
set_language e actor id language key = do
  user ← require_actor actor
  begin (set_language_tx e user id language key)
  get_snapshot_by_match e actor id

abbrev pub has_choice : MatchRow → ParticipantRow → Bool
has_choice m p = m.challenge == ai_ml || not (is_none p.language)

-- All the players that the mode needs are there and ready.
abbrev pub all_ready : MatchRow → List ParticipantRow → Bool
all_ready m ps =
    nat_beq (length ps) (if m.mode == practice then 1 else 2)
    && all (λ p. not (is_none p.ready_at) && has_choice m p) ps

abbrev pub problem_id : Option ProblemRef → List ℕ → List ℕ
problem_id none rest = rest
problem_id (some p) rest = p.problem ∷ rest

abbrev pub problem_ids : List MatchRow → List ℕ
problem_ids [] = []
problem_ids (m ∷ ms) = problem_id m.problem (problem_ids ms)

abbrev pub is_earlier_round : MatchRow → MatchRow → Bool
is_earlier_round m r =
    nat_beq r.room_id m.room_id
    && (ltb r.round_number m.round_number
        && (r.challenge == m.challenge && r.difficulty == m.difficulty))

-- The problems of the earlier rounds of the room, the latest first.
pub previous_problems : MatchRow → Db → List ℕ
previous_problems m db =
    problem_ids (reverse (sort_by (λ r. r.round_number) (select (is_earlier_round m) db.matches)))

abbrev pub question_keys : List QuestionRow → List (ℕ × ℕ)
question_keys [] = []
question_keys (q ∷ qs) = (q.question, q.version) ∷ question_keys qs

abbrev pub active_questions : MatchRow → Db → List (ℕ × ℕ)
active_questions m db =
    question_keys (select (λ q. q.is_active && q.difficulty == m.difficulty) db.questions)

abbrev pub is_lobby : ℕ → MatchRow → Bool
is_lobby id m = is_match id m && m.state == lobby

abbrev pub to_countdown : Engine → ProblemRef → ℕ → MatchRow → MatchRow
to_countdown e problem now m =
    let starts = now + ms e.countdown_ms in
    record m {
      state = countdown;
      problem = some problem;
      starts_at = some starts;
      answer_deadline_at =
          if m.challenge == ai_ml then some (starts + ms e.answer_duration_ms) else none;
    }

unfoldable pub announce_countdown : MatchRow → Option MatchRow → M (Unit {0})
announce_countdown m none = pure tt
announce_countdown m (some r) = do append_event m.id (countdown_started r.starts_at m.mode); pure tt

unfoldable pub start_countdown : Engine → MatchRow → Bool → M (Unit {0})
start_countdown e m live = do
  guard live (domain_error invalid_state 409)
  used ← gets (previous_problems m)
  questions ← gets (active_questions m)
  problem ← lift (choose_problem e m.difficulty m.challenge used questions)
  now ← clock_timestamp
  waiting ← gets (λ db. find (is_lobby m.id) db.matches)
  on_matches (update_first (is_lobby m.id) (to_countdown e problem now))
  started ← gets (λ db. find (is_match m.id) db.matches)
  if is_none waiting then pure tt else announce_countdown m started

unfoldable pub start_if_ready : Engine → MatchRow → M (Unit {0})
start_if_ready e m = do
  now ← clock_timestamp
  ps ← gets (λ db. by_slot m.id db.participants)
  live ← gets (λ db. all (is_live now db.sessions) ps)
  if all_ready m ps then start_countdown e m live else pure tt

unfoldable pub change_ready : Engine → MatchRow → ParticipantRow → Bool → List ℕ → M (Unit {0})
change_ready e m p ready key = do
  guard (m.state == lobby) (domain_error invalid_state 409)
  guard (not (ready && (m.challenge == coding && is_none p.language)))
      (domain_error language_required 422)
  live ← if ready then has_live_presence m.id p.user else pure true
  guard live (domain_error invalid_state 409)
  now ← clock_timestamp
  on_participants (
      update_first (is_participant m.id p.user)
        (λ q. record q { ready_at = if ready then some now else none }))
  append_event m.id (ready_changed p.slot ready)
  start_if_ready e m
  complete_command p.user key ok_response

unfoldable pub set_ready_tx : Engine → ℕ → ℕ → Bool → List ℕ → M (Unit {0})
set_ready_tx e user id ready key = do
  m ← lock_match id
  p ← lock_participant id user
  r ← reserve_command e (record {
    actor = user;
    key = key;
    command = CommandType.set_ready;
    match_id = some id;
    payload = ready_payload ready;
  })
  if r.duplicate then pure tt else change_ready e m p ready key

unfoldable pub set_ready : Engine → Option ℕ → ℕ → Bool → List ℕ → M MatchSnapshot
set_ready e actor id ready key = do
  user ← require_actor actor
  begin (set_ready_tx e user id ready key)
  get_snapshot_by_match e actor id
