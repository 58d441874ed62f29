-- ===== src/Match/Executions.antt =====
-- `startExecution` and `markExecutionRunning` of match-engine.ts.
pub mod Frame
pub mod Admission
use leetbattle.Shared.{
  ℕ, ◌+◌, Bool, true, false, not, ◌&&◌, Option, some, none, List, [], ◌∷◌, length, find,
  update_first, nat_beq, leb, ltb, ◌==◌, if◌then◌else◌, is_none, is_some, option_eq, nat_eq,
}
use leetbattle.Domain.Types.{
  Language, ExecutionKind, run, submit, coding, countdown, active, Activity, compiling, ProblemRef,
  state_eq, challenge_eq,
}
use leetbattle.Domain.Types
use leetbattle.Domain.Errors.{
  domain_error, retry_error, fault, source_too_large, invalid_challenge_type, invalid_state,
  idempotency_conflict, language_required, execution_in_progress, rate_limited, cooldown_active,
}
use leetbattle.Store.Rows.{
  Db, MatchRow, ParticipantRow, ExecutionRow, queued, running, is_completed, CommandType, Response,
  room_response, match_response, execution_response, ok_response, coding_active, execution_started,
  execution_progress,
}
use leetbattle.Store.Tx.{
  M, pure, raise, gets, guard, expect, begin, ◌>>=◌, ◌>>◌, clock_timestamp, new_id, next_sequence,
  on_matches, on_participants, on_executions,
}
use leetbattle.Match.Config.{Engine, execution_payload, seconds}
use leetbattle.Match.Receipts.{assert_idempotency_key, reserve_command, complete_command}
use leetbattle.Match.Events.{is_match, append_event}
use leetbattle.Match.Locks.{require_actor, lock_match, lock_participant, is_participant}
use leetbattle.Match.Countdown.{is_due, is_due_countdown, activate}

-- ExecutionRecord.
pub record ExecutionRecord : Type 0 where
  pub id : ℕ
  pub match_id : ℕ
  pub actor : ℕ
  pub kind : ExecutionKind
  pub language : Language
  pub problem : Option ProblemRef
  pub received_at : ℕ
  pub sequence : ℕ
  pub created : Bool

-- What a request brings, with its receipt.
pub record Ingress : Type 0 where
  pub user : ℕ
  pub key : List ℕ
  pub kind : ExecutionKind
  pub source_hash : ℕ
  pub source_bytes : ℕ
  pub received_at : ℕ
  pub sequence : ℕ

abbrev pub execution_of_response : Option Response → Option ℕ
execution_of_response (some (execution_response x)) = some x
execution_of_response _ = none

abbrev pub is_execution : ℕ → ExecutionRow → Bool
is_execution id x = nat_beq x.id id

unfoldable pub existing_execution : ℕ → ℕ → Option Response → M ExecutionRecord
existing_execution user id response = do
  execution ← expect (execution_of_response response) (domain_error idempotency_conflict 409)
  found ← gets (λ db. find (is_execution execution) db.executions)
  x ← expect found fault
  joined ← gets (λ db. find (is_match x.match_id) db.matches)
  m ← expect joined fault
  pure (record {
    id = x.id;
    match_id = id;
    actor = user;
    kind = x.kind;
    language = x.language;
    problem = m.problem;
    received_at = x.received_at;
    sequence = x.sequence;
    created = false;
  })

unfoldable pub announce_active : MatchRow → Option MatchRow → M MatchRow
announce_active m none = pure m
announce_active m (some advanced) = do
  append_event m.id (coding_active advanced.problem)
  pure (record m { state = active })

-- A countdown that is over is advanced here too.
unfoldable pub advance_due : MatchRow → M MatchRow
advance_due m = do
  now ← clock_timestamp
  advanced ← gets (λ db. find (is_due_countdown now m.id) db.matches)
  on_matches (update_first (is_due_countdown now m.id) activate)
  announce_active m advanced

-- `received_at >= starts_at`, false on NULL.
abbrev pub is_after_start : ℕ → MatchRow → Bool
is_after_start received_at m = is_due received_at m.starts_at

abbrev pub later_than : ℕ → Option ℕ → Option ℕ
later_than now none = none
later_than now (some t) = if ltb now t then some t else none

-- The time at which the limit of the kind ends, if it has not ended.
abbrev pub limited_until : Engine → ExecutionKind → ℕ → ParticipantRow → Option ℕ
limited_until e run now p = elim p.last_sample_run_at [
  | none ↦ none
  | some t ↦ later_than now (some (t + seconds e.sample_rate_limit_seconds))
]
limited_until e submit now p = later_than now p.cooldown_until

unfoldable pub check_limit : ExecutionKind → Option ℕ → M (Unit {0})
check_limit kind none = pure tt
check_limit run (some at) = raise (retry_error rate_limited 429 at)
check_limit submit (some at) = raise (retry_error cooldown_active 429 at)

abbrev pub limit_of : Engine → ExecutionKind → ℕ → Option ParticipantRow → Option ℕ
limit_of e kind now none = none
limit_of e kind now (some p) = limited_until e kind now p

abbrev pub fresh_execution : Ingress → ℕ → ℕ → Language → ℕ → ExecutionRow
fresh_execution i id match_id language now = record {
  id = id;
  match_id = match_id;
  user = i.user;
  key = i.key;
  kind = i.kind;
  language = language;
  source_hash = i.source_hash;
  source_bytes = i.source_bytes;
  received_at = i.received_at;
  sequence = i.sequence;
  status = queued;
  attempts = 0;
  result = none;
  created_at = now;
}

abbrev pub is_run : ExecutionKind → Bool
is_run run = true
is_run submit = false

abbrev pub start_compiling : ExecutionKind → ℕ → ℕ → ParticipantRow → ParticipantRow
start_compiling kind id now p = record p {
  active_execution = some id;
  activity = compiling;
  last_sample_run_at = if is_run kind then some now else p.last_sample_run_at;
}

unfoldable pub insert_execution : Ingress → MatchRow → ParticipantRow → Language → M ExecutionRecord
insert_execution i m p language = do
  id ← new_id
  created ← clock_timestamp
  on_executions (λ xs. fresh_execution i id m.id language created ∷ xs)
  now ← clock_timestamp
  on_participants (update_first (is_participant m.id i.user) (start_compiling i.kind id now))
  append_event m.id (execution_started p.slot i.kind)
  complete_command i.user i.key (execution_response id)
  pure (record {
    id = id;
    match_id = m.id;
    actor = i.user;
    kind = i.kind;
    language = language;
    problem = m.problem;
    received_at = i.received_at;
    sequence = i.sequence;
    created = true;
  })

unfoldable pub admit_execution : Engine → Ingress → MatchRow → ParticipantRow → M ExecutionRecord
admit_execution e i m p = do
  guard (m.state == active && is_some m.problem) (domain_error invalid_state 409)
  guard (is_after_start i.received_at m) (domain_error invalid_state 409)
  language ← expect p.language (domain_error language_required 409)
  guard (is_none p.active_execution) (domain_error execution_in_progress 409)
  now ← clock_timestamp
  row ← gets (λ db. find (is_participant m.id i.user) db.participants)
  check_limit i.kind (limit_of e i.kind now row)
  insert_execution i m p language

unfoldable pub start_reserved : Engine → Ingress → MatchRow → ParticipantRow → M ExecutionRecord
start_reserved e i m p = do
  current ← if m.state == countdown then advance_due m else pure m
  admit_execution e i current p

abbrev pub command_of : ExecutionKind → CommandType
command_of run = CommandType.run
command_of submit = CommandType.submit

-- The receipt is taken before the wait for the match row.
unfoldable pub start_execution_tx :
    Engine → ℕ → ℕ → List ℕ → ExecutionKind → ℕ → ℕ → M ExecutionRecord
start_execution_tx e user id key kind source_hash source_bytes = do
  received_at ← clock_timestamp
  sequence ← next_sequence
  m ← lock_match id
  p ← lock_participant id user
  guard (m.challenge == coding) (domain_error invalid_challenge_type 409)
  r ← reserve_command e (record {
    actor = user;
    key = key;
    command = command_of kind;
    match_id = some id;
    payload = execution_payload kind source_hash;
  })
  if r.duplicate
      then existing_execution user id r.response
      else start_reserved e
          (record {
            user = user;
            key = key;
            kind = kind;
            source_hash = source_hash;
            source_bytes = source_bytes;
            received_at = received_at;
            sequence = sequence;
          })
          m p

-- `source` is the list of the bytes of the source.
unfoldable pub start_execution :
    Engine → Option ℕ → ℕ → List ℕ → ExecutionKind → List ℕ → M ExecutionRecord
start_execution e actor id key kind source = do
  user ← require_actor actor
  assert_idempotency_key key
  guard (leb (length source) e.max_source_bytes) (domain_error source_too_large 413)
  begin (start_execution_tx e user id key kind (e.sha256 source) (length source))

abbrev pub is_open_execution : ℕ → ExecutionRow → Bool
is_open_execution id x = nat_beq x.id id && not (is_completed x.status)

-- The participant of the match who waits for the execution.
abbrev pub awaits : ℕ → ℕ → ℕ → ParticipantRow → Bool
awaits id user execution p = is_participant id user p && p.active_execution == some execution

abbrev pub running_activity : ExecutionKind → Activity
running_activity run = compiling
running_activity submit = Activity.judging

unfoldable pub show_progress : ExecutionRow → Option ParticipantRow → M (Unit {0})
show_progress x none = pure tt
show_progress x (some p) = do
  append_event x.match_id (execution_progress p.slot x.kind (running_activity x.kind))
  pure tt

unfoldable pub progress : ExecutionRow → M (Unit {0})
progress x = do
  waiting ← gets (λ db. find (awaits x.match_id x.user x.id) db.participants)
  on_participants (
      update_first (awaits x.match_id x.user x.id)
        (λ p. record p { activity = running_activity x.kind }))
  show_progress x waiting

unfoldable pub mark_found : MatchRow → Option ExecutionRow → M (Unit {0})
mark_found m none = pure tt
mark_found m (some x) = if m.state == active then progress x else pure tt

unfoldable pub mark_identified : ℕ → ℕ → Option ExecutionRow → M (Unit {0})
mark_identified id attempt none = pure tt
mark_identified id attempt (some identity) = do
  m ← lock_match identity.match_id
  execution ← gets (λ db. find (is_open_execution id) db.executions)
  on_executions
      (update_first (is_open_execution id) (λ x. record x { status = running; attempts = attempt }))
  mark_found m execution

unfoldable pub mark_execution_running_tx : ℕ → ℕ → M (Unit {0})
mark_execution_running_tx id attempt = do
  identity ← gets (λ db. find (is_execution id) db.executions)
  mark_identified id attempt identity

unfoldable pub mark_execution_running : ℕ → ℕ → M (Unit {0})
mark_execution_running id attempt = begin (mark_execution_running_tx id attempt)
