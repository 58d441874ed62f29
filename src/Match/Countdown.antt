-- ===== src/Match/Countdown.antt =====
-- `advanceCountdown` and `processDueCountdowns` of match-engine.ts.
use leetbattle.Shared.{
  sort_by, take, ℕ, ◌+◌, max, min, Bool, true, false, not, ◌&&◌, Option, some, none, List, [], ◌∷◌,
  find, select, update, update_first, leb, nat_beq, ◌==◌, if◌then◌else◌, is_none, map,
}
use leetbattle.Domain.Types.{
  countdown, active, duel, ChallengeType, coding, ai_ml, state_eq, mode_eq, ProblemRef,
  AiMlQuestion,
}
use leetbattle.Domain.Errors.{fault}
use leetbattle.Store.Rows.{MatchRow, ParticipantRow, Event, coding_active, ai_ml_active}
use leetbattle.Store.Tx.{
  M, pure, gets, expect, begin, ◌>>=◌, ◌>>◌, clock_timestamp, on_matches, on_participants,
}
use leetbattle.Match.Config.{Engine, seconds}
use leetbattle.Match.Events.{is_match, append_event}
use leetbattle.Match.Locks.{lock_match}

-- `at <= now`, false on NULL.
abbrev pub is_due : ℕ → Option ℕ → Bool
is_due now none = false
is_due now (some at) = leb at now

abbrev pub get_or : ℕ → Option ℕ → ℕ
get_or d none = d
get_or d (some n) = n

abbrev pub is_due_countdown : ℕ → ℕ → MatchRow → Bool
is_due_countdown now id m = is_match id m && (m.state == countdown && is_due now m.starts_at)

abbrev pub activate : MatchRow → MatchRow
activate m = record m { state = active }

-- A participant who is away when a duel starts has from the start the time to come back.
abbrev pub start_grace : Engine → ℕ → ParticipantRow → ParticipantRow
start_grace e start p =
    let from = max (get_or start p.disconnected_at) start in
    record p {
      disconnected_at = some from;
      reconnect_deadline = some (from + seconds e.reconnect_grace_seconds);
    }

abbrev pub lacks_deadline : ℕ → ParticipantRow → Bool
lacks_deadline id p = nat_beq p.match_id id && (not p.connected && is_none p.reconnect_deadline)

unfoldable pub grace_at_start : Engine → MatchRow → M (Unit {0})
grace_at_start e m =
    if m.mode == duel
    then on_participants (update (lacks_deadline m.id) (start_grace e (get_or 0 m.starts_at)))
    else pure tt

abbrev pub question_of : Engine → Option ProblemRef → Option AiMlQuestion
question_of e none = none
question_of e (some p) = e.ai_ml_get p.problem p.version

unfoldable pub active_event : Engine → ChallengeType → MatchRow → M Event
active_event e coding advanced = pure (coding_active advanced.problem)
active_event e ai_ml advanced = do
  question ← expect (question_of e advanced.problem) fault
  pure (ai_ml_active question advanced.answer_deadline_at)

unfoldable pub start_match : Engine → MatchRow → Option MatchRow → M Bool
start_match e m none = pure false
start_match e m (some advanced) = do
  grace_at_start e m
  event ← active_event e m.challenge advanced
  append_event m.id event
  pure true

unfoldable pub try_advance : Engine → MatchRow → M Bool
try_advance e m = do
  now ← clock_timestamp
  advanced ← gets (λ db. find (is_due_countdown now m.id) db.matches)
  on_matches (update_first (is_due_countdown now m.id) activate)
  start_match e m advanced

unfoldable pub advance_countdown_tx : Engine → ℕ → M Bool
advance_countdown_tx e id = do
  m ← lock_match id
  if m.state == countdown then try_advance e m else pure false

unfoldable pub advance_countdown : Engine → ℕ → M Bool
advance_countdown e id = begin (advance_countdown_tx e id)

unfoldable pub advance_all : Engine → List ℕ → M ℕ
advance_all e [] = pure 0
advance_all e (id ∷ ids) = do
  advanced ← advance_countdown e id
  changed ← advance_all e ids
  pure (if advanced then changed + 1 else changed)

unfoldable pub process_due_countdowns : Engine → ℕ → M ℕ
process_due_countdowns e limit = do
  now ← clock_timestamp
  ids ← gets λ db.
      map (λ m. m.id)
        (take (max 1 (min 500 limit)) (
          sort_by (λ m. get_or 0 m.starts_at)
            (select (λ m. m.state == countdown && is_due now m.starts_at) db.matches)))
  advance_all e ids
