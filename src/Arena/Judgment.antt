-- ===== src/Arena/Judgment.antt =====
-- `persistSuccess` of AiMlArenaService: how a judgment ends a match.
pub mod Resolution
pub mod Ended
pub mod Written
pub mod Result
use leetbattle.Shared.{
  ℕ, ◌+◌, max, Bool, true, false, not, ◌&&◌, ◌||◌, Option, some, none, List, [], ◌∷◌, ◌++◌, find,
  any, update_first, map, nat_beq, ltb, ◌==◌, list_eq, option_eq, nat_eq, bool_eq, is_some, is_none,
  if◌then◌else◌,
}
use leetbattle.Domain.Types.{
  MatchMode, duel, practice, mode_eq, judging, state_eq, EndReason, judged, answer_timeout, Outcome,
  win, loss, draw, thinking, Slot,
}
use leetbattle.Domain.Errors.{fault}
use leetbattle.Judge.Scoring.Types.{Label, TieBreak, blank_forfeit, Score}
use leetbattle.Store.Evaluations.{
  Source, player, deadline, AnswerRow, completed, Completion, EvaluationRow, EvaluationSnapshot,
}
use leetbattle.Store.Rows.{MatchRow, ParticipantRow, judgment_completed, match_finished}
use leetbattle.Store.Tx.{
  M, pure, gets, guard, begin, ◌>>=◌, ◌>>◌, clock_timestamp, on_matches, on_participants,
  on_records, on_evaluations,
}
use leetbattle.Match.Events.{is_match, append_event}
use leetbattle.Match.Locks.{is_participant}
use leetbattle.Match.Snapshot.{by_slot}
use leetbattle.Match.Finish.{close, is_winner, of_user, score, slot_of}
use leetbattle.Arena.Config.{Arena}
use leetbattle.Arena.Commands.{lock_arena_match}
use leetbattle.Arena.Telemetry.{Attempt, safe_attempts}
use leetbattle.Arena.Endings.{is_judging, open_arena_rematch}
use leetbattle.Arena.Claims.{Claim, is_held}
use leetbattle.Arena.Judgment.Resolution.{JudgeSuccess, Verdict, resolve, winner_of}

abbrev pub completion_of : Verdict → Completion
completion_of v =
    if v.is_blank_forfeit
    then Completion.blank_forfeit
    else elim v.tie_break [ TieBreak.none ↦ Completion.judged | _ ↦ Completion.tie_break ]

abbrev pub judged_row : JudgeSuccess → Verdict → Option ℕ → ℕ → EvaluationRow → EvaluationRow
judged_row r v winner now w = record w {
  status = completed;
  attempt_count = w.attempt_count + r.attempt_count;
  provider_attempts = w.provider_attempts ++ safe_attempts r.attempts;
  scores_a = r.scores_a;
  scores_b = r.scores_b;
  raw_a = some v.raw_a;
  raw_b = v.raw_b;
  official_a = some v.official_a;
  official_b = v.official_b;
  winner = winner;
  tie_break_reason = some v.tie_break;
  classification = some (completion_of v);
  failure_code = none;
  failure_retryable = false;
  retry_not_before = none;
  worker_claim = none;
  claimed_at = none;
  completed_at = some now;
}

abbrev pub is_timed_out : ℕ → AnswerRow → Bool
is_timed_out id w = nat_beq w.match_id id && (elim w.source [ deadline ↦ true | player ↦ false ])

abbrev pub judged_reason : Bool → EndReason
judged_reason late = if late then answer_timeout else judged

abbrev pub judged_outcome : MatchMode → Option ℕ → ParticipantRow → Outcome
judged_outcome practice winner p = draw
judged_outcome duel winner p = if is_winner winner p then win else loss

abbrev pub judge_player : MatchMode → Option ℕ → ParticipantRow → ParticipantRow → ParticipantRow
judge_player mode winner p q = record q {
  outcome = some (judged_outcome mode winner p);
  activity = thinking;
  active_execution = none;
}

unfoldable pub count_judged : Bool → Option ℕ → ParticipantRow → M (Unit {0})
count_judged false winner p = pure tt
count_judged true winner p = on_records (update_first (of_user p.user) (score (is_winner winner p)))

unfoldable pub judge_players : ℕ → MatchMode → Option ℕ → Bool → List ParticipantRow → M (Unit {0})
judge_players id mode winner applies [] = pure tt
judge_players id mode winner applies (p ∷ ps) = do
  on_participants (update_first (is_participant id p.user) (judge_player mode winner p))
  count_judged applies winner p
  judge_players id mode winner applies ps

-- `scoreForUser`.
abbrev pub score_for : EvaluationRow → Verdict → ℕ → ℕ
score_for w v user =
    if some user == w.answer_a_user
    then v.official_a
    else if some user == w.answer_b_user
    then elim v.official_b [ none ↦ 0 | some s ↦ s ]
    else 0

abbrev pub scores_of : EvaluationRow → Verdict → List ParticipantRow → List (Slot × ℕ)
scores_of w v ps = map (λ p. (p.slot, score_for w v p.user)) ps

unfoldable pub finish_judged : Arena → MatchRow → EvaluationRow → Verdict → Option ℕ → M Bool
finish_judged a m w v winner = do
  ps ← gets (λ db. by_slot m.id db.participants)
  late ← gets (λ db. any (is_timed_out m.id) db.answers)
  let applies = m.mode == duel && is_some winner
  now ← clock_timestamp
  on_matches (update_first (is_judging m.id) (close winner (judged_reason late) applies now))
  judge_players m.id m.mode winner applies ps
  append_event m.id (
      judgment_completed (scores_of w v ps) (slot_of (find (is_winner winner) ps)) v.tie_break
        v.is_blank_forfeit)
  append_event m.id (match_finished (judged_reason late) (slot_of (find (is_winner winner) ps)))
  if m.mode == duel then (do open_arena_rematch a m.id; pure true) else pure true

unfoldable pub complete_held : Arena → MatchRow → Claim → JudgeSuccess → Verdict → Option ℕ → M Bool
complete_held a m c r v winner = do
  now ← clock_timestamp
  held ← gets (λ db. any (is_held c.row.id c.claim) db.evaluations)
  on_evaluations (update_first (is_held c.row.id c.claim) (judged_row r v winner now))
  if held then finish_judged a m c.row v winner else pure false

unfoldable pub persist_success_tx : Arena → Claim → JudgeSuccess → Verdict → Option ℕ → M Bool
persist_success_tx a c r v winner = do
  m ← lock_arena_match c.row.match_id
  if m.state == judging then complete_held a m c r v winner else pure false

unfoldable pub persist_success : Arena → Claim → JudgeSuccess → M Bool
persist_success a c r = do
  let v = resolve c.row.snapshot r
  let winner = winner_of c.row v
  guard (not (c.row.snapshot.scored.mode == duel && is_none winner)) fault
  begin (persist_success_tx a c r v winner)
