-- ===== src/Arena/Endings.antt =====
-- `finalizeSkippedTx` and `openRematchTx` of AiMlArenaService.
use leetbattle.Shared.{
  ℕ, ◌+◌, Bool, true, false, ◌&&◌, Option, some, none, List, [], ◌∷◌, find, update_first, map,
  nat_beq, ◌==◌, list_eq, nat_eq, is_some, if◌then◌else◌,
}
use leetbattle.Domain.Types.{
  MatchMode, duel, practice, mode_eq, judging, state_eq, EndReason, Outcome, thinking,
}
use leetbattle.Judge.Scoring.Types.{TieBreak}
use leetbattle.Store.Evaluations.{pending, skipped, blank_no_contest, EvaluationRow}
use leetbattle.Store.Rows.{
  MatchRow, ParticipantRow, automatic_resolution, match_finished, rematch_opened,
}
use leetbattle.Store.Tx.{
  M, pure, gets, ◌>>=◌, ◌>>◌, clock_timestamp, on_matches, on_participants, on_evaluations,
}
use leetbattle.Match.Config.{seconds}
use leetbattle.Match.Events.{is_match, append_event}
use leetbattle.Match.Locks.{is_participant}
use leetbattle.Match.Finish.{close, is_finished, to_rematch}
use leetbattle.Arena.Config.{Arena}

unfoldable pub announce_open : ℕ → ℕ → Bool → M (Unit {0})
announce_open id until false = pure tt
announce_open id until true = do append_event id (rematch_opened until); pure tt

unfoldable pub open_arena_rematch : Arena → ℕ → M (Unit {0})
open_arena_rematch a id = do
  now ← clock_timestamp
  let until = now + seconds a.rematch_window_seconds
  row ← gets (λ db. find (is_finished id) db.matches)
  on_matches (update_first (is_finished id) (to_rematch until))
  announce_open id until (is_some row)

abbrev pub is_judging : ℕ → MatchRow → Bool
is_judging id m = is_match id m && m.state == judging

abbrev pub without_contest : ParticipantRow → ParticipantRow
without_contest p = record p {
  outcome = some Outcome.no_contest;
  activity = thinking;
  active_execution = none;
}

unfoldable pub release_players : ℕ → List ParticipantRow → M (Unit {0})
release_players id [] = pure tt
release_players id (p ∷ ps) = do
  on_participants (update_first (is_participant id p.user) without_contest)
  release_players id ps

abbrev pub is_pending : ℕ → EvaluationRow → Bool
is_pending id v = nat_beq v.id id && (elim v.status [ pending ↦ true | _ ↦ false ])

abbrev pub for_duel : MatchMode → Option ℕ
for_duel duel = some 0
for_duel practice = none

abbrev pub skip_row : MatchMode → ℕ → EvaluationRow → EvaluationRow
skip_row mode now v = record v {
  status = skipped;
  raw_a = some 0;
  raw_b = for_duel mode;
  official_a = some 0;
  official_b = for_duel mode;
  tie_break_reason = some TieBreak.none;
  classification = some blank_no_contest;
  completed_at = some now;
}

unfoldable pub finalize_skipped :
    Arena → MatchRow → ℕ → List ParticipantRow → EndReason → M (Unit {0})
finalize_skipped a m id ps reason = do
  skipped_at ← clock_timestamp
  on_evaluations (update_first (is_pending id) (skip_row m.mode skipped_at))
  now ← clock_timestamp
  on_matches (update_first (is_judging m.id) (close none reason false now))
  release_players m.id ps
  append_event m.id (automatic_resolution m.mode (map (λ p. p.slot) ps))
  append_event m.id (match_finished reason none)
  if m.mode == duel then open_arena_rematch a m.id else pure tt
