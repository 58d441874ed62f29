-- ===== src/Arena/Judgment/Ended.antt =====
-- The row of a match that a judgment ends.
use leetbattle.Shared.{
  ℕ, Bool, true, false, ◌&&◌, ◌≡◌, refl, Option, some, List, [], ◌∷◌, arith, find, any,
  update_first, ap, ◌∙◌, subst, Bool-cases, inl, inr, ◌==◌, is_some, if◌then◌else◌,
}
use leetbattle.Domain.Types.{duel, mode_eq, state_eq, judging, challenge_eq}
use leetbattle.Domain.Errors.{ok}
use leetbattle.Store.Rows.{Db, MatchRow, ParticipantRow, judgment_completed, match_finished}
use leetbattle.Store.Tx.{M, ◌>>◌, pure}
use leetbattle.Store.Watch.{Run, kept}
use leetbattle.Match.Lifecycle.Rows.{matches_watch}
use leetbattle.Store.Outcomes.{bind-ok, gets-ok}
use leetbattle.Match.Events.{is_match, append_event}
use leetbattle.Match.Finish.{close, is_winner, slot_of}
use leetbattle.Match.Finish.Row.{
  row_watch, row_steps, Run-append_event, on_matches-ok, HasResult, HasResult-close, Follows,
}
use leetbattle.Match.Lifecycle.Frame.{Keeps-clock}
use leetbattle.Arena.Config.{Arena}
use leetbattle.Arena.Endings.{is_judging, announce_open, open_arena_rematch}
use leetbattle.Arena.Lifecycle.Steps.{Keeps-judge_players}
use leetbattle.Store.Evaluations.{EvaluationRow}
use leetbattle.Arena.Judgment.{is_timed_out, judged_reason, judge_players, scores_of, finish_judged}
use leetbattle.Arena.Judgment.Resolution.{Verdict}

Run-announce_open :
    (id i until : ℕ) (v : Option MatchRow) (b : Bool)
    → Run (row_watch id) v (announce_open i until b)
unfolding announce_open
Run-announce_open id i until v false = search row_steps
Run-announce_open id i until v true = search (row_steps, Run-append_event) depth 10

Run-open_arena_rematch :
    (id i : ℕ) (v : Option MatchRow) (a : Arena) → Run (row_watch id) v (open_arena_rematch a i)
unfolding open_arena_rematch
Run-open_arena_rematch id i v a = search (row_steps, Run-announce_open) depth 20

-- What follows the write of the result.
rest : Arena → MatchRow → EvaluationRow → Verdict → Option ℕ → List ParticipantRow → Bool → M Bool
rest a m w v winner ps late = do
  judge_players m.id m.mode winner (m.mode == duel && is_some winner) ps
  append_event m.id (
      judgment_completed (scores_of w v ps) (slot_of (find (is_winner winner) ps)) v.tie_break
        v.is_blank_forfeit)
  append_event m.id (match_finished (judged_reason late) (slot_of (find (is_winner winner) ps)))
  if m.mode == duel then (do open_arena_rematch a m.id; pure true) else pure true

Run-rest :
    (o : Option MatchRow) (a : Arena) (m : MatchRow) (w : EvaluationRow) (v : Verdict)
    (winner : Option ℕ) (ps : List ParticipantRow) (late : Bool)
    → Run (row_watch m.id) o (rest a m w v winner ps late)
unfolding rest
Run-rest o a m w v winner ps late =
    search (row_steps, Run-append_event, Run-open_arena_rematch, Keeps-judge_players) depth 20

find-judging :
    (id : ℕ) (f : MatchRow → MatchRow) (ms : List MatchRow) (m : MatchRow)
    → ((n : MatchRow) → (f n).id ≡ n.id)
    → (m.state == judging) ≡ true
    → find (is_match id) ms ≡ some m
    → find (is_match id) (update_first (is_judging id) f ms) ≡ some (f m)
find-judging id f [] m h j e = cc
find-judging id f (n ∷ ms) m h j e = elim (Bool-cases (is_match id n)) [
  | inl same ↦ ground (arith, h n, e, same, j)
  | inr other ↦ let r = find-judging id f ms m h j (rw other at e) in ground (arith, other, r)
]

pub finish_judged-HasResult :
    (a : Arena) (m : MatchRow) (w : EvaluationRow) (v : Verdict) (winner : Option ℕ) (db after : Db)
    → find (is_match m.id) db.matches ≡ some m
    → (m.state == judging) ≡ true
    → finish_judged a m w v winner db ≡ (ok true, after)
    → HasResult winner
        (judged_reason (any (is_timed_out m.id) db.answers))
        (find (is_match m.id) after.matches)
unfolding finish_judged rest
finish_judged-HasResult a m w v winner db after found j h =
    let b1 = bind-ok _ _ db true after h in
    let g1 = gets-ok _ _ _ _ b1.first in
    let b2 = bind-ok _ _ _ true after b1.second in
    let g2 = gets-ok _ _ _ _ b2.first in
    let b3 = bind-ok _ _ _ true after b2.second in
    let k3 = kept matches_watch _ _ _ _ Keeps-clock b3.first in
    let b4 = bind-ok _ _ _ true after b3.second in
    let k4 = on_matches-ok _ _ _ _ b4.first in
    let applies = m.mode == duel && is_some winner in
    let f = close winner (judged_reason b2.value) applies b3.value in
    let start = k3 ∙ ap (λ d. d.matches) (g2.1 ∙ g1.1) in
    let written = find-judging m.id f db.matches m (λ n. refl) j found in
    let follows = (Run-rest _ a m w v winner b1.value b2.value).at b4.between (
      ap (find (is_match m.id)) k4
      ∙ ap (λ ms. find (is_match m.id) (update_first (is_judging m.id) f ms)) start
      ∙ written) in
    let late = g2.0 ∙ ap (λ d. any (is_timed_out m.id) d.answers) g1.1 in
    subst (λ t. HasResult winner (judged_reason t) (find (is_match m.id) after.matches)) late
      (HasResult-close winner (judged_reason b2.value) applies b3.value m _
        (subst (λ r. Follows (some (f m)) (find (is_match m.id) r.1.matches)) b4.second follows))
