-- ===== src/Arena/Judgment/Result.antt =====
-- The result that a judgment writes.
use leetbattle.Shared.{
  ℕ, ◌+◌, Bool, true, false, ◌≡◌, ◌≢◌, ◌⊎◌, inl, inr, Bool-cases, nat_beq, refl, Option, some, none,
  List, [], ◌∷◌, ◌++◌, arith, find, any, ◌∙◌, All, Among, any-FirstHit, ◌==◌, nat_beq_iff,
}
use leetbattle.Domain.Types.{EndReason, judged, answer_timeout, ai_ml, challenge_eq}
use leetbattle.Domain.Errors.{ok}
use leetbattle.Judge.Scoring.Types.{Label, TieBreak}
use leetbattle.Store.Rows.{Db, MatchRow}
use leetbattle.Store.Clock.{tick}
use leetbattle.Store.Evaluations.{
  Source, AnswerRow, EvaluationRow, in_progress, completed, Completion,
}
use leetbattle.Match.Events.{is_match}
use leetbattle.Match.Finish.Row.{HasResult}
use leetbattle.Arena.Config.{Arena}
use leetbattle.Arena.Claims.{Claim, is_held}
use leetbattle.Arena.Telemetry.{safe_attempts}
use leetbattle.Arena.Judgment.{
  completion_of, judged_row, is_timed_out, judged_reason, persist_success,
}
use leetbattle.Arena.Judgment.Resolution.{JudgeSuccess, Verdict, resolve, winner_of}
use leetbattle.Arena.Judgment.Written.{persist_success-IsWritten}

-- The user is the one behind the anonymous answer that is named.
abbrev IsBehind : Option Label → EvaluationRow → Option ℕ → Type 0
IsBehind none w user = user ≡ none
IsBehind (some Label.a) w user = user ≡ w.answer_a_user
IsBehind (some Label.b) w user = user ≡ w.answer_b_user

-- How a completed evaluation is classified.
abbrev pub kind : Bool → TieBreak → Completion
kind true t = Completion.blank_forfeit
kind false TieBreak.none = Completion.judged
kind false _ = Completion.tie_break

-- A match with an answer that was put in at the deadline ends by a timeout, one in which the players
-- have sent all answers by a judgment.
pub data IsReason (id : ℕ) (ws : List AnswerRow) : EndReason → Type 0 where
  late :
      (w : AnswerRow)
      → Among w ws
      → w.match_id ≡ id
      → w.source ≡ Source.deadline
      → IsReason id ws answer_timeout
  in_time : All (λ w. (w.match_id ≢ id) ⊎ (w.source ≡ Source.player)) ws → IsReason id ws judged

-- A judgment that has ended the match: its claim held the evaluation, the match has the result, and
-- the row of the evaluation has the judgment, the others staying as they were.
pub record IsJudged (c : Claim) (r : JudgeSuccess) (v : Verdict) (db after : Db) : Type 0 where
  pub front : List EvaluationRow
  pub row : EvaluationRow
  pub back : List EvaluationRow
  pub split : db.evaluations ≡ front ++ row ∷ back
  pub same_id : row.id ≡ c.row.id
  pub is_running : row.status ≡ in_progress
  pub is_holder : row.worker_claim ≡ some c.claim
  pub winner : Option ℕ
  pub is_winner : IsBehind v.winner c.row winner
  pub reason : EndReason
  pub is_reason : IsReason c.row.match_id db.answers reason
  pub result : HasResult winner reason (find (is_match c.row.match_id) after.matches)
  pub written :
      after.evaluations
      ≡ front
        ++ record row {
          status = completed;
          attempt_count = row.attempt_count + r.attempt_count;
          provider_attempts = row.provider_attempts ++ safe_attempts r.attempts;
          scores_a = r.scores_a;
          scores_b = r.scores_b;
          raw_a = some v.raw_a;
          raw_b = v.raw_b;
          official_a = some v.official_a;
          official_b = v.official_b;
          winner = winner;
          tie_break_reason = some v.tie_break;
          classification = some (kind v.is_blank_forfeit v.tie_break);
          failure_code = none;
          failure_retryable = false;
          retry_not_before = none;
          worker_claim = none;
          claimed_at = none;
          completed_at = some (tick db).clock;
        }
          ∷ back

winner_of-IsBehind :
    (w : EvaluationRow) (v : Verdict) (o : Option Label)
    → v.winner ≡ o
    → IsBehind v.winner w (winner_of w v)
winner_of-IsBehind w v none e = rw e refl
winner_of-IsBehind w v (some Label.a) e = rw e refl
winner_of-IsBehind w v (some Label.b) e = rw e refl

completion_of-kind : (v : Verdict) → completion_of v ≡ kind v.is_blank_forfeit v.tie_break
completion_of-kind v = ground arith

not_late :
    (id : ℕ) (w : AnswerRow)
    → is_timed_out id w ≡ false
    → (w.match_id ≢ id) ⊎ (w.source ≡ Source.player)
not_late id w h = elim (Bool-cases (nat_beq w.match_id id)) [
  | inl t ↦ inr (ground (arith, t, h))
  | inr t ↦ inl (ground (arith, t, nat_beq_iff w.match_id id))
]

none-late :
    (id : ℕ) (ws : List AnswerRow)
    → any (is_timed_out id) ws ≡ false
    → All (λ w. (w.match_id ≢ id) ⊎ (w.source ≡ Source.player)) ws
none-late id [] h = tt
none-late id (w ∷ ws) h = (not_late id w (ground arith), none-late id ws (ground arith))

judged_reason-IsReason :
    (id : ℕ) (ws : List AnswerRow) → IsReason id ws (judged_reason (any (is_timed_out id) ws))
judged_reason-IsReason id ws = elim (Bool-cases (any (is_timed_out id) ws)) [
  | inl t ↦
      let hit = any-FirstHit (is_timed_out id) (λ w. w) ws t in
      let found : Among hit.row ws = record {
        front = hit.front;
        back = hit.back;
        split = hit.split;
      } in
      rw t (
        late hit.row found (ground (arith, hit.hit, nat_beq_iff hit.row.match_id id))
          (ground (arith, hit.hit)))
  | inr t ↦ rw t (in_time (none-late id ws t))
]

-- A result of the judge that ends an AI/ML match is that of the worker whose claim held the
-- evaluation. The match is over with the winner behind the anonymous answer that the recomputed verdict
-- names, by a judgment or, if the answer of a player was put in at the deadline, by a timeout. The
-- evaluation is completed at the time that the clock shows, with the scores, the winner and the reason
-- of the verdict and without a claim, and the others stay as they were.
pub persist_success-IsJudged :
    (a : Arena) (m : MatchRow) (c : Claim) (r : JudgeSuccess) (db after : Db)
    → find (is_match c.row.match_id) db.matches ≡ some m
    → (m.challenge == ai_ml) ≡ true
    → persist_success a c r db ≡ (ok true, after)
    → IsJudged c r (resolve c.row.snapshot r) db after
persist_success-IsJudged a m c r db after found k h =
    let v = resolve c.row.snapshot r in
    let t = persist_success-IsWritten a m c r db after found k h in
    let hit =
      any-FirstHit (is_held c.row.id c.claim) (judged_row r v (winner_of c.row v) (tick db).clock)
        db.evaluations t.held in
    record {
      front = hit.front;
      row = hit.row;
      back = hit.back;
      split = hit.split;
      same_id = ground (arith, hit.hit);
      is_running = ground (arith, hit.hit);
      is_holder = ground (arith, hit.hit);
      winner = winner_of c.row v;
      is_winner = winner_of-IsBehind c.row v v.winner refl;
      reason = judged_reason (any (is_timed_out c.row.match_id) db.answers);
      is_reason = judged_reason-IsReason c.row.match_id db.answers;
      result = t.result;
      written = rw (← completion_of-kind v) (t.judged ∙ hit.written);
    }
