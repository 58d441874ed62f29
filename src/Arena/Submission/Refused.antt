-- ===== src/Arena/Submission/Refused.antt =====
-- The submissions that are refused.
use leetbattle.Shared.{
  ℕ, ◌≡◌, true, not, ◌&&◌, Option, some, none, List, [], find, arith, is_some, ◌==◌, if◌then◌else◌,
}
use leetbattle.Domain.Types.{active, state_eq}
use leetbattle.Domain.Errors.{
  ErrorCode, err, domain_error, invalid_state, answer_deadline_passed, answer_already_submitted,
}
use leetbattle.Store.Rows.{Db, MatchRow, ParticipantRow}
use leetbattle.Store.Evaluations.{AnswerRow}
use leetbattle.Store.Rollback.{IsUnwritten}
use leetbattle.Store.Clock.{tick, tick-eq}
use leetbattle.Store.Tx.{
  pure, raise, gets, guard, expect, begin, ◌>>=◌, clock_timestamp, on_receipts,
}
use leetbattle.Match.Locks.{is_participant, require_actor, lock_participant}
use leetbattle.Match.Receipts.{valid_key, is_receipt, assert_idempotency_key}
use leetbattle.Arena.Config.{Arena}
use leetbattle.Arena.Answer.{measure_answer, answer_limits}
use leetbattle.Arena.Commands.{lock_arena_match, is_arena_match, reserve, reserve_found}
use leetbattle.Arena.Preparation.{is_answer_of}
use leetbattle.Arena.Submission.{
  is_before, within_limits, lock_answer, submit_fresh, submit_answer_tx, place_answer,
}

-- A player of the AI/ML match sends, under a valid key that is not in use yet, an answer within the
-- limits.
pub record IsAsked (a : Arena) (user id : ℕ) (key answer : List ℕ) (m : MatchRow)
    (p : ParticipantRow) (db : Db) : Type 0 where
  pub valid : valid_key key ≡ true
  pub unused : find (is_receipt user key) db.receipts ≡ none
  pub found_match : find (is_arena_match id) db.matches ≡ some m
  pub found_player : find (is_participant id user) db.participants ≡ some p
  pub fits : (measure_answer a.nfc answer_limits answer).violations ≡ []

-- Why an answer is refused at this time, given the answer that is there.
abbrev pub refusal : MatchRow → ℕ → Option AnswerRow → Option ErrorCode
refusal m now old =
    if not (m.state == active && is_some m.answer_deadline_at)
    then some invalid_state
    else if not (is_before now m.answer_deadline_at)
    then some answer_deadline_passed
    else if is_some old
    then some answer_already_submitted
    else none

-- An answer within the limits that a player of an AI/ML match sends under a valid key that is not in
-- use, when the match is not active, at or after the deadline, or after another answer of the player, is
-- refused with the code of the first of these that applies, and nothing is written: the receipt of the
-- command is gone, too, so that its key is free again.
pub place_answer-refused :
    (a : Arena) (user id : ℕ) (key answer : List ℕ) (m : MatchRow) (p : ParticipantRow)
    (code : ErrorCode) (db : Db)
    → IsAsked a user id key answer m p db
    → refusal m (tick db).clock (find (is_answer_of m.id p.user) db.answers) ≡ some code
    → ((place_answer a (some user) id key answer db).0 ≡ err (domain_error code 409))
      × IsUnwritten db (place_answer a (some user) id key answer db).1
unfolding place_answer require_actor assert_idempotency_key within_limits submit_answer_tx
    lock_arena_match lock_participant reserve reserve_found on_receipts submit_fresh lock_answer
    begin clock_timestamp ◌>>=◌ gets expect guard pure raise
place_answer-refused a user id key answer m p code db q h =
    let t = tick-eq db in
    ground (arith, t, q.valid, q.unused, q.found_match, q.found_player, q.fits)
