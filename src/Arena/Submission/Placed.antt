-- ===== src/Arena/Submission/Placed.antt =====
-- The submissions that are accepted.
use leetbattle.Shared.{
  ℕ, ◌<◌, ◌≤◌, ◌≡◌, refl, ◌∙◌, sym, ap, Bool, true, false, ◌&&◌, Option, some, none, List, [], ◌∷◌,
  find, arith, is_some, subst, ◌==◌, if◌then◌else◌,
}
use leetbattle.Domain.Types.{active, state_eq}
use leetbattle.Domain.Errors.{ok}
use leetbattle.Store.Rows.{
  Db, MatchRow, ParticipantRow, ReceiptRow, answer_submitted, evaluation_response,
}
use leetbattle.Store.Tx.{
  M, pure, gets, guard, ◌>>=◌, raise, clock_timestamp, on_answers, on_receipts, ◌>>◌,
}
use leetbattle.Store.Evaluations.{Source}
use leetbattle.Store.Clock.{tick, tick-eq, tick-clock, tick-le, clock-ok}
use leetbattle.Store.Watch.{Run, kept, ran}
use leetbattle.Store.Outcomes.{bind-ok, gets-ok, guard-ok, expect-ok, begin-ok}
use leetbattle.Arena.Config.{Arena}
use leetbattle.Arena.Answer.{Measurement, Violation, measure_answer, answer_limits}
use leetbattle.Arena.Commands.{lock_arena_match, is_arena_match, reserve_found, reserve}
use leetbattle.Match.Locks.{is_participant, require_actor, lock_participant}
use leetbattle.Arena.Preparation.{is_answer_of, prepare_evaluation}
use leetbattle.Arena.Rounds.Rows.{Rounds, rounds_watch, acting, clerk, Grows-locked}
use leetbattle.Arena.Rounds.Frame.{Keeps-clock}
use leetbattle.Arena.Rounds.Preparation.{frames, Keeps-reserve, Run-prepare_evaluation}
use leetbattle.Match.Events.{append_event}
use leetbattle.Match.Receipts.{Command, complete_command, assert_idempotency_key}
use leetbattle.Arena.Submission.{
  Prepared, is_before, lock_answer, submit_fresh, within_limits, submit_answer_tx, place_answer,
}

-- The reservation reads no clock.
reserve_found-clock :
    (a : Arena) (c : Command) (o : Option ReceiptRow) (db after : Db) (b : Bool)
    → reserve_found a c o db ≡ (ok b, after)
    → (after.clock ≡ db.clock) × (after.delays ≡ db.delays)
unfolding reserve_found on_receipts ◌>>=◌ pure raise
reserve_found-clock a c none db after b h = ground arith
reserve_found-clock a c (some r) db after b h = ground arith

-- The first answer of the player in the match, as it is locked.
pub record IsLocked (id user : ℕ) (measured : Measurement) (db after : Db) : Type 0 where
  pub time : ℕ
  pub is_later : db.clock ≤ time
  pub is_first : find (is_answer_of id user) db.answers ≡ none
  pub locked :
      find (is_answer_of id user) after.answers
      ≡ some (record {
        match_id = id;
        user = user;
        text = measured.normalized;
        word_count = measured.word_count;
        character_count = measured.character_count;
        utf8_byte_count = measured.utf8_byte_count;
        source = Source.player;
        submitted_at = time;
      })

lock_answer-IsLocked :
    (id user : ℕ) (measured : Measurement) (db after : Db)
    → lock_answer id user measured db ≡ (ok tt, after)
    → IsLocked id user measured db after
unfolding lock_answer clock_timestamp on_answers ◌>>=◌ gets guard pure raise
lock_answer-IsLocked id user measured db after h =
    let t = tick-eq db in
    record {
      time = (tick db).clock;
      is_later = tick-le db;
      is_first = ground (arith, t);
      locked = ground (arith, t);
    }

-- What follows the answer.
rest : Arena → MatchRow → ParticipantRow → List ℕ → M Prepared
rest a m p key = do
  append_event m.id (answer_submitted p.slot)
  evaluation ← prepare_evaluation a m
  complete_command p.user key (evaluation_response evaluation)
  pure (record { evaluation = evaluation; is_duplicate = false })

Run-rest :
    (v : Rounds) (a : Arena) (m : MatchRow) (p : ParticipantRow) (key : List ℕ)
    → Run (acting clerk) v (rest a m p key)
unfolding rest
Run-rest v a m p key = search (frames, Run-prepare_evaluation) depth 20

-- The answer that a match has taken in time.
pub record IsTaken (m : MatchRow) (user : ℕ) (measured : Measurement) (before after : Db)
    : Type 0 where
  pub is_active : m.state ≡ active
  pub until : ℕ
  pub deadline : m.answer_deadline_at ≡ some until
  pub in_time : (tick before).clock < until
  pub time : ℕ
  pub is_later : (tick before).clock ≤ time
  pub is_first : find (is_answer_of m.id user) before.answers ≡ none
  pub locked :
      find (is_answer_of m.id user) after.answers
      ≡ some (record {
        match_id = m.id;
        user = user;
        text = measured.normalized;
        word_count = measured.word_count;
        character_count = measured.character_count;
        utf8_byte_count = measured.utf8_byte_count;
        source = Source.player;
        submitted_at = time;
      })

open_match :
    (m : MatchRow) → (m.state == active && is_some m.answer_deadline_at) ≡ true → m.state ≡ active
open_match m h = ground arith

until_of :
    (now : ℕ) (o : Option ℕ)
    → is_before now o ≡ true
    → (until : ℕ) × (o ≡ some until) × (now < until)
until_of now none h = ground arith
until_of now (some until) h = (until, refl, ground arith)

submit_fresh-IsTaken :
    (a : Arena) (m : MatchRow) (p : ParticipantRow) (key : List ℕ) (measured : Measurement)
    (db after : Db) (r : Prepared)
    → submit_fresh a m p key measured db ≡ (ok r, after)
    → IsTaken m p.user measured db after
unfolding submit_fresh rest
submit_fresh-IsTaken a m p key measured db after r h =
    let b1 = bind-ok _ _ db r after h in
    let g1 = guard-ok _ _ _ _ _ b1.first in
    let b2 = bind-ok _ _ _ r after b1.second in
    let b3 = bind-ok _ _ _ r after b2.second in
    let g3 = guard-ok _ _ _ _ _ b3.first in
    let b4 = bind-ok _ _ _ r after b3.second in
    let l = lock_answer-IsLocked m.id p.user measured _ _ b4.first in
    let (until, deadline, in_time) = until_of b2.value m.answer_deadline_at g3.0 in
    let start : b3.between.answers ≡ db.answers =
      ap (λ d. d.answers) g3.1
      ∙ ap (λ v. v.0) (kept rounds_watch _ _ _ _ Keeps-clock b2.first)
      ∙ ap (λ d. d.answers) g1.1 in
    let later =
      ran (acting clerk) _ _ _ _ _ (Run-rest ((acting clerk).view b4.between) a m p key) refl
        b4.second in
    record {
      is_active = open_match m g1.0;
      until = until;
      deadline = deadline;
      in_time = ground (arith, in_time, (clock-ok _ _ _ b2.first).0, ap (λ d. (tick d).clock) g1.1);
      time = l.time;
      is_later =
          subst (λ n. n ≤ l.time)
            (ap (λ d. d.clock) g3.1
              ∙ ap (λ d. d.clock) (clock-ok _ _ _ b2.first).1
              ∙ ap (λ d. (tick d).clock) g1.1)
            l.is_later;
      is_first = ap (find (is_answer_of m.id p.user)) (sym start) ∙ l.is_first;
      locked = Grows-locked m.id p.user _ later.answers l.locked;
    }

-- The answer of the actor was within the limits, and its match has taken it.
pub record IsPlaced (a : Arena) (actor : Option ℕ) (id : ℕ) (answer : List ℕ) (before after : Db)
    : Type 0 where
  pub user : ℕ
  pub is_user : actor ≡ some user
  pub fits : (measure_answer a.nfc answer_limits answer).violations ≡ []
  pub row : MatchRow
  pub found : find (is_arena_match id) before.matches ≡ some row
  pub player : ParticipantRow
  pub found_player : find (is_participant id user) before.participants ≡ some player
  pub taken : IsTaken row player.user (measure_answer a.nfc answer_limits answer) before after

no_violations :
    (vs : List Violation) (db after : Db)
    → within_limits vs db ≡ (ok tt, after)
    → (vs ≡ []) × (after ≡ db)
unfolding within_limits pure raise
no_violations [] db after h = ground arith
no_violations (v ∷ vs) db after h = ground arith

fresh_branch :
    (t : Bool) (m : M Prepared) (db after : Db) (r : Prepared)
    → (if t then pure (record { evaluation = none; is_duplicate = true }) else m) db ≡ (ok r, after)
    → r.is_duplicate ≡ false
    → m db ≡ (ok r, after)
unfolding pure
fresh_branch true m db after r h k = ground arith
fresh_branch false m db after r h k = h

key_checked :
    (key : List ℕ) (db after : Db) → assert_idempotency_key key db ≡ (ok tt, after) → after ≡ db
unfolding assert_idempotency_key guard pure raise
key_checked key db after h = ground arith

reserve-tick :
    (a : Arena) (c : Command) (db after : Db) (b : Bool)
    → reserve a c db ≡ (ok b, after)
    → (tick after).clock ≡ (tick db).clock
unfolding reserve
reserve-tick a c db after b h =
    let b1 = bind-ok _ _ db b after h in
    let b2 = bind-ok _ _ _ b after b1.second in
    let g2 = gets-ok _ _ _ _ b2.first in
    let same : b2.between ≡ db = g2.1 ∙ key_checked _ _ _ b1.first in
    let (clock, delays) = reserve_found-clock a c _ _ after b b2.second in
    tick-clock after db (clock ∙ ap (λ d. d.clock) same) (delays ∙ ap (λ d. d.delays) same)

-- An answer that is placed, and not as a repeated command, is that of a player of an active AI/ML
-- match, within the limits and the first of the player, and the clock is read before the deadline.
-- Afterwards it is the answer that is found for the player, normalized, with its measures and a time
-- that is not before that reading.
pub place_answer-IsPlaced :
    (a : Arena) (actor : Option ℕ) (id : ℕ) (key answer : List ℕ) (db after : Db) (r : Prepared)
    → place_answer a actor id key answer db ≡ (ok r, after)
    → r.is_duplicate ≡ false
    → IsPlaced a actor id answer db after
unfolding place_answer submit_answer_tx require_actor lock_arena_match lock_participant
place_answer-IsPlaced a actor id key answer db after r h fresh =
    let b1 = bind-ok _ _ db r after h in
    let x1 = expect-ok _ _ _ _ _ b1.first in
    let b2 = bind-ok _ _ _ r after b1.second in
    let x2 = key_checked _ _ _ b2.first in
    let b3 = bind-ok _ _ _ r after b2.second in
    let x3 = no_violations _ _ _ b3.first in
    let start : b3.between ≡ db = x3.1 ∙ x2 ∙ x1.1 in
    let b4 = bind-ok _ _ _ r after (begin-ok _ _ _ _ b3.second) in
    let b4' = bind-ok _ _ _ _ _ b4.first in
    let g4 = gets-ok _ _ _ _ b4'.first in
    let x4 = expect-ok _ _ _ _ _ b4'.second in
    let at4 : b4.between ≡ db = x4.1 ∙ g4.1 ∙ start in
    let b5 = bind-ok _ _ _ r after b4.second in
    let b5' = bind-ok _ _ _ _ _ b5.first in
    let g5 = gets-ok _ _ _ _ b5'.first in
    let x5 = expect-ok _ _ _ _ _ b5'.second in
    let at5 : b5.between ≡ db = x5.1 ∙ g5.1 ∙ at4 in
    let b6 = bind-ok _ _ _ r after b5.second in
    let same : b6.between.answers ≡ db.answers =
      ap (λ v. v.0) (kept rounds_watch _ _ _ _ (Keeps-reserve a _) b6.first)
      ∙ ap (λ d. d.answers) at5 in
    let t =
      submit_fresh-IsTaken a b4.value b5.value key _ _ after r
        (fresh_branch b6.value _ _ _ _ b6.second fresh) in
    record {
      user = b1.value;
      is_user = x1.0;
      fits = x3.0;
      row = b4.value;
      found = ap (λ d. find (is_arena_match id) d.matches) (sym start) ∙ sym g4.0 ∙ x4.0;
      player = b5.value;
      found_player =
          ap (λ d. find (is_participant id b1.value) d.participants) (sym at4) ∙ sym g5.0 ∙ x5.0;
      taken = record {
        is_active = t.is_active;
        until = t.until;
        deadline = t.deadline;
        in_time =
            subst (λ n. n < t.until)
              (reserve-tick a _ _ _ _ b6.first ∙ ap (λ d. (tick d).clock) at5) t.in_time;
        time = t.time;
        is_later =
            subst (λ n. n ≤ t.time) (reserve-tick a _ _ _ _ b6.first ∙ ap (λ d. (tick d).clock) at5)
              t.is_later;
        is_first = ap (find (is_answer_of b4.value.id b5.value.user)) (sym same) ∙ t.is_first;
        locked = t.locked;
      };
    }
