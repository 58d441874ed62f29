-- ===== src/Match/Executions/Admission.antt =====
-- When a new execution is admitted.
use leetbattle.Shared.{
  ℕ, ◌+◌, ◌*◌, ◌≤◌, subst, refl, true, ◌&&◌, ◌≡◌, Option, some, none, List, ◌∷◌, arith, find,
  is_some, is_none, ap, sym, ◌∙◌, ◌==◌,
}
use leetbattle.Domain.Types.{active, Language, ExecutionKind, run, submit, state_eq}
use leetbattle.Domain.Errors.{ok}
use leetbattle.Store.Rows.{Db, MatchRow, ParticipantRow, ExecutionRow, queued}
use leetbattle.Store.Clock.{tick, tick-le, clock-ok}
use leetbattle.Store.Tx.{pure, raise, clock_timestamp, new_id, on_executions}
use leetbattle.Store.Watch.{kept}
use leetbattle.Store.Outcomes.{bind-ok, gets-ok, expect-ok, pure-ok, guard-ok}
use leetbattle.Match.Config.{Engine}
use leetbattle.Match.Executions.Frame.{
  Keeps-clock, Keeps-participants, Keeps-append_event, Keeps-complete_command, executions_watch,
}
use leetbattle.Match.Locks.{is_participant}
use leetbattle.Match.Executions.{
  Ingress, ExecutionRecord, is_after_start, check_limit, later_than, limited_until, limit_of,
  insert_execution, admit_execution, fresh_execution,
}

-- A time, if there is one, is not after the other.
abbrev IsPast : ℕ → Option ℕ → Type 0
IsPast now none = Unit
IsPast now (some t) = t ≤ now

-- For a run, the sample rate limit after the last run of the player is over, in microseconds; for a
-- submission, the cooldown of the player.
abbrev pub IsOver : ExecutionKind → ℕ → ℕ → Option ParticipantRow → Type 0
IsOver kind limit now none = Unit
IsOver run limit now (some q) = elim q.last_sample_run_at [
  | none ↦ Unit
  | some t ↦ t + limit * 1000000 ≤ now
]
IsOver submit limit now (some q) = IsPast now q.cooldown_until

later_than-none : (now : ℕ) (o : Option ℕ) → later_than now o ≡ none → IsPast now o
later_than-none now none h = tt
later_than-none now (some t) h = ground arith

run-IsOver :
    (e : Engine) (now : ℕ) (q : ParticipantRow) (o : Option ℕ)
    → q.last_sample_run_at ≡ o
    → limited_until e run now q ≡ none
    → IsOver run e.sample_rate_limit_seconds now (some q)
run-IsOver e now q none last h = rw last tt
run-IsOver e now q (some t) last h =
    rw last (later_than-none now (some (t + e.sample_rate_limit_seconds * 1000000)) (rw last at h))

limit_of-IsOver :
    (e : Engine) (k : ExecutionKind) (now : ℕ) (o : Option ParticipantRow)
    → limit_of e k now o ≡ none
    → IsOver k e.sample_rate_limit_seconds now o
limit_of-IsOver e k now none h = tt
limit_of-IsOver e run now (some q) h = run-IsOver e now q q.last_sample_run_at refl h
limit_of-IsOver e submit now (some q) h = later_than-none now q.cooldown_until h

-- The match is active with a problem since before the request, the player has a language and no
-- other execution, the limit is over, and the new row comes in front.
pub record IsAdmitted (e : Engine) (i : Ingress) (m : MatchRow) (p : ParticipantRow)
    (r : ExecutionRecord) (db after : Db) : Type 0 where
  pub is_active : m.state ≡ active
  pub has_problem : is_some m.problem ≡ true
  pub has_started : is_after_start i.received_at m ≡ true
  pub has_language : p.language ≡ some r.language
  pub is_free : p.active_execution ≡ none
  pub limit_over :
      IsOver i.kind e.sample_rate_limit_seconds
        (tick db).clock
        (find (is_participant m.id i.user) db.participants)
  pub created_at : ℕ
  pub is_later : (tick db).clock ≤ created_at
  pub inserted :
      after.executions
      ≡ record {
        id = r.id;
        match_id = m.id;
        user = i.user;
        key = i.key;
        kind = i.kind;
        language = r.language;
        source_hash = i.source_hash;
        source_bytes = i.source_bytes;
        received_at = i.received_at;
        sequence = i.sequence;
        status = queued;
        attempts = 0;
        result = none;
        created_at = created_at;
      }
        ∷ db.executions
  pub is_new : r.id ≡ db.next_id

clock-kept :
    (db after : Db) (now : ℕ)
    → clock_timestamp db ≡ (ok now, after)
    → (now ≡ (tick db).clock)
      × (after.executions ≡ db.executions)
      × (after.next_id ≡ db.next_id)
      × (after.participants ≡ db.participants)
unfolding clock_timestamp
clock-kept db after now h = ground arith

check_limit-ok :
    (k : ExecutionKind) (o : Option ℕ) (db after : Db) (u : Unit {0})
    → check_limit k o db ≡ (ok u, after)
    → (o ≡ none) × (after ≡ db)
unfolding check_limit pure raise
check_limit-ok k o db after u h = ground arith

record WasInserted (i : Ingress) (m : MatchRow) (l : Language) (r : ExecutionRecord) (db after : Db)
    : Type 0 where
  pub same_language : r.language ≡ l
  pub created_at : ℕ
  pub is_later : db.clock ≤ created_at
  pub inserted : after.executions ≡ fresh_execution i r.id m.id l created_at ∷ db.executions
  pub is_new : r.id ≡ db.next_id

new_id-ok :
    (db after : Db) (id : ℕ)
    → new_id db ≡ (ok id, after)
    → (id ≡ db.next_id) × (after.executions ≡ db.executions) × (after.clock ≡ db.clock)
unfolding new_id
new_id-ok db after id h = ground arith

on_executions-ok :
    (f : List ExecutionRow → List ExecutionRow) (db after : Db) (u : Unit {0})
    → on_executions f db ≡ (ok u, after)
    → after.executions ≡ f db.executions
unfolding on_executions
on_executions-ok f db after u h = ground arith

insert-ok :
    (i : Ingress) (m : MatchRow) (p : ParticipantRow) (l : Language) (db after : Db)
    (r : ExecutionRecord)
    → insert_execution i m p l db ≡ (ok r, after)
    → WasInserted i m l r db after
unfolding insert_execution
insert-ok i m p l db after r h =
    let b1 = bind-ok _ _ db r after h in
    let n = new_id-ok _ _ _ b1.first in
    let b2 = bind-ok _ _ _ r after b1.second in
    let c = kept executions_watch _ _ _ _ Keeps-clock b2.first in
    let b3 = bind-ok _ _ _ r after b2.second in
    let w = on_executions-ok _ _ _ _ b3.first in
    let b4 = bind-ok _ _ _ r after b3.second in
    let c4 = kept executions_watch _ _ _ _ Keeps-clock b4.first in
    let b5 = bind-ok _ _ _ r after b4.second in
    let c5 = kept executions_watch _ _ _ _ (Keeps-participants _) b5.first in
    let b6 = bind-ok _ _ _ r after b5.second in
    let c6 = kept executions_watch _ _ _ _ (Keeps-append_event _ _) b6.first in
    let b7 = bind-ok _ _ _ r after b6.second in
    let c7 = kept executions_watch _ _ _ _ (Keeps-complete_command _ _ _) b7.first in
    let (q, z) = pure-ok _ _ r after b7.second in
    let same_id : r.id ≡ b1.value = ap (λ x. x.id) q in
    record {
      same_language = ap (λ x. x.language) q;
      created_at = b2.value;
      is_later =
          subst (λ t. db.clock ≤ t) (sym (clock-ok _ _ _ b2.first).0)
            (subst (λ t. t ≤ (tick b1.between).clock) n.2 (tick-le b1.between));
      inserted =
          ap (λ d. d.executions) z
          ∙ c7
          ∙ c6
          ∙ c5
          ∙ c4
          ∙ w
          ∙ ap (λ xs. fresh_execution i b1.value m.id l b2.value ∷ xs) (c ∙ n.1)
          ∙ ap (λ k. fresh_execution i k m.id l b2.value ∷ db.executions) (sym same_id);
      is_new = same_id ∙ n.0;
    }

is_playable :
    (m : MatchRow)
    → (m.state == active && is_some m.problem) ≡ true
    → (m.state ≡ active) × (is_some m.problem ≡ true)
is_playable m h = ground arith

is_none-none : (o : Option ℕ) → is_none o ≡ true → o ≡ none
is_none-none o h = ground arith

-- An execution is admitted only in an active match with a problem that had begun when the request
-- was received, of a player who has a language, no other execution, and for a run a sample limit, for
-- a submission a cooldown, that is over when the clock is read. Then a queued row of the request,
-- without attempts or a result, is in front under the new identifier, and the other rows are as they
-- were.
pub admit_execution-IsAdmitted :
    (e : Engine) (i : Ingress) (m : MatchRow) (p : ParticipantRow) (r : ExecutionRecord)
    (db after : Db)
    → admit_execution e i m p db ≡ (ok r, after)
    → IsAdmitted e i m p r db after
unfolding admit_execution
admit_execution-IsAdmitted e i m p r db after h =
    let b1 = bind-ok _ _ db r after h in
    let g1 = guard-ok _ _ _ _ _ b1.first in
    let b2 = bind-ok _ _ _ r after b1.second in
    let g2 = guard-ok _ _ _ _ _ b2.first in
    let b3 = bind-ok _ _ _ r after b2.second in
    let x = expect-ok _ _ _ _ _ b3.first in
    let b4 = bind-ok _ _ _ r after b3.second in
    let g4 = guard-ok _ _ _ _ _ b4.first in
    let same = g4.1 ∙ x.1 ∙ g2.1 ∙ g1.1 in
    let b5 = bind-ok _ _ _ r after b4.second in
    let c = clock-kept _ _ _ b5.first in
    let b6 = bind-ok _ _ _ r after b5.second in
    let g6 = gets-ok _ _ _ _ b6.first in
    let b7 = bind-ok _ _ _ r after b6.second in
    let l = check_limit-ok _ _ _ _ _ b7.first in
    let w = insert-ok i m p b3.value b7.between after r b7.second in
    let rows = ap (λ d. d.executions) (l.1 ∙ g6.1) ∙ c.1 ∙ ap (λ d. d.executions) same in
    let ids = ap (λ d. d.next_id) (l.1 ∙ g6.1) ∙ c.2 ∙ ap (λ d. d.next_id) same in
    let now : b5.value ≡ (tick db).clock = c.0 ∙ ap (λ d. (tick d).clock) same in
    let clock : b7.between.clock ≡ (tick db).clock =
      ap (λ d. d.clock) (l.1 ∙ g6.1)
      ∙ ap (λ d. d.clock) (clock-ok _ _ _ b5.first).1
      ∙ ap (λ d. (tick d).clock) same in
    let row : b6.value ≡ find (is_participant m.id i.user) db.participants =
      g6.0 ∙ ap (find (is_participant m.id i.user)) (c.3 ∙ ap (λ d. d.participants) same) in
    record {
      is_active = (is_playable m g1.0).0;
      has_problem = (is_playable m g1.0).1;
      has_started = g2.0;
      has_language = x.0 ∙ ap some (sym w.same_language);
      is_free = is_none-none p.active_execution g4.0;
      limit_over =
          limit_of-IsOver e i.kind (tick db).clock
            (find (is_participant m.id i.user) db.participants)
            (ap (limit_of e i.kind (tick db).clock) (sym row)
              ∙ ap (λ n. limit_of e i.kind n b6.value) (sym now)
              ∙ l.0);
      created_at = w.created_at;
      is_later = subst (λ t. t ≤ w.created_at) clock w.is_later;
      inserted =
          w.inserted
          ∙ ap (λ k. fresh_execution i r.id m.id k w.created_at ∷ b7.between.executions)
              (sym w.same_language)
          ∙ ap (λ xs. fresh_execution i r.id m.id r.language w.created_at ∷ xs) rows;
      is_new = w.is_new ∙ ids;
    }
