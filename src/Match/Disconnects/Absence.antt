-- ===== src/Match/Disconnects/Absence.antt =====
-- When a disconnected player loses a match.
use leetbattle.Shared.{
  ℕ, Bool, true, false, not, ◌||◌, ◌&&◌, ◌≡◌, ◌≢◌, refl, Option, some, none, List, arith, find,
  select, any, ap, sym, ◌∙◌, subst, ◌==◌, if◌then◌else◌, inl, inr, ◌⊎◌, length, nat_beq, ltb, ◌<◌,
  ◌≤◌, length-select-le,
}
use leetbattle.Domain.Types.{active, practice, EndReason, state_eq, mode_eq}
use leetbattle.Domain.Errors.{ok}
use leetbattle.Store.Rows.{Db, MatchRow, ParticipantRow}
use leetbattle.Store.Tx.{M, pure, advance, clock_timestamp}
use leetbattle.Store.Outcomes.{bind-ok, gets-ok, expect-ok}
use leetbattle.Match.Config.{Engine}
use leetbattle.Match.Events.{is_match}
use leetbattle.Match.Locks.{lock_match}
use leetbattle.Match.Snapshot.{by_slot}
use leetbattle.Match.Finish.{finalize_match}
use leetbattle.Match.Finish.Row.{HasResult}
use leetbattle.Match.Finish.Result.{finalize_match-HasResult}
use leetbattle.Match.Disconnects.{
  is_accepted, is_inflight, is_of, is_away, is_expired, forfeit_to, decide_disconnects,
  check_disconnects, evaluate_active, evaluate_disconnects,
}

-- Either both players were away for too long and nobody wins, or a connected one wins.
abbrev pub Outcome : ℕ → ℕ → List ParticipantRow → Option MatchRow → Type 0
Outcome id now ps o =
    ((length (select (is_expired now) ps) ≡ 2) × HasResult none EndReason.no_contest o)
    ⊎ ((w : ParticipantRow) × (find (λ p. p.connected) ps ≡ some w)
        × HasResult (some w.user) EndReason.forfeit o)

pub record IsAbandoned (id : ℕ) (db after : Db) : Type 0 where
  pub row : MatchRow
  pub found : find (is_match id) db.matches ≡ some row
  pub was_active : row.state ≡ active
  pub is_duel : row.mode ≢ practice
  pub now : ℕ
  pub is_now : now ≡ (advance db db.delays).clock
  pub two_players : length (by_slot row.id db.participants) ≡ 2
  pub someone_late : 0 < length (select (is_expired now) (by_slot row.id db.participants))
  pub not_accepted : any (is_accepted row.id) db.executions ≡ false
  pub not_waiting :
      any
        (λ x.
          is_inflight row.id x
          && is_of (select (is_expired now) (by_slot row.id db.participants)) x)
        db.executions
      ≡ false
  pub outcome :
      Outcome row.id now (by_slot row.id db.participants) (find (is_match row.id) after.matches)

not_false : (db after : Db) → pure false db ≡ (ok true, after) → ⊥
unfolding pure
not_false db after h = ground arith

if-ok :
    (t : Bool) (m : M Bool) (db after : Db)
    → (if t then pure false else m) db ≡ (ok true, after)
    → (t ≡ false) × (m db ≡ (ok true, after))
if-ok true m db after h = absurd (not_false db after h)
if-ok false m db after h = (refl, h)

not_less : (m n : ℕ) → ltb m n ≡ false → n ≤ m
not_less m n h = ground arith

two_late :
    (now : ℕ) (ps : List ParticipantRow)
    → length ps ≡ 2
    → ltb (length (select (is_expired now) ps)) 2 ≡ false
    → length (select (is_expired now) ps) ≡ 2
two_late now ps h k = omega (arith, h, length-select-le (is_expired now) ps, not_less _ _ k)

forfeit_to-ok :
    (e : Engine) (id : ℕ) (o : Option ParticipantRow) (db after : Db)
    → forfeit_to e id o db ≡ (ok true, after)
    → (w : ParticipantRow) × (o ≡ some w)
      × HasResult (some w.user) EndReason.forfeit (find (is_match id) after.matches)
unfolding forfeit_to
forfeit_to-ok e id none db after h = absurd (not_false db after h)
forfeit_to-ok e id (some w) db after h = (w, refl, finalize_match-HasResult e id _ _ db after h)

decide-if :
    (e : Engine) (id now : ℕ) (ps : List ParticipantRow) (db after : Db) (t : Bool)
    → length ps ≡ 2
    → (if t
          then (if ltb (length (select (is_expired now) ps)) 2
              then pure false
              else finalize_match e id EndReason.no_contest none)
          else forfeit_to e id (find (λ p. p.connected) ps))
        db
      ≡ (ok true, after)
    → Outcome id now ps (find (is_match id) after.matches)
decide-if e id now ps db after true two h =
    let i = if-ok _ _ db after h in
    inl (two_late now ps two i.0, finalize_match-HasResult e id _ _ db after i.1)
decide-if e id now ps db after false two h = inr (forfeit_to-ok e id _ db after h)

decide-Outcome :
    (e : Engine) (id now : ℕ) (ps : List ParticipantRow) (db after : Db)
    → length ps ≡ 2
    → decide_disconnects e id ps (select is_away ps) (select (is_expired now) ps) db
      ≡ (ok true, after)
    → Outcome id now ps (find (is_match id) after.matches)
unfolding decide_disconnects
decide-Outcome e id now ps db after two h = decide-if e id now ps db after _ two h

is_active_duel :
    (m : MatchRow)
    → (not (m.state == active) || m.mode == practice) ≡ false
    → (m.state ≡ active) × (m.mode ≢ practice)
is_active_duel m h = ground arith

counts : (m n : ℕ) → (not (nat_beq m 2) || nat_beq n 0) ≡ false → (m ≡ 2) × (0 < n)
counts m n h = ground arith

neither : (s t : Bool) → (s || t) ≡ false → (s ≡ false) × (t ≡ false)
neither s t h = ground arith

clock-kept :
    (db after : Db) (now : ℕ)
    → clock_timestamp db ≡ (ok now, after)
    → (now ≡ (advance db db.delays).clock)
      × (after.participants ≡ db.participants)
      × (after.executions ≡ db.executions)
unfolding clock_timestamp
clock-kept db after now h = ground arith

record WasChecked (id now : ℕ) (ps : List ParticipantRow) (db after : Db) : Type 0 where
  pub not_accepted : any (is_accepted id) db.executions ≡ false
  pub not_waiting :
      any (λ x. is_inflight id x && is_of (select (is_expired now) ps) x) db.executions ≡ false
  pub outcome : Outcome id now ps (find (is_match id) after.matches)

check-ok :
    (e : Engine) (id now : ℕ) (ps : List ParticipantRow) (db after : Db)
    → length ps ≡ 2
    → check_disconnects e id ps (select is_away ps) (select (is_expired now) ps) db
      ≡ (ok true, after)
    → WasChecked id now ps db after
unfolding check_disconnects
check-ok e id now ps db after two h =
    let b1 = bind-ok _ _ db true after h in
    let g1 = gets-ok _ _ _ _ b1.first in
    let b2 = bind-ok _ _ _ true after b1.second in
    let g2 = gets-ok _ _ _ _ b2.first in
    let i = if-ok _ _ _ _ b2.second in
    let n = neither _ _ i.0 in
    record {
      not_accepted = sym g1.0 ∙ n.0;
      not_waiting =
          ap (λ d. any (λ x. is_inflight id x && is_of (select (is_expired now) ps) x) d.executions)
            (sym g1.1)
          ∙ sym g2.0
          ∙ n.1;
      outcome = decide-Outcome e id now ps b2.between after two i.1;
    }

active-ok :
    (e : Engine) (m : MatchRow) (id : ℕ) (db after : Db)
    → find (is_match id) db.matches ≡ some m
    → m.state ≡ active
    → m.mode ≢ practice
    → evaluate_active e m db ≡ (ok true, after)
    → IsAbandoned id db after
unfolding evaluate_active
active-ok e m id db after found a d h =
    let b1 = bind-ok _ _ db true after h in
    let c = clock-kept _ _ _ b1.first in
    let b2 = bind-ok _ _ _ true after b1.second in
    let g = gets-ok _ _ _ _ b2.first in
    let i = if-ok _ _ _ _ b2.second in
    let ps = b2.value in
    let players : by_slot m.id db.participants ≡ ps = sym (g.0 ∙ ap (by_slot m.id) c.1) in
    let n = counts _ _ i.0 in
    let k = check-ok e m.id b1.value ps b2.between after n.0 i.1 in
    let same = ap (λ d. d.executions) g.1 ∙ c.2 in
    record {
      row = m;
      found = found;
      was_active = a;
      is_duel = d;
      now = b1.value;
      is_now = c.0;
      two_players = ap length players ∙ n.0;
      someone_late = subst (λ qs. 0 < length (select (is_expired b1.value) qs)) (sym players) n.1;
      not_accepted = subst (λ xs. any (is_accepted m.id) xs ≡ false) same k.not_accepted;
      not_waiting =
          subst
            (λ xs.
              any
                (λ x.
                  is_inflight m.id x
                  && is_of (select (is_expired b1.value) (by_slot m.id db.participants)) x)
                xs
              ≡ false)
            same
            (subst
              (λ qs.
                any (λ x. is_inflight m.id x && is_of (select (is_expired b1.value) qs) x)
                  b2.between.executions
                ≡ false)
              (sym players) k.not_waiting);
      outcome =
          subst (λ qs. Outcome m.id b1.value qs (find (is_match m.id) after.matches)) (sym players)
            k.outcome;
    }

-- Where disconnects end a match, it was an active duel of two players, one of whom was away beyond
-- the deadline; no accepted submission stood and no one who was late waited for a judgment; and
-- both were late and nobody wins, or the connected player wins by forfeit.
pub evaluate_disconnects-IsAbandoned :
    (e : Engine) (id : ℕ) (db after : Db)
    → evaluate_disconnects e id db ≡ (ok true, after)
    → IsAbandoned id db after
unfolding evaluate_disconnects lock_match
evaluate_disconnects-IsAbandoned e id db after h =
    let b1 = bind-ok _ _ db true after h in
    let b2 = bind-ok _ _ db b1.value b1.between b1.first in
    let g = gets-ok _ _ _ _ b2.first in
    let x = expect-ok _ _ _ _ _ b2.second in
    let i = if-ok _ _ _ _ b1.second in
    let a = is_active_duel b1.value i.0 in
    active-ok e b1.value id db after (sym g.0 ∙ x.0) a.0 a.1
      (subst (λ d. evaluate_active e b1.value d ≡ (ok true, after)) (x.1 ∙ g.1) i.1)
