-- ===== src/Match/Finish/Records.antt =====
-- What the end of a match does to the records of its players.
use leetbattle.Shared.{
  ℕ, Bool, true, false, ◌≡◌, ◌≢◌, refl, ◌+◌, ◌&&◌, ◌||◌, fun_ext, nat_beq, nat_beq_iff, Option,
  some, none, List, [], ◌∷◌, arith, find, ap, sym, ◌∙◌, subst, ◌==◌, if◌then◌else◌,
}
use mathlib.Core.Option
use leetbattle.Domain.Types.{EndReason, MatchMode, duel, practice, mode_eq}
use leetbattle.Domain.Errors.{ok}
use leetbattle.Domain.StateMachine.{should_apply_record}
use leetbattle.Store.Rows.{Db, MatchRow, ParticipantRow, RecordRow, match_finished}
use leetbattle.Store.Tx.{M, ◌>>=◌, ◌>>◌, pure, gets, expect}
use leetbattle.Store.Watch.{Keeps, Keeps-lift, Keeps-gets, Keeps-guard, kept}
use leetbattle.Store.Outcomes.{bind-ok, gets-ok}
use leetbattle.Match.Config.{Engine}
use leetbattle.Match.Events.{is_match, append_event}
use leetbattle.Match.Locks.{lock_match}
use leetbattle.Match.Snapshot.{by_slot}
use leetbattle.Match.Lifecycle.Steps.{find-is_match}
use leetbattle.Match.Finish.{
  is_open, is_winner, applies_record, of_user, slot_of, open_rematch, finalize_open, finalize_match,
}
use leetbattle.Match.Finish.Tally.{
  records_watch, still, Keeps-clock, Keeps-matches, Keeps-append_event, Keeps-open_rematch, counted,
  tally, settle_players-records, tally_two,
}

-- After the records are counted.
rest : Engine → MatchRow → EndReason → Option ℕ → List ParticipantRow → M Bool
rest e m reason winner ps = do
  append_event m.id (match_finished reason (slot_of (find (is_winner winner) ps)))
  if m.mode == practice then pure true else open_rematch e m.id

Keeps-rest :
    (e : Engine) (m : MatchRow) (reason : EndReason) (winner : Option ℕ) (ps : List ParticipantRow)
    → Keeps records_watch (rest e m reason winner ps)
unfolding rest
Keeps-rest e m reason winner ps = search (still, Keeps-append_event, Keeps-open_rematch) depth 10

finalize_open-records :
    (e : Engine) (m : MatchRow) (reason : EndReason) (winner : Option ℕ) (db after : Db) (b : Bool)
    → finalize_open e m reason winner db ≡ (ok b, after)
    → let ps = by_slot m.id db.participants in
      after.records
      ≡ tally (applies_record m reason (find (is_winner winner) ps)) winner ps db.records
unfolding finalize_open rest
finalize_open-records e m reason winner db after b h =
    let b1 = bind-ok _ _ db b after h in
    let k1 = kept records_watch _ _ _ _ (Keeps-lift _ _) b1.first in
    let b2 = bind-ok _ _ _ b after b1.second in
    let k2 = kept records_watch _ _ _ _ (Keeps-gets _ _) b2.first in
    let b3 = bind-ok _ _ _ b after b2.second in
    let k3 = kept records_watch _ _ _ _ (Keeps-guard _ _ _) b3.first in
    let b4 = bind-ok _ _ _ b after b3.second in
    let k4 = kept records_watch _ _ _ _ Keeps-clock b4.first in
    let b5 = bind-ok _ _ _ b after b4.second in
    let k5 = kept records_watch _ _ _ _ (Keeps-matches _) b5.first in
    let b6 = bind-ok _ _ _ b after b5.second in
    let ps = b2.value in
    let applies = applies_record m reason (find (is_winner winner) ps) in
    let t =
      ap (λ r. r.1.records) (sym b6.first)
      ∙ settle_players-records m.id reason winner applies ps b5.between in
    let k7 = kept records_watch _ _ _ _ (Keeps-rest e m reason winner ps) b6.second in
    let start = ap (λ v. v.0) (k5 ∙ k4 ∙ k3 ∙ k2 ∙ k1) in
    let same_players = (gets-ok _ _ _ _ b2.first).0 ∙ ap (λ v. by_slot m.id v.1) k1 in
    subst
      (λ qs.
        after.records
        ≡ tally (applies_record m reason (find (is_winner winner) qs)) winner qs db.records)
      same_players (ap (λ v. v.0) k7 ∙ t ∙ ap (tally applies winner ps) start)

finalize_match-if :
    (e : Engine) (m : MatchRow) (reason : EndReason) (winner : Option ℕ) (db after : Db) (t : Bool)
    → (if t then finalize_open e m reason winner else pure false) db ≡ (ok true, after)
    → finalize_open e m reason winner db ≡ (ok true, after)
unfolding pure
finalize_match-if e m reason winner db after true h = h
finalize_match-if e m reason winner db after false h = ground arith

finalize_match-locked :
    (e : Engine) (id : ℕ) (m : MatchRow) (reason : EndReason) (winner : Option ℕ) (db after : Db)
    → find (is_match id) db.matches ≡ some m
    → finalize_match e id reason winner db ≡ (ok true, after)
    → finalize_open e m reason winner db ≡ (ok true, after)
unfolding finalize_match lock_match gets expect pure ◌>>=◌
finalize_match-locked e id m reason winner db after found h =
    finalize_match-if e m reason winner db after (is_open m.state) (rw found at h)

-- The ends of a match that count.
abbrev pub counts : MatchMode → EndReason → Bool
counts duel EndReason.accepted = true
counts duel EndReason.forfeit = true
counts duel EndReason.judged = true
counts duel EndReason.answer_timeout = true
counts _ _ = false

-- One win or one loss more, if the end counts.
abbrev pub credit : Bool → Bool → RecordRow → RecordRow
credit false won r = r
credit true true r = record { user = r.user; wins = r.wins + 1; losses = r.losses }
credit true false r = record { user = r.user; wins = r.wins; losses = r.losses + 1 }

-- Is the user the winner?
abbrev pub is_named : ℕ → Option ℕ → Bool
is_named user none = false
is_named user (some other) = nat_beq user other

counts_lem :
    (mode : MatchMode) (reason : EndReason)
    → (mode == duel && should_apply_record reason) ≡ counts mode reason
unfolding should_apply_record
counts_lem duel reason = ground arith
counts_lem practice reason = ground arith

is_winner-is_named :
    (winner : Option ℕ) (p : ParticipantRow) → is_winner winner p ≡ is_named p.user winner
is_winner-is_named none p = refl
is_winner-is_named (some w) p = ground (arith, nat_beq_iff p.user w)

applies-counts :
    (m : MatchRow) (reason : EndReason) (winner : Option ℕ) (p q : ParticipantRow)
    → applies_record m reason (find (is_winner winner) (p ∷ q ∷ []))
      ≡ (counts m.mode reason && (is_named p.user winner || is_named q.user winner))
applies-counts m reason winner p q =
    ground
      (arith, counts_lem m.mode reason, is_winner-is_named winner p, is_winner-is_named winner q)

counted-credit :
    (b : Bool) (winner : Option ℕ) (p : ParticipantRow)
    → counted b winner p ≡ credit b (is_named p.user winner)
counted-credit b winner p = fun_ext λ r. ground (arith, is_winner-is_named winner p)

-- A match counts if it is a duel that ends by acceptance, forfeit, judgment or timeout and a player is
-- the winner. Of the two players of a match that ends, the winner then gets one win and the other one
-- loss, and otherwise neither gets any; the record of no one else changes.
pub finalize_match-records :
    (e : Engine) (id : ℕ) (reason : EndReason) (winner : Option ℕ) (m : MatchRow)
    (p q : ParticipantRow) (other : ℕ) (db after : Db)
    → find (is_match id) db.matches ≡ some m
    → by_slot id db.participants ≡ p ∷ q ∷ []
    → p.user ≢ q.user
    → other ≢ p.user
    → other ≢ q.user
    → finalize_match e id reason winner db ≡ (ok true, after)
    → let won_p = is_named p.user winner in
      let won_q = is_named q.user winner in
      let applies = counts m.mode reason && (won_p || won_q) in
      (find (of_user p.user) after.records
        ≡ Option.map (credit applies won_p) (find (of_user p.user) db.records))
      × (find (of_user q.user) after.records
          ≡ Option.map (credit applies won_q) (find (of_user q.user) db.records))
      × (find (of_user other) after.records ≡ find (of_user other) db.records)
finalize_match-records e id reason winner m p q other db after found players n np nq h =
    let same_id = find-is_match id db.matches m found in
    let t =
      finalize_open-records e m reason winner db after true
        (finalize_match-locked e id m reason winner db after found h) in
    let ps = ap (λ i. by_slot i db.participants) same_id ∙ players in
    let u =
      subst
        (λ xs.
          after.records
          ≡ tally (applies_record m reason (find (is_winner winner) xs)) winner xs db.records)
        ps t in
    rw
      (
        ← applies-counts m reason winner p q,
        ← counted-credit (applies_record m reason (find (is_winner winner) (p ∷ q ∷ []))) winner p,
        ← counted-credit (applies_record m reason (find (is_winner winner) (p ∷ q ∷ []))) winner q,
        u,
      )
      (tally_two _ winner p q db.records other n np nq)
