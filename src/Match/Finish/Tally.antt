-- ===== src/Match/Finish/Tally.antt =====
-- How the end of a match counts its result for each player.
use leetbattle.Shared.{
  ℕ, Bool, true, false, ◌≡◌, ◌≢◌, refl, Option, List, [], ◌∷◌, arith, find, update_first, ap, sym,
  ◌∙◌, if◌then◌else◌,
}
use mathlib.Core.Option
use leetbattle.Domain.Types.{EndReason, mode_eq}
use leetbattle.Store.Rows.{Db, MatchRow, ParticipantRow, RecordRow, EventRow, Event}
use leetbattle.Store.Tx.{
  ◌>>=◌, pure, advance, clock_timestamp, on_matches, on_events, on_participants, on_records,
}
use leetbattle.Store.Watch.{
  Watch, Keeps, Keeps-lift, Keeps-gets, Keeps-guard, Keeps-pure, Keeps-expect, Keeps-if, Keeps-bind,
  kept,
}
use leetbattle.Match.Config.{Engine}
use leetbattle.Match.Events.{append_event}
use leetbattle.Match.Locks.{lock_match}
use leetbattle.Match.Finish.{
  is_winner, of_user, score, count_result, settle_players, announce_rematch, open_rematch,
}

abbrev pub records_watch : Watch
records_watch = record {
  View = List RecordRow × List ParticipantRow;
  view = λ db. (db.records, db.participants);
  Rel = λ v w. v ≡ w;
  rel_refl = λ v. refl;
  rel_trans = λ u v w h k. h ∙ k;
  rel_rollback = λ before after h. refl;
}

advance_records :
    (db : Db) (ds : List ℕ) → records_watch.view (advance db ds) ≡ records_watch.view db
advance_records db [] = refl
advance_records db (d ∷ ds) = refl

pub Keeps-clock : Keeps records_watch clock_timestamp
unfolding clock_timestamp
Keeps-clock = record { at = λ db. advance_records db db.delays }

pub Keeps-matches : (f : List MatchRow → List MatchRow) → Keeps records_watch (on_matches f)
unfolding on_matches
Keeps-matches f = record { at = λ db. refl }

pub Keeps-events : (f : List EventRow → List EventRow) → Keeps records_watch (on_events f)
unfolding on_events
Keeps-events f = record { at = λ db. refl }

pub ruleset still = (
  Keeps-lift, Keeps-gets, Keeps-guard, Keeps-pure, Keeps-expect, Keeps-if, Keeps-bind, Keeps-clock,
  Keeps-matches, Keeps-events,
)

pub Keeps-append_event : (i : ℕ) (event : Event) → Keeps records_watch (append_event i event)
unfolding append_event
Keeps-append_event i event = search still depth 20

Keeps-announce : (i deadline : ℕ) (b : Bool) → Keeps records_watch (announce_rematch i deadline b)
unfolding announce_rematch
Keeps-announce i deadline false = search still
Keeps-announce i deadline true = search (still, Keeps-append_event)

pub Keeps-open_rematch : (i : ℕ) (e : Engine) → Keeps records_watch (open_rematch e i)
unfolding open_rematch
Keeps-open_rematch i e = search (still, Keeps-announce) depth 20

Keeps-lock_match : (i : ℕ) → Keeps records_watch (lock_match i)
unfolding lock_match
Keeps-lock_match i = search still

-- What the end does to the record of a player, if the end counts.
abbrev pub counted : Bool → Option ℕ → ParticipantRow → RecordRow → RecordRow
counted applies winner p r = if applies then score (is_winner winner p) r else r

abbrev pub tally : Bool → Option ℕ → List ParticipantRow → List RecordRow → List RecordRow
tally applies winner [] rs = rs
tally applies winner (p ∷ ps) rs =
    tally applies winner ps (update_first (of_user p.user) (counted applies winner p) rs)

update_first-same : (p : RecordRow → Bool) (rs : List RecordRow) → update_first p (λ r. r) rs ≡ rs
update_first-same p [] = refl
update_first-same p (r ∷ rs) = ground (arith, update_first-same p rs)

pub settle_players-records :
    (id : ℕ) (reason : EndReason) (winner : Option ℕ) (applies : Bool) (ps : List ParticipantRow)
    (db : Db)
    → (settle_players id reason winner applies ps db).1.records ≡ tally applies winner ps db.records
unfolding settle_players count_result on_participants on_records pure ◌>>=◌
settle_players-records id reason winner applies [] db = refl
settle_players-records id reason winner true (p ∷ ps) db =
    settle_players-records id reason winner true ps _
settle_players-records id reason winner false (p ∷ ps) db =
    settle_players-records id reason winner false ps _
    ∙ ap (tally false winner ps) (sym (update_first-same (of_user p.user) db.records))

find-update_same :
    (u : ℕ) (f : RecordRow → RecordRow) (rs : List RecordRow)
    → ((r : RecordRow) → (f r).user ≡ r.user)
    → find (of_user u) (update_first (of_user u) f rs) ≡ Option.map f (find (of_user u) rs)
find-update_same u f [] h = refl
find-update_same u f (r ∷ rs) h = ground (arith, find-update_same u f rs h, h r)

find-update_other :
    (u v : ℕ) (f : RecordRow → RecordRow) (rs : List RecordRow)
    → ((r : RecordRow) → (f r).user ≡ r.user)
    → u ≢ v
    → find (of_user u) (update_first (of_user v) f rs) ≡ find (of_user u) rs
find-update_other u v f [] h n = refl
find-update_other u v f (r ∷ rs) h n = ground (arith, find-update_other u v f rs h n, h r)

counted-user :
    (applies : Bool) (winner : Option ℕ) (p : ParticipantRow) (r : RecordRow)
    → (counted applies winner p r).user ≡ r.user
counted-user applies winner p r = ground arith

pub tally_two :
    (applies : Bool) (winner : Option ℕ) (p q : ParticipantRow) (rs : List RecordRow) (other : ℕ)
    → p.user ≢ q.user
    → other ≢ p.user
    → other ≢ q.user
    → let after = tally applies winner (p ∷ q ∷ []) rs in
      (find (of_user p.user) after
        ≡ Option.map (counted applies winner p) (find (of_user p.user) rs))
      × (find (of_user q.user) after
          ≡ Option.map (counted applies winner q) (find (of_user q.user) rs))
      × (find (of_user other) after ≡ find (of_user other) rs)
tally_two applies winner p q rs other n m k =
    let fp = counted applies winner p in
    let fq = counted applies winner q in
    let rp = update_first (of_user p.user) fp rs in
    (
      find-update_other p.user q.user fq rp (counted-user applies winner q) n
          ∙ find-update_same p.user fp rs (counted-user applies winner p),
      find-update_same q.user fq rp (counted-user applies winner q)
          ∙ ap (Option.map fq) (
              find-update_other q.user p.user fp rs (counted-user applies winner p)
                (λ e. n (sym e))),
      find-update_other other q.user fq rp (counted-user applies winner q) k
          ∙ find-update_other other p.user fp rs (counted-user applies winner p) m,
    )
