-- ===== src/Match/Lifecycle/Steps.antt =====
-- The parts of the methods: those that leave `matches` alone, and those that take its rows forward.
use leetbattle.Shared.{subst, sym, ℕ, List, [], ◌∷◌, Option, some, none, ◌≡◌, find, arith, refl}
use leetbattle.Domain.Types.{ChallengeType, coding, ai_ml}
use leetbattle.Store.Rows.{Db, MatchRow, Response, Event, ReceiptRow}
use leetbattle.Store.Tx.{M, ◌>>=◌, expect, pure, raise, continue}
use leetbattle.Domain.Errors.{Error}
use leetbattle.Store.Watch.{
  Keeps, Run, Run-keep, Run-bind, Run-bind_keep, Run-if, Run-begin, Keeps-lift, Keeps-guard,
  Keeps-gets, Keeps-expect,
}
use leetbattle.Match.Config.{Engine}
use leetbattle.Match.Receipts.{Command, reserve_with, reserve_command, complete_command}
use leetbattle.Match.Events.{is_match, append_event}
use leetbattle.Match.Locks.{
  require_actor, assert_profile, lock_match, lock_participant, has_live_presence,
  assert_match_participant, assert_room_membership,
}
use leetbattle.Match.Countdown.{
  grace_at_start, active_event, start_match, try_advance, advance_countdown_tx, advance_countdown,
}
use leetbattle.Match.Snapshot.{get_snapshot_by_match, get_snapshot}
use leetbattle.Match.Lifecycle.Rows.{matches_watch, Evolves, Evolves-refl}
use leetbattle.Match.Lifecycle.Frame.{frame, Keeps-clock}
use leetbattle.Match.Lifecycle.Writes.{writes}

pub Keeps-complete_command :
    (actor : ℕ) (key : List ℕ) (reply : Response)
    → Keeps matches_watch (complete_command actor key reply)
unfolding complete_command
Keeps-complete_command actor key reply = search frame

Keeps-reserve_with :
    (e : Engine) (c : Command) (o : Option ReceiptRow) → Keeps matches_watch (reserve_with e c o)
unfolding reserve_with
Keeps-reserve_with e c none = search frame
Keeps-reserve_with e c (some r) = search frame

pub Keeps-reserve_command : (e : Engine) (c : Command) → Keeps matches_watch (reserve_command e c)
unfolding reserve_command
Keeps-reserve_command e c = search (frame, Keeps-reserve_with)

pub Keeps-require_actor : (actor : Option ℕ) → Keeps matches_watch (require_actor actor)
unfolding require_actor
Keeps-require_actor actor = search frame

pub Keeps-assert_profile : (user : ℕ) → Keeps matches_watch (assert_profile user)
unfolding assert_profile
Keeps-assert_profile user = search frame

pub Keeps-lock_match : (id : ℕ) → Keeps matches_watch (lock_match id)
unfolding lock_match
Keeps-lock_match id = search frame

pub Keeps-lock_participant : (id user : ℕ) → Keeps matches_watch (lock_participant id user)
unfolding lock_participant
Keeps-lock_participant id user = search frame

pub Keeps-has_live_presence : (id user : ℕ) → Keeps matches_watch (has_live_presence id user)
unfolding has_live_presence
Keeps-has_live_presence id user = search frame

pub Keeps-assert_match_participant :
    (actor : Option ℕ) (id : ℕ) → Keeps matches_watch (assert_match_participant actor id)
unfolding assert_match_participant
Keeps-assert_match_participant actor id = search (frame, Keeps-require_actor)

pub Keeps-assert_room_membership :
    (actor : Option ℕ) (room : ℕ) → Keeps matches_watch (assert_room_membership actor room)
unfolding assert_room_membership
Keeps-assert_room_membership actor room = search (frame, Keeps-require_actor) depth 12

pub ruleset quiet = (
  frame, Keeps-complete_command, Keeps-reserve_command, Keeps-require_actor, Keeps-assert_profile,
  Keeps-lock_match, Keeps-lock_participant, Keeps-has_live_presence, Keeps-assert_match_participant,
  Keeps-assert_room_membership,
)

pub ruleset runs = (quiet, writes, Run-keep, Run-bind, Run-if, Run-begin)

pub Run-append_event :
    (v : List MatchRow) (id : ℕ) (event : Event) → Run matches_watch v (append_event id event)
unfolding append_event
Run-append_event v id event = search runs depth 20

pub find-is_match :
    (id : ℕ) (ms : List MatchRow) (m : MatchRow) → find (is_match id) ms ≡ some m → m.id ≡ id
find-is_match id [] m h = cc
find-is_match id (n ∷ ms) m h = ground (arith, find-is_match id ms m)

bound_row :
    {B : Type 0} (v : List MatchRow) (x : Error) (k : MatchRow → M B) (db : Db)
    (o : Option MatchRow)
    → db.matches ≡ v
    → ((m : MatchRow) → o ≡ some m → Run matches_watch v (k m))
    → Evolves v (continue (expect o x db) k).1.matches
unfolding expect pure raise
bound_row v x k db none e h = subst (Evolves v) (sym e) (Evolves-refl v)
bound_row v x k db (some m) e h = (h m refl).at db e

-- The locked row is the one that the table holds under its identifier.
pub Run-bind_lock :
    {B : Type 0} (v : List MatchRow) (id : ℕ) (k : MatchRow → M B)
    → ((m : MatchRow) → find (is_match m.id) v ≡ some m → Run matches_watch v (k m))
    → Run matches_watch v (lock_match id >>= k)
unfolding lock_match ◌>>=◌
Run-bind_lock v id k h = record {
  at = λ db e. bound_row v _ k db (find (is_match id) db.matches) e (λ m found.
      let here : find (is_match id) v ≡ some m = rw e at found in
      h m (subst (λ i. find (is_match i) v ≡ some m) (sym (find-is_match id v m here)) here));
}

pub Keeps-grace_at_start : (e : Engine) (m : MatchRow) → Keeps matches_watch (grace_at_start e m)
unfolding grace_at_start
Keeps-grace_at_start e m = search frame

pub Keeps-active_event :
    (e : Engine) (c : ChallengeType) (m : MatchRow) → Keeps matches_watch (active_event e c m)
unfolding active_event
Keeps-active_event e coding m = search frame
Keeps-active_event e ai_ml m = search frame

Run-start_match :
    (v : List MatchRow) (e : Engine) (m : MatchRow) (o : Option MatchRow)
    → Run matches_watch v (start_match e m o)
unfolding start_match
Run-start_match v e m none = search runs
Run-start_match v e m (some a) =
    search (runs, Run-append_event, Keeps-grace_at_start, Keeps-active_event) depth 20

Run-try_advance :
    (v : List MatchRow) (e : Engine) (m : MatchRow) → Run matches_watch v (try_advance e m)
unfolding try_advance
Run-try_advance v e m = search (runs, Run-start_match) depth 20

Run-advance_countdown_tx :
    (v : List MatchRow) (e : Engine) (id : ℕ) → Run matches_watch v (advance_countdown_tx e id)
unfolding advance_countdown_tx
Run-advance_countdown_tx v e id = search (runs, Run-try_advance) depth 20

pub Run-advance_countdown :
    (v : List MatchRow) (e : Engine) (id : ℕ) → Run matches_watch v (advance_countdown e id)
unfolding advance_countdown
Run-advance_countdown v e id = search (Run-begin, Run-advance_countdown_tx)

pub Run-get_snapshot_by_match :
    (v : List MatchRow) (e : Engine) (actor : Option ℕ) (id : ℕ)
    → Run matches_watch v (get_snapshot_by_match e actor id)
unfolding get_snapshot_by_match
Run-get_snapshot_by_match v e actor id = search (runs, Run-advance_countdown) depth 30

pub Run-get_snapshot :
    (v : List MatchRow) (e : Engine) (actor : Option ℕ) (room : ℕ)
    → Run matches_watch v (get_snapshot e actor room)
unfolding get_snapshot
Run-get_snapshot v e actor room = search (runs, Run-get_snapshot_by_match) depth 20

pub ruleset steps =
    (runs, Run-append_event, Run-advance_countdown, Run-get_snapshot_by_match, Run-get_snapshot)
