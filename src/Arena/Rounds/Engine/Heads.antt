-- ===== src/Arena/Rounds/Engine/Heads.antt =====
-- The match engine leaves the answers and the evaluations alone: the reads, receipts, events, countdowns and snapshots.
use leetbattle.Arena.Rounds.Frame.{still}
use leetbattle.Arena.Rounds.Rows.{rounds_watch}
use leetbattle.Domain.Types.{ChallengeType, ai_ml, coding}
use leetbattle.Match.Config.{Engine}
use leetbattle.Match.Countdown.{
  active_event, advance_all, advance_countdown, advance_countdown_tx, grace_at_start,
  process_due_countdowns, start_match, try_advance,
}
use leetbattle.Match.Events.{append_event}
use leetbattle.Match.Locks.{
  assert_match_participant, assert_profile, assert_room_membership, has_live_presence, lock_match,
  lock_participant, require_actor,
}
use leetbattle.Match.Receipts.{
  Command, assert_idempotency_key, complete_command, reserve_command, reserve_with,
}
use leetbattle.Match.Snapshot.{get_snapshot, get_snapshot_by_match}
use leetbattle.Shared.{List, Option, [], none, some, ℕ, ◌∷◌}
use leetbattle.Store.Rows.{Event, MatchRow, ReceiptRow, Response}
use leetbattle.Store.Watch.{Keeps, Keeps-bind}

pub Keeps-require_actor : (actor : Option ℕ) → Keeps rounds_watch (require_actor actor)
unfolding require_actor
Keeps-require_actor actor = search still depth 40

pub Keeps-assert_profile : (user : ℕ) → Keeps rounds_watch (assert_profile user)
unfolding assert_profile
Keeps-assert_profile user = search still depth 40

pub Keeps-lock_match : (id : ℕ) → Keeps rounds_watch (lock_match id)
unfolding lock_match
Keeps-lock_match id = search still depth 40

pub Keeps-lock_participant : (id : ℕ) (user : ℕ) → Keeps rounds_watch (lock_participant id user)
unfolding lock_participant
Keeps-lock_participant id user = search still depth 40

pub Keeps-has_live_presence : (id : ℕ) (user : ℕ) → Keeps rounds_watch (has_live_presence id user)
unfolding has_live_presence
Keeps-has_live_presence id user = search still depth 40

pub Keeps-assert_match_participant :
    (actor : Option ℕ) (id : ℕ) → Keeps rounds_watch (assert_match_participant actor id)
unfolding assert_match_participant
Keeps-assert_match_participant actor id = search (still, Keeps-require_actor) depth 40

pub Keeps-assert_room_membership :
    (actor : Option ℕ) (room : ℕ) → Keeps rounds_watch (assert_room_membership actor room)
unfolding assert_room_membership
Keeps-assert_room_membership actor room = search (still, Keeps-require_actor) depth 40

pub Keeps-assert_idempotency_key : (key : List ℕ) → Keeps rounds_watch (assert_idempotency_key key)
unfolding assert_idempotency_key
Keeps-assert_idempotency_key key = search still depth 40

pub Keeps-reserve_with :
    (e : Engine) (c : Command) (o : Option ReceiptRow) → Keeps rounds_watch (reserve_with e c o)
unfolding reserve_with
Keeps-reserve_with e c none = search still depth 40
Keeps-reserve_with e c (some r) = search still depth 40

pub Keeps-reserve_command : (e : Engine) (c : Command) → Keeps rounds_watch (reserve_command e c)
unfolding reserve_command
Keeps-reserve_command e c = search (still, Keeps-reserve_with) depth 40

pub Keeps-complete_command :
    (actor : ℕ) (key : List ℕ) (reply : Response)
    → Keeps rounds_watch (complete_command actor key reply)
unfolding complete_command
Keeps-complete_command actor key reply = search still depth 40

pub Keeps-append_event : (id : ℕ) (event : Event) → Keeps rounds_watch (append_event id event)
unfolding append_event
Keeps-append_event id event = search still depth 40

pub Keeps-grace_at_start : (e : Engine) (m : MatchRow) → Keeps rounds_watch (grace_at_start e m)
unfolding grace_at_start
Keeps-grace_at_start e m = search still depth 40

pub Keeps-active_event :
    (e : Engine) (k : ChallengeType) (advanced : MatchRow)
    → Keeps rounds_watch (active_event e k advanced)
unfolding active_event
Keeps-active_event e coding advanced = search still depth 40
Keeps-active_event e ai_ml advanced = search still depth 40

pub Keeps-start_match :
    (e : Engine) (m : MatchRow) (o : Option MatchRow) → Keeps rounds_watch (start_match e m o)
unfolding start_match
Keeps-start_match e m none = search still depth 40
Keeps-start_match e m (some advanced) =
    search (still, Keeps-append_event, Keeps-grace_at_start, Keeps-active_event) depth 40

pub Keeps-try_advance : (e : Engine) (m : MatchRow) → Keeps rounds_watch (try_advance e m)
unfolding try_advance
Keeps-try_advance e m = search (still, Keeps-start_match) depth 40

pub Keeps-advance_countdown_tx :
    (e : Engine) (id : ℕ) → Keeps rounds_watch (advance_countdown_tx e id)
unfolding advance_countdown_tx
Keeps-advance_countdown_tx e id = search (still, Keeps-lock_match, Keeps-try_advance) depth 40

pub Keeps-advance_countdown : (e : Engine) (id : ℕ) → Keeps rounds_watch (advance_countdown e id)
unfolding advance_countdown
Keeps-advance_countdown e id = search (still, Keeps-advance_countdown_tx) depth 40

pub Keeps-advance_all : (x0 : Engine) (x1 : List ℕ) → Keeps rounds_watch (advance_all x0 x1)
unfolding advance_all
Keeps-advance_all e [] = search still depth 40
Keeps-advance_all e (id ∷ ids) =
    Keeps-bind _ _ _ (Keeps-advance_countdown e id)
      λ _. Keeps-bind _ _ _ (Keeps-advance_all e ids) λ _. search still

pub Keeps-process_due_countdowns :
    (e : Engine) (limit : ℕ) → Keeps rounds_watch (process_due_countdowns e limit)
unfolding process_due_countdowns
Keeps-process_due_countdowns e limit = search (still, Keeps-advance_all) depth 40

pub Keeps-get_snapshot_by_match :
    (e : Engine) (actor : Option ℕ) (id : ℕ) → Keeps rounds_watch (get_snapshot_by_match e actor id)
unfolding get_snapshot_by_match
Keeps-get_snapshot_by_match e actor id =
    search (still, Keeps-require_actor, Keeps-assert_match_participant, Keeps-advance_countdown)
      depth 40

pub Keeps-get_snapshot :
    (e : Engine) (actor : Option ℕ) (room : ℕ) → Keeps rounds_watch (get_snapshot e actor room)
unfolding get_snapshot
Keeps-get_snapshot e actor room =
    search (still, Keeps-assert_room_membership, Keeps-get_snapshot_by_match) depth 40
