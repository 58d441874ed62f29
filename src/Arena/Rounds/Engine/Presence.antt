-- ===== src/Arena/Rounds/Engine/Presence.antt =====
-- The match engine leaves the answers and the evaluations alone: rematches and sessions.
use leetbattle.Arena.Rounds.Engine.Endings.{Keeps-evaluate_disconnects}
use leetbattle.Arena.Rounds.Engine.Heads.{
  Keeps-append_event, Keeps-assert_room_membership, Keeps-complete_command,
  Keeps-get_snapshot_by_match, Keeps-lock_match, Keeps-lock_participant, Keeps-require_actor,
  Keeps-reserve_command,
}
use leetbattle.Arena.Rounds.Frame.{still}
use leetbattle.Arena.Rounds.Rows.{rounds_watch}
use leetbattle.Match.Config.{Engine}
use leetbattle.Match.Presence.{
  connect_session, connect_tx, disconnect_session, expire_stale_sessions,
  expire_stale_sessions_for_match, expire_where, mark_away, purge_old_realtime_sessions,
  reconcile_connection, reconcile_each, reconcile_expired_sessions, reconcile_found, reconcile_tx,
  session_or_new, touch_session,
}
use leetbattle.Match.Receipts.{Reservation}
use leetbattle.Match.Rematch.{
  cast_vote, create_next, create_rematch, insert_rematch, request_rematch, request_rematch_tx, vote,
  vote_open, vote_reserved,
}
use leetbattle.Shared.{Bool, List, Option, [], none, some, ℕ, ◌∷◌}
use leetbattle.Store.Rows.{MatchRow, ParticipantRow, SessionRow}
use leetbattle.Store.Watch.{Keeps, Keeps-bind}

pub Keeps-cast_vote :
    (m : MatchRow) (p : ParticipantRow) (key : List ℕ) → Keeps rounds_watch (cast_vote m p key)
unfolding cast_vote
Keeps-cast_vote m p key = search (still, Keeps-append_event) depth 40

pub Keeps-insert_rematch : (m : MatchRow) → Keeps rounds_watch (insert_rematch m)
unfolding insert_rematch
Keeps-insert_rematch m = search (still, Keeps-append_event) depth 40

pub Keeps-create_next : (m : MatchRow) (o : Option MatchRow) → Keeps rounds_watch (create_next m o)
unfolding create_next
Keeps-create_next m none = search (still, Keeps-insert_rematch) depth 40
Keeps-create_next m (some r) = search still depth 40

pub Keeps-create_rematch : (m : MatchRow) → Keeps rounds_watch (create_rematch m)
unfolding create_rematch
Keeps-create_rematch m = search (still, Keeps-create_next) depth 40

pub Keeps-vote :
    (m : MatchRow) (p : ParticipantRow) (key : List ℕ) → Keeps rounds_watch (vote m p key)
unfolding vote
Keeps-vote m p key =
    search (still, Keeps-complete_command, Keeps-cast_vote, Keeps-create_rematch) depth 40

pub Keeps-vote_open :
    (m : MatchRow) (p : ParticipantRow) (key : List ℕ) (o : Option ℕ)
    → Keeps rounds_watch (vote_open m p key o)
unfolding vote_open
Keeps-vote_open m p key none = search (still, Keeps-vote) depth 40
Keeps-vote_open m p key (some id) = search (still, Keeps-complete_command) depth 40

pub Keeps-vote_reserved :
    (m : MatchRow) (p : ParticipantRow) (key : List ℕ) (r : Reservation)
    → Keeps rounds_watch (vote_reserved m p key r)
unfolding vote_reserved
Keeps-vote_reserved m p key r = search (still, Keeps-vote_open) depth 40

pub Keeps-request_rematch_tx :
    (e : Engine) (user : ℕ) (id : ℕ) (key : List ℕ)
    → Keeps rounds_watch (request_rematch_tx e user id key)
unfolding request_rematch_tx
Keeps-request_rematch_tx e user id key =
    search
      (still, Keeps-lock_match, Keeps-lock_participant, Keeps-reserve_command, Keeps-vote_reserved)
      depth 40

pub Keeps-request_rematch :
    (e : Engine) (actor : Option ℕ) (id : ℕ) (key : List ℕ)
    → Keeps rounds_watch (request_rematch e actor id key)
unfolding request_rematch
Keeps-request_rematch e actor id key =
    search (still, Keeps-require_actor, Keeps-get_snapshot_by_match, Keeps-request_rematch_tx) depth
      40

pub Keeps-connect_tx :
    (e : Engine) (user : ℕ) (room : ℕ) (id : ℕ) (session : ℕ)
    → Keeps rounds_watch (connect_tx e user room id session)
unfolding connect_tx
Keeps-connect_tx e user room id session =
    search (still, Keeps-lock_participant, Keeps-append_event, Keeps-evaluate_disconnects) depth 40

pub Keeps-session_or_new : (x0 : Option ℕ) → Keeps rounds_watch (session_or_new x0)
unfolding session_or_new
Keeps-session_or_new none = search still depth 40
Keeps-session_or_new (some s) = search still depth 40

pub Keeps-connect_session :
    (e : Engine) (actor : Option ℕ) (room : ℕ) (id : ℕ) (session : Option ℕ)
    → Keeps rounds_watch (connect_session e actor room id session)
unfolding connect_session
Keeps-connect_session e actor room id session =
    search
      (
        still, Keeps-require_actor, Keeps-assert_room_membership, Keeps-get_snapshot_by_match,
        Keeps-connect_tx, Keeps-session_or_new,
      )
      depth 40

pub Keeps-touch_session :
    (session : ℕ) (actor : Option ℕ) → Keeps rounds_watch (touch_session session actor)
unfolding touch_session
Keeps-touch_session session actor = search (still, Keeps-require_actor) depth 40

pub Keeps-mark_away :
    (e : Engine) (m : MatchRow) (p : ParticipantRow) (o : Option ℕ)
    → Keeps rounds_watch (mark_away e m p o)
unfolding mark_away
Keeps-mark_away e m p none = search still depth 40
Keeps-mark_away e m p (some at) = search (still, Keeps-append_event) depth 40

pub Keeps-reconcile_tx :
    (e : Engine) (id : ℕ) (user : ℕ) → Keeps rounds_watch (reconcile_tx e id user)
unfolding reconcile_tx
Keeps-reconcile_tx e id user =
    search (still, Keeps-lock_match, Keeps-lock_participant, Keeps-mark_away) depth 40

pub Keeps-reconcile_connection :
    (e : Engine) (id : ℕ) (user : ℕ) → Keeps rounds_watch (reconcile_connection e id user)
unfolding reconcile_connection
Keeps-reconcile_connection e id user = search (still, Keeps-reconcile_tx) depth 40

pub Keeps-reconcile_found :
    (e : Engine) (user : ℕ) (o : Option SessionRow) → Keeps rounds_watch (reconcile_found e user o)
unfolding reconcile_found
Keeps-reconcile_found e user none = search still depth 40
Keeps-reconcile_found e user (some s) = search (still, Keeps-reconcile_connection) depth 40

pub Keeps-disconnect_session :
    (e : Engine) (session : ℕ) (actor : Option ℕ)
    → Keeps rounds_watch (disconnect_session e session actor)
unfolding disconnect_session
Keeps-disconnect_session e session actor =
    search (still, Keeps-require_actor, Keeps-reconcile_found) depth 40

pub Keeps-reconcile_each :
    (e : Engine) (xs : List SessionRow) → Keeps rounds_watch (reconcile_each e xs)
unfolding reconcile_each
Keeps-reconcile_each e [] = search still depth 40
Keeps-reconcile_each e (s ∷ ss) =
    Keeps-bind _ _ _ (Keeps-reconcile_connection e s.match_id s.user) λ _. Keeps-reconcile_each e ss

pub Keeps-reconcile_expired_sessions :
    (e : Engine) (ss : List SessionRow) → Keeps rounds_watch (reconcile_expired_sessions e ss)
unfolding reconcile_expired_sessions
Keeps-reconcile_expired_sessions e ss = search (still, Keeps-reconcile_each) depth 40

pub Keeps-expire_where :
    (e : Engine) (where_match : (SessionRow → Bool))
    → Keeps rounds_watch (expire_where e where_match)
unfolding expire_where
Keeps-expire_where e where_match = search (still, Keeps-reconcile_expired_sessions) depth 40

pub Keeps-expire_stale_sessions : (e : Engine) → Keeps rounds_watch (expire_stale_sessions e)
unfolding expire_stale_sessions
Keeps-expire_stale_sessions e = search (still, Keeps-expire_where) depth 40

pub Keeps-expire_stale_sessions_for_match :
    (e : Engine) (id : ℕ) → Keeps rounds_watch (expire_stale_sessions_for_match e id)
unfolding expire_stale_sessions_for_match
Keeps-expire_stale_sessions_for_match e id = search (still, Keeps-expire_where) depth 40

pub Keeps-purge_old_realtime_sessions :
    (retention : ℕ) (limit : ℕ) → Keeps rounds_watch (purge_old_realtime_sessions retention limit)
unfolding purge_old_realtime_sessions
Keeps-purge_old_realtime_sessions retention limit = search still depth 40
