-- ===== src/Match/Presence.antt =====
-- The realtime sessions of match-engine.ts: `connectSession`, `touchSession`,
-- `disconnectSession`, `reconcileConnection`, the expiry of stale sessions and their purge.
use leetbattle.Shared.{
  sort_by, take, ℕ, ◌+◌, max, min, Bool, true, false, not, ◌&&◌, ◌||◌, Option, some, none, List, [],
  ◌∷◌, length, find, select, any, update, update_first, nat_beq, leb, ◌==◌, if◌then◌else◌, is_none,
  is_some, option_eq, nat_eq,
}
use leetbattle.Domain.Types.{
  active, duel, Activity, thinking, disconnected, activity_eq, state_eq, mode_eq,
}
use leetbattle.Domain.Errors.{domain_error, match_not_found}
use leetbattle.Store.Rows.{Db, MatchRow, ParticipantRow, SessionRow, connection_changed}
use leetbattle.Store.Tx.{
  M, pure, gets, guard, begin, ◌>>=◌, ◌>>◌, clock_timestamp, new_id, on_participants, on_sessions,
}
use leetbattle.Match.Config.{Engine, seconds, stale_after_seconds}
use leetbattle.Match.Events.{append_event}
use leetbattle.Match.Locks.{
  require_actor, assert_room_membership, lock_match, lock_participant, is_participant, is_room,
  is_member, is_fresh_session,
}
use leetbattle.Match.Countdown.{get_or}
use leetbattle.Match.Snapshot.{MatchSnapshot, get_snapshot_by_match}
use leetbattle.Match.Disconnects.{evaluate_disconnects}

abbrev pub is_session : ℕ → SessionRow → Bool
is_session id s = nat_beq s.id id

abbrev pub reopen : ℕ → ℕ → SessionRow → SessionRow
reopen user now s =
    if nat_beq s.user user then record s { last_seen_at = now; disconnected_at = none } else s

-- ON CONFLICT (id) DO UPDATE.
abbrev pub upsert_session : ℕ → ℕ → ℕ → ℕ → ℕ → List SessionRow → List SessionRow
upsert_session id room match_id user now ss =
    if any (is_session id) ss
    then update_first (is_session id) (reopen user now) ss
    else record {
      id = id;
      room_id = room;
      match_id = match_id;
      user = user;
      last_seen_at = now;
      disconnected_at = none;
    }
      ∷ ss

abbrev pub come_back : ParticipantRow → ParticipantRow
come_back p = record p {
  connected = true;
  disconnected_at = none;
  reconnect_deadline = none;
  activity =
      if is_some p.active_execution
      then Activity.judging
      else if p.activity == disconnected
      then thinking
      else p.activity;
}

unfoldable pub connect_tx : Engine → ℕ → ℕ → ℕ → ℕ → M (Unit {0})
connect_tx e user room id session = do
  evaluate_disconnects e id
  p ← lock_participant id user
  now ← clock_timestamp
  on_sessions (upsert_session session room id user now)
  on_participants (update_first (is_participant id user) come_back)
  if p.connected then pure tt else do append_event id (connection_changed p.slot true none); pure tt

unfoldable pub session_or_new : Option ℕ → M ℕ
session_or_new none = new_id
session_or_new (some s) = pure s

unfoldable pub connect_session : Engine → Option ℕ → ℕ → ℕ → Option ℕ → M (ℕ × MatchSnapshot)
connect_session e actor room id session = do
  user ← require_actor actor
  membership ← assert_room_membership actor room
  guard (membership.match_id == some id) (domain_error match_not_found 409)
  s ← session_or_new session
  begin (connect_tx e user room id s)
  snapshot ← get_snapshot_by_match e actor id
  pure (s, snapshot)

-- The session is the user's, open, and on the match that its room plays, of which the user is a
-- member.
abbrev pub is_touched : ℕ → ℕ → Db → SessionRow → Bool
is_touched session user db s =
    is_session session s
    && (nat_beq s.user user
        && (is_none s.disconnected_at
            && (any (λ r. is_room s.room_id r && r.active_match == some s.match_id) db.rooms
                && any (is_member s.room_id s.user) db.members)))

unfoldable pub touch_session : ℕ → Option ℕ → M Bool
touch_session session actor = do
  user ← require_actor actor
  now ← clock_timestamp
  db ← gets (λ db. db)
  on_sessions (update_first (is_touched session user db) (λ s. record s { last_seen_at = now }))
  pure (any (is_touched session user db) db.sessions)

-- `max(COALESCE(disconnected_at, last_seen_at))` over the sessions of the user on the match.
abbrev pub later_of : Option ℕ → ℕ → Option ℕ
later_of none t = some t
later_of (some u) t = some (max u t)

abbrev pub last_presence : ℕ → ℕ → List SessionRow → Option ℕ
last_presence id user [] = none
last_presence id user (s ∷ ss) =
    if nat_beq s.match_id id && nat_beq s.user user
    then later_of (last_presence id user ss) (get_or s.last_seen_at s.disconnected_at)
    else last_presence id user ss

abbrev pub has_grace : MatchRow → Bool
has_grace m = m.state == active && m.mode == duel

abbrev pub go_away : Engine → MatchRow → ℕ → ParticipantRow → ParticipantRow
go_away e m at p = record p {
  connected = false;
  disconnected_at = some at;
  reconnect_deadline = if has_grace m then some (at + seconds e.reconnect_grace_seconds) else none;
  activity = disconnected;
}

unfoldable pub mark_away : Engine → MatchRow → ParticipantRow → Option ℕ → M (Unit {0})
mark_away e m p none = pure tt
mark_away e m p (some at) = do
  on_participants (update_first (is_participant m.id p.user) (go_away e m at))
  append_event m.id (
      connection_changed p.slot false
        (if has_grace m then some e.reconnect_grace_seconds else none))
  pure tt

unfoldable pub reconcile_tx : Engine → ℕ → ℕ → M (Unit {0})
reconcile_tx e id user = do
  m ← lock_match id
  p ← lock_participant id user
  now ← clock_timestamp
  is_present ← gets (λ db. any (is_fresh_session now id user) db.sessions)
  last ← gets (λ db. last_presence id user db.sessions)
  if is_present || not p.connected then pure tt else mark_away e m p last

unfoldable pub reconcile_connection : Engine → ℕ → ℕ → M (Unit {0})
reconcile_connection e id user = begin (reconcile_tx e id user)

abbrev pub is_open_session : ℕ → ℕ → SessionRow → Bool
is_open_session session user s =
    is_session session s && (nat_beq s.user user && is_none s.disconnected_at)

unfoldable pub reconcile_found : Engine → ℕ → Option SessionRow → M (Unit {0})
reconcile_found e user none = pure tt
reconcile_found e user (some s) = reconcile_connection e s.match_id user

unfoldable pub disconnect_session : Engine → ℕ → Option ℕ → M (Unit {0})
disconnect_session e session actor = do
  user ← require_actor actor
  now ← clock_timestamp
  found ← gets (λ db. find (is_open_session session user) db.sessions)
  on_sessions
      (update_first (is_open_session session user) (λ s. record s { disconnected_at = some now }))
  reconcile_found e user found

abbrev pub is_stale_session : ℕ → SessionRow → Bool
is_stale_session now s =
    is_none s.disconnected_at && leb (s.last_seen_at + seconds stale_after_seconds) now

-- The Map of `reconcileExpiredSessions`: each pair once, in the order of its first session.
abbrev pub same_pair : SessionRow → SessionRow → Bool
same_pair s t = nat_beq t.match_id s.match_id && nat_beq t.user s.user

pub distinct_sessions : List SessionRow → List SessionRow
distinct_sessions [] = []
distinct_sessions (s ∷ ss) = s ∷ select (λ t. not (same_pair s t)) (distinct_sessions ss)

unfoldable pub reconcile_each : Engine → List SessionRow → M (Unit {0})
reconcile_each e [] = pure tt
reconcile_each e (s ∷ ss) = do reconcile_connection e s.match_id s.user; reconcile_each e ss

unfoldable pub reconcile_expired_sessions : Engine → List SessionRow → M ℕ
reconcile_expired_sessions e ss = do reconcile_each e (distinct_sessions ss); pure (length ss)

unfoldable pub expire_where : Engine → (SessionRow → Bool) → M ℕ
expire_where e where_match = do
  now ← clock_timestamp
  stale ← gets (λ db. select (λ s. where_match s && is_stale_session now s) db.sessions)
  on_sessions (
      update (λ s. where_match s && is_stale_session now s)
        (λ s. record s { disconnected_at = some s.last_seen_at }))
  reconcile_expired_sessions e stale

unfoldable pub expire_stale_sessions : Engine → M ℕ
expire_stale_sessions e = expire_where e (λ _. true)

unfoldable pub expire_stale_sessions_for_match : Engine → ℕ → M ℕ
expire_stale_sessions_for_match e id = expire_where e (λ s. nat_beq s.match_id id)

abbrev pub is_old_session : ℕ → ℕ → SessionRow → Bool
is_old_session now retention s = elim s.disconnected_at [
  | none ↦ false
  | some at ↦ leb (at + seconds retention) now
]

abbrev pub is_among : List SessionRow → SessionRow → Bool
is_among gone s = any (λ t. nat_beq t.id s.id) gone

unfoldable pub purge_old_realtime_sessions : ℕ → ℕ → M ℕ
purge_old_realtime_sessions retention limit = do
  now ← clock_timestamp
  gone ← gets λ db. take (max 1 (min 5000 limit)) (
      sort_by (λ s. get_or 0 s.disconnected_at)
        (sort_by (λ s. s.id)
          (select (is_old_session now (max 60 (min 31536000 retention))) db.sessions)))
  on_sessions (select (λ s. not (is_among gone s)))
  pure (length gone)
