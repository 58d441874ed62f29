-- ===== src/Realtime/Heartbeat.antt =====
-- `refreshRealtimeSessionHeartbeat` of src/server/realtime/heartbeat.ts, with the match engine for
-- its store.
use leetbattle.Shared.{ℕ, Option, some, none, if◌then◌else◌}
use leetbattle.Store.Tx.{M, pure, ◌>>=◌}
use leetbattle.Match.Config.{Engine}
use leetbattle.Match.Snapshot.{MatchSnapshot}
use leetbattle.Match.Presence.{touch_session, connect_session}

-- RealtimeHeartbeatResult: the snapshot of a session that was connected again.
abbrev pub reactivated : ℕ × MatchSnapshot → Option MatchSnapshot
reactivated (session, snapshot) = some snapshot

unfoldable pub refresh_heartbeat : Engine → Option ℕ → ℕ → ℕ → ℕ → M (Option MatchSnapshot)
refresh_heartbeat e actor room id session = do
  touched ← touch_session session actor
  if touched then pure none else do
    connected ← connect_session e actor room id (some session)
    pure (reactivated connected)
