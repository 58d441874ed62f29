-- ===== src/Realtime/Limits.antt =====
-- src/server/realtime/limits.ts. Times are milliseconds; an unchecked value is a number or not a
-- safe one.
pub mod Rate
use leetbattle.Shared.{
  ℕ, ◌+◌, max, Bool, true, false, Option, some, none, List, [], ◌∷◌, ltb, leb, if◌then◌else◌,
}

abbrev pub max_realtime_sockets_per_user_per_match : ℕ
max_realtime_sockets_per_user_per_match = 2

abbrev pub command_interval_ms : ℕ
command_interval_ms = 500

abbrev pub ping_interval_ms : ℕ
ping_interval_ms = 5000

abbrev pub snapshot_interval_ms : ℕ
snapshot_interval_ms = 2000

-- RealtimeCommandRateState.
pub record RateState : Type 0 where
  pub command_not_before : ℕ
  pub ping_not_before : ℕ
  pub snapshot_not_before : ℕ

-- RateLimitedRealtimeCommand.
pub data LimitedCommand : Type 0 where
  ping snapshot : LimitedCommand

-- RealtimeCommandAdmission.
pub data Admission : Type 0 where
  allowed : RateState → Admission
  refused : ℕ → RateState → Admission

abbrev pub empty_rate_state : RateState
empty_rate_state = record { command_not_before = 0; ping_not_before = 0; snapshot_not_before = 0 }

-- `none` is no number, no safe integer or a negative one.
abbrev pub safe_timestamp : Option ℕ → ℕ
safe_timestamp none = 0
safe_timestamp (some t) = t

pub record RawRateState : Type 0 where
  pub command_not_before : Option ℕ
  pub ping_not_before : Option ℕ
  pub snapshot_not_before : Option ℕ

unfoldable pub read_rate_state : RawRateState → RateState
read_rate_state r = record {
  command_not_before = safe_timestamp r.command_not_before;
  ping_not_before = safe_timestamp r.ping_not_before;
  snapshot_not_before = safe_timestamp r.snapshot_not_before;
}

abbrev pub specific_not_before : RateState → LimitedCommand → ℕ
specific_not_before s ping = s.ping_not_before
specific_not_before s snapshot = s.snapshot_not_before

abbrev pub admitted : RateState → LimitedCommand → ℕ → RateState
admitted s ping now = record s {
  command_not_before = now + command_interval_ms;
  ping_not_before = now + ping_interval_ms;
}
admitted s snapshot now = record s {
  command_not_before = now + command_interval_ms;
  snapshot_not_before = now + snapshot_interval_ms;
}

unfoldable pub admit_command : RateState → LimitedCommand → ℕ → Admission
admit_command s c now =
    let retry_at = max s.command_not_before (specific_not_before s c) in
    if ltb now retry_at then refused retry_at s else allowed (admitted s c now)

unfoldable pub has_reached_socket_cap : ℕ → Bool
has_reached_socket_cap active = leb max_realtime_sockets_per_user_per_match active
