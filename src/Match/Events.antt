-- ===== src/Match/Events.antt =====
-- `appendEvent` of match-engine.ts.
pub mod Since
use leetbattle.Shared.{ℕ, suc, max, Bool, List, [], ◌∷◌, find, update_first, nat_beq, if◌then◌else◌}
use leetbattle.Domain.Errors.{fault}
use leetbattle.Store.Rows.{MatchRow, EventRow, Event}
use leetbattle.Store.Tx.{M, pure, gets, expect, ◌>>=◌, ◌>>◌, clock_timestamp, on_matches, on_events}

abbrev pub is_match : ℕ → MatchRow → Bool
is_match id m = nat_beq m.id id

abbrev pub event_of : ℕ → EventRow → Bool
event_of id e = nat_beq e.match_id id

abbrev pub bump : MatchRow → MatchRow
bump m = record m { version = suc m.version }

-- `GREATEST(clock_timestamp(), max(server_timestamp) + interval '1 microsecond')`.
pub stamp : ℕ → ℕ → List EventRow → ℕ
stamp id now [] = now
stamp id now (e ∷ es) =
    if event_of id e then max (suc e.server_timestamp) (stamp id now es) else stamp id now es

unfoldable pub append_event : ℕ → Event → M EventRow
append_event id event = do
  now ← clock_timestamp
  on_matches (update_first (is_match id) bump)
  bumped ← gets (λ db. find (is_match id) db.matches)
  m ← expect bumped fault
  at ← gets (λ db. stamp id now db.events)
  let row : EventRow = record {
    match_id = id;
    version = m.version;
    event = event;
    server_timestamp = at;
  }
  on_events (λ es. row ∷ es)
  pure row
