-- ===== src/Tests/Logging.antt =====
-- Pages of the event log.
use leetbattle.Shared.{ℕ, ◌≡◌, refl, true, some, none, List, [], ◌∷◌}
use leetbattle.Domain.Types.{active, one}
use leetbattle.Domain.Errors.{ok}
use leetbattle.Store.Rows.{Db, EventRow, connection_changed}
use leetbattle.Store.Tx.{pure, gets, expect, ◌>>=◌}
use leetbattle.Match.Locks.{require_actor, assert_match_participant}
use leetbattle.Match.Events.Since.{pos, negsuc, events_since}
use leetbattle.Match.Events.Since.Page.{IsPage, events_since-IsPage}
use leetbattle.Tests.Fixtures.{match_in, players, database}

abbrev event_at : ℕ → ℕ → EventRow
event_at id version = record {
  match_id = id;
  version = version;
  event = connection_changed one true none;
  server_timestamp = version;
}

abbrev logged : Db
logged = record (database (match_in active) players []) {
  events = event_at 7 4 ∷ event_at 6 3 ∷ event_at 7 3 ∷ event_at 7 2 ∷ event_at 7 1 ∷ [];
}

abbrev got : List EventRow
got = event_at 7 2 ∷ event_at 7 3 ∷ []

two_events : events_since (some 1) 7 (pos 1) (pos 2) logged ≡ (ok got, logged)
unfolding events_since require_actor assert_match_participant pure gets expect ◌>>=◌
two_events = refl

first_event : (events_since (some 1) 7 (negsuc 4) (negsuc 0) logged).0 ≡ ok (event_at 7 1 ∷ [])
unfolding events_since require_actor assert_match_participant pure gets expect ◌>>=◌
first_event = refl

events_since-IsPage_example : (logged ≡ logged) × IsPage 7 1 2 logged.events got
events_since-IsPage_example =
    events_since-IsPage (some 1) 7 (pos 1) (pos 2) logged got logged two_events
