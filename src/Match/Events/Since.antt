-- ===== src/Match/Events/Since.antt =====
-- `eventsSince` of match-engine.ts.
pub mod Page
use leetbattle.Shared.{ℕ, min, max, Bool, Option, List, select, ◌&&◌, ltb, sort_by, take}
use leetbattle.Store.Rows.{EventRow}
use leetbattle.Store.Tx.{M, gets, ◌>>=◌, ◌>>◌}
use leetbattle.Match.Events.{event_of}
use leetbattle.Match.Locks.{assert_match_participant}

-- An integer: what `Math.trunc` makes of an argument.
pub data ℤ : Type 0 where
  pos negsuc : ℕ → ℤ

-- `Math.max(0, version)`.
abbrev pub since_of : ℤ → ℕ
since_of (pos n) = n
since_of (negsuc n) = 0

-- `Math.max(1, Math.min(500, limit))`.
abbrev pub page_limit : ℤ → ℕ
page_limit (pos n) = max 1 (min 500 n)
page_limit (negsuc n) = 1

abbrev pub is_later : ℕ → ℕ → EventRow → Bool
is_later id since e = event_of id e && ltb since e.version

abbrev pub page : ℕ → ℕ → ℕ → List EventRow → List EventRow
page id since limit events =
    take limit (sort_by (λ e. e.version) (select (is_later id since) events))

unfoldable pub events_since : Option ℕ → ℕ → ℤ → ℤ → M (List EventRow)
events_since actor id version limit = do
  assert_match_participant actor id
  gets λ db. page id (since_of version) (page_limit limit) db.events
