-- ===== src/Match/Events/Since/Page.antt =====
-- The page of the event log that a player gets.
use leetbattle.Shared.{
  ℕ, ◌≡◌, ◌<◌, min, true, Option, List, select, length, arith, leb, sort_by, IsOrderedBy, All,
  All-select, All-sort_by, All-take, sort_by-IsOrderedBy, take-IsOrderedBy, length-select-take,
  length-select-sort_by, ◌∙◌, ap, subst, sym,
}
use leetbattle.Domain.Types.{Slot}
use leetbattle.Domain.Errors.{ok}
use leetbattle.Store.Rows.{Db, EventRow}
use leetbattle.Store.Tx.{gets}
use leetbattle.Store.Outcomes.{bind-ok, gets-ok, expect-ok, pure-ok}
use leetbattle.Match.Events.{event_of}
use leetbattle.Match.Locks.{assert_match_participant, require_actor}
use leetbattle.Match.Events.Since.{ℤ, since_of, page_limit, is_later, page, events_since}

-- The events of a match after a version, the first ones in the order of versions: of those up to
-- any version, a page has all, or as many as the limit allows.
pub record IsPage (id since limit : ℕ) (events got : List EventRow) : Type 0 where
  pub of_match : All (λ e. event_of id e ≡ true) got
  pub after : All (λ e. since < e.version) got
  pub ordered : IsOrderedBy (λ e. e.version) got
  pub complete :
      (v : ℕ)
      → length (select (λ e. leb e.version v) got)
        ≡ min limit (length (select (λ e. leb e.version v) (select (is_later id since) events)))

page-IsPage :
    (id since limit : ℕ) (events : List EventRow)
    → IsPage id since limit events (page id since limit events)
page-IsPage id since limit events =
    let later = select (is_later id since) events in
    let key : EventRow → ℕ = λ e. e.version in
    record {
      of_match =
          All-take (λ e. event_of id e ≡ true) limit (sort_by key later)
            (All-sort_by key (λ e. event_of id e ≡ true) later
              (All-select (λ e. event_of id e ≡ true) (is_later id since) (λ e h. ground arith)
                events));
      after =
          All-take (λ e. since < e.version) limit (sort_by key later)
            (All-sort_by key (λ e. since < e.version) later
              (All-select (λ e. since < e.version) (is_later id since) (λ e h. ground arith)
                events));
      ordered = take-IsOrderedBy key limit (sort_by key later) (sort_by-IsOrderedBy key later);
      complete = λ v.
          length-select-take key v limit (sort_by key later) (sort_by-IsOrderedBy key later)
          ∙ ap (min limit) (length-select-sort_by key (λ e. leb e.version v) later);
    }

require_actor-ok :
    (actor : Option ℕ) (db : Db) (u : ℕ) (after : Db)
    → require_actor actor db ≡ (ok u, after)
    → after ≡ db
unfolding require_actor
require_actor-ok actor db u after h = (expect-ok actor _ db u after h).1

assert_match_participant-ok :
    (actor : Option ℕ) (id : ℕ) (db : Db) (slot : Slot) (after : Db)
    → assert_match_participant actor id db ≡ (ok slot, after)
    → after ≡ db
unfolding assert_match_participant
assert_match_participant-ok actor id db slot after h =
    let user = bind-ok _ _ db slot after h in
    let found = bind-ok _ _ user.between slot after user.second in
    let there = bind-ok _ _ found.between slot after found.second in
    (pure-ok _ there.between slot after there.second).1
    ∙ (expect-ok _ _ found.between there.value there.between there.first).1
    ∙ (gets-ok _ user.between found.value found.between found.first).1
    ∙ require_actor-ok actor db user.value user.between user.first

-- When `eventsSince` returns, it has changed nothing, and it gives the events of the match after the
-- version, in the order of versions, up to the limit, so that none is left out before one that it
-- gives.
pub events_since-IsPage :
    (actor : Option ℕ) (id : ℕ) (version limit : ℤ) (db : Db) (got : List EventRow) (after : Db)
    → events_since actor id version limit db ≡ (ok got, after)
    → (after ≡ db) × IsPage id (since_of version) (page_limit limit) db.events got
unfolding events_since
events_since-IsPage actor id version limit db got after h =
    let read : Db → List EventRow = λ d. page id (since_of version) (page_limit limit) d.events in
    let start = bind-ok (assert_match_participant actor id) (λ s. gets read) db got after h in
    let answer = gets-ok read start.between got after start.second in
    let same = assert_match_participant-ok actor id db start.value start.between start.first in
    (
      answer.1 ∙ same,
      subst (IsPage id (since_of version) (page_limit limit) db.events)
          (ap read (sym same) ∙ sym answer.0)
          (page-IsPage id (since_of version) (page_limit limit) db.events),
    )
