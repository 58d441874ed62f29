-- ===== src/Realtime/Tickets.antt =====
-- The use of a ticket, src/server/realtime/tickets.ts: `verifyAndConsume` and `purgeExpiredUses`.
-- Times of the tables are microseconds, those of a ticket and of the worker's clock seconds.
-- `jwtVerify` of the library jose, with the key, is a parameter.
pub mod Single
use leetbattle.Shared.{
  ℕ, ◌+◌, ◌*◌, Bool, false, not, ◌&&◌, Option, some, none, List, ◌∷◌, length, select, find, any,
  update, ltb, nat_beq, ◌==◌, option_eq, nat_eq, is_none, if◌then◌else◌,
}
use leetbattle.Domain.Types.{Slot, slot_eq}
use leetbattle.Domain.Errors.{Result, ok, err, domain_error, ticket_invalid, ticket_replayed}
use leetbattle.Store.Rows.{Db, RoomRow, MemberRow}
use leetbattle.Match.Locks.{is_member, is_room}

-- What is read of a verified ticket; `none` is a claim of another type.
pub record Payload : Type 0 where
  pub sub : Option ℕ
  pub jti : Option ℕ
  pub exp : Option ℕ
  pub room : Option ℕ
  pub round : Option ℕ
  pub slot : Option Slot

-- RealtimeClaims.
pub record Claims : Type 0 where
  pub user : ℕ
  pub room : ℕ
  pub round : ℕ
  pub slot : Slot
  pub jti : ℕ
  pub exp : ℕ

abbrev pub claims_from :
    Option ℕ → Option ℕ → Option ℕ → Option ℕ → Option ℕ → Option Slot → Option Claims
claims_from (some user) (some jti) (some exp) (some room) (some round) (some slot) =
    some (record { user = user; room = room; round = round; slot = slot; jti = jti; exp = exp })
claims_from _ _ _ _ _ _ = none

abbrev pub read_claims : Payload → Option Claims
read_claims p = claims_from p.sub p.jti p.exp p.room p.round p.slot

-- A row of realtime_ticket_uses, whose key is `jti`.
pub record UseRow : Type 0 where
  pub jti : ℕ
  pub user : ℕ
  pub room : ℕ
  pub expires_at : ℕ

-- A row of realtime_ticket_issues.
pub record IssueRow : Type 0 where
  pub jti : ℕ
  pub user : ℕ
  pub room : ℕ
  pub round : ℕ
  pub issued_at : ℕ
  pub expires_at : ℕ
  pub consumed_at : Option ℕ

pub record Tables : Type 0 where
  pub uses : List UseRow
  pub issues : List IssueRow

abbrev pub per_second : ℕ
per_second = 1000000

abbrev pub is_current : Claims → Option RoomRow → Option MemberRow → Bool
is_current c (some r) (some m) = m.slot == c.slot && r.active_match == some c.round
is_current c _ _ = false

abbrev pub has_jti : ℕ → UseRow → Bool
has_jti jti u = nat_beq u.jti jti

abbrev pub is_issue_of : Claims → IssueRow → Bool
is_issue_of c i =
    nat_beq i.jti c.jti
    && (nat_beq i.user c.user && (nat_beq i.room c.room && is_none i.consumed_at))

abbrev pub record_use : ℕ → Claims → Tables → Tables
record_use now c t = record {
  uses =
      record { jti = c.jti; user = c.user; room = c.room; expires_at = c.exp * per_second }
      ∷ t.uses;
  issues = update (is_issue_of c) (λ i. record i { consumed_at = some now }) t.issues;
}

-- The transaction at a time of the database: a second row of a `jti` violates the key.
unfoldable pub consume : Db → ℕ → Claims → Tables → Result Claims × Tables
consume db now c t =
    if not
      (is_current c (find (is_room c.room) db.rooms) (find (is_member c.room c.user) db.members))
    then (err (domain_error ticket_invalid 403), t)
    else if any (has_jti c.jti) t.uses
    then (err (domain_error ticket_replayed 401), t)
    else (ok c, record_use now c t)

unfoldable pub consume_read : Db → ℕ → Option Claims → Tables → Result Claims × Tables
consume_read db now none t = (err (domain_error ticket_invalid 401), t)
consume_read db now (some c) t = consume db now c t

module _ {Token : Type 0} (jwt_verify : ℕ → Token → Option Payload) where
  abbrev pub claims_of : ℕ → Token → Option Claims
  claims_of worker token = elim (jwt_verify worker token) [ none ↦ none | some p ↦ read_claims p ]

  -- At a time of the worker and then one of the database.
  unfoldable pub verify_and_consume : ℕ → Db → ℕ → Token → Tables → Result Claims × Tables
  verify_and_consume worker db now token t = consume_read db now (claims_of worker token) t

abbrev pub is_outdated : ℕ → ℕ → Bool
is_outdated now expires_at = ltb (expires_at + 60 * per_second) now

unfoldable pub purge_expired_uses : ℕ → Tables → ℕ × Tables
purge_expired_uses now t = (
  length (select (λ u. is_outdated now u.expires_at) t.uses)
      + length (select (λ i. is_outdated now i.expires_at) t.issues),
  record {
    uses = select (λ u. not (is_outdated now u.expires_at)) t.uses;
    issues = select (λ i. not (is_outdated now i.expires_at)) t.issues;
  },
)
