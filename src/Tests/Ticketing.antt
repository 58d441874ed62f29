-- ===== src/Tests/Ticketing.antt =====
-- A ticket that is shown twice.
use leetbattle.Shared.{
  ℕ, ◌+◌, ◌≡◌, ◌<◌, refl, Bool, true, false, Option, some, none, [], ◌∷◌, arith, ltb, subst,
  Bool-cases, inl, inr, if◌then◌else◌,
}
use leetbattle.Domain.Types.{active, easy, duel, coding, one}
use leetbattle.Domain.Errors.{ok}
use leetbattle.Store.Rows.{Db}
use leetbattle.Realtime.Tickets.{
  Payload, Claims, Tables, read_claims, consume, consume_read, verify_and_consume, record_use,
}
use leetbattle.Realtime.Tickets.Single.{is_ok, RefusesExpired, used, verify_and_consume-once}
use leetbattle.Tests.Fixtures.{match_in, players, database}

abbrev payload : Payload
payload = record {
  sub = some 1;
  jti = some 5;
  exp = some 100;
  room = some 3;
  round = some 7;
  slot = some one;
}

abbrev claims : Claims
claims = record { user = 1; room = 3; round = 7; slot = one; jti = 5; exp = 100 }

-- The ticket is good until 100, with the tolerance of two seconds.
abbrev verify : ℕ → Bool → Option Payload
verify worker true = if ltb worker 102 then some payload else none
verify worker false = none

abbrev joined : Db
joined = record (database (match_in active) players []) {
  rooms =
      record {
        id = 3;
        token_hash = 0;
        host = 1;
        difficulty = easy;
        mode = duel;
        challenge = coding;
        active_match = some 7;
        closed_at = none;
      }
      ∷ [];
  members = record { room_id = 3; user = 1; slot = one } ∷ [];
}

abbrev fresh : Tables
fresh = record { uses = []; issues = [] }

abbrev spent : Tables
spent = record_use 60000000 claims fresh

first_use : verify_and_consume verify 60 joined 60000000 true fresh ≡ (ok claims, spent)
unfolding verify_and_consume consume_read consume
first_use = refl

claims-exp : (c : Claims) → some claims ≡ some c → 100 ≡ c.exp
claims-exp c h = ground arith

none-claims : (c : Claims) (P : Type 0) → none ≡ some c → P
none-claims c P h = ground arith

abbrev verified : Bool → Option Claims
verified b = elim (if b then some payload else none) [ none ↦ none | some p ↦ read_claims p ]

verify-RefusesExpired : RefusesExpired verify
verify-RefusesExpired worker false c h = ground arith
verify-RefusesExpired worker true c h = elim (Bool-cases (ltb worker 102)) [
  | inl early ↦ ground (arith, claims-exp c (subst (λ b. verified b ≡ some c) early h))
  | inr late ↦ none-claims c (worker < c.exp + 2) (subst (λ b. verified b ≡ some c) late h)
]

verify_and_consume-once_example :
    is_ok (verify_and_consume verify 101 joined 101000000 true spent).0 ≡ false
verify_and_consume-once_example =
    verify_and_consume-once verify claims 60000000 101000000 101 joined true spent
      verify-RefusesExpired refl (used 60 joined 60000000 true fresh spent first_use) (omega arith)
      (omega arith)
