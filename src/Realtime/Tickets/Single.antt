-- ===== src/Realtime/Tickets/Single.antt =====
-- A ticket is used once.
use leetbattle.Shared.{
  ℕ, ◌+◌, ◌*◌, ◌≤◌, ◌<◌, ◌≡◌, ◌⊎◌, inl, inr, refl, Bool, true, false, not, ◌&&◌, Option, some, none,
  List, [], ◌∷◌, select, find, any, nat_beq, subst, arith, Bool-cases,
}
use leetbattle.Domain.Errors.{Result, ok, err}
use leetbattle.Store.Rows.{Db}
use leetbattle.Match.Locks.{is_member, is_room}
use leetbattle.Realtime.Tickets.{
  Payload, Claims, UseRow, Tables, per_second, is_current, has_jti, record_use, consume,
  consume_read, claims_of, verify_and_consume, is_outdated, purge_expired_uses,
}

-- The use of a ticket is on record.
abbrev pub is_use_of : Claims → UseRow → Bool
is_use_of c u = nat_beq u.jti c.jti && nat_beq u.expires_at (c.exp * per_second)

-- The use is on record, or the ticket has been out of date for more than a minute.
abbrev pub IsSpent : Claims → ℕ → Tables → Type 0
IsSpent c now t = (any (is_use_of c) t.uses ≡ true) ⊎ (c.exp * per_second + 60 * per_second < now)

IsSpent-later :
    (c : Claims) (now later : ℕ) (t : Tables) → now ≤ later → IsSpent c now t → IsSpent c later t
IsSpent-later c now later t le (inl hit) = inl hit
IsSpent-later c now later t le (inr old) = inr (omega (arith, le, old))

any-is_use_of :
    (c : Claims) (now : ℕ) (us : List UseRow)
    → any (is_use_of c) us ≡ true
    → (any (is_use_of c) (select (λ u. not (is_outdated now u.expires_at)) us) ≡ true)
      ⊎ (c.exp * per_second + 60 * per_second < now)
any-is_use_of c now [] h = ground arith
any-is_use_of c now (u ∷ us) h = elim (Bool-cases (is_use_of c u)) [
  | inl hit ↦ elim (Bool-cases (is_outdated now u.expires_at)) [
    | inl out ↦ inr (ground arith)
    | inr kept ↦ rw kept (inl (ground arith))
  ]
  | inr other ↦ elim (any-is_use_of c now us (ground arith)) [
    | inr old ↦ inr old
    | inl found ↦ elim (Bool-cases (is_outdated now u.expires_at)) [
      | inl out ↦ rw out (inl found)
      | inr kept ↦ rw kept (inl (ground arith))
    ]
  ]
]

any-has_jti :
    (c : Claims) (us : List UseRow) → any (is_use_of c) us ≡ true → any (has_jti c.jti) us ≡ true
any-has_jti c [] h = ground arith
any-has_jti c (u ∷ us) h = ground (arith, any-has_jti c us)

IsSpent-record_use :
    (c d : Claims) (now at : ℕ) (t : Tables) → IsSpent c now t → IsSpent c now (record_use at d t)
IsSpent-record_use c d now at t (inl hit) = inl (ground arith)
IsSpent-record_use c d now at t (inr old) = inr old

is_use_of_refl :
    (c : Claims) (at : ℕ) (t : Tables) → any (is_use_of c) (record_use at c t).uses ≡ true
is_use_of_refl c at t = ground arith

-- A call leaves the tables alone or records the use of its ticket.
module _ (P : Tables → Type 0) (t : Tables) (start : P t) where
  consume-cases :
      (db : Db) (now : ℕ) (d : Claims) → P (record_use now d t) → P (consume db now d t).1
  unfolding consume
  consume-cases db now d used =
      elim (Bool-cases (
        is_current d (find (is_room d.room) db.rooms)
          (find (is_member d.room d.user) db.members))) [
            | inr gone ↦ rw gone start
            | inl here ↦ rw here (elim (Bool-cases (any (has_jti d.jti) t.uses)) [
              | inl again ↦ rw again start
              | inr fresh ↦ rw fresh used
            ])
          ]

  consume_read-cases :
      (db : Db) (now : ℕ) (o : Option Claims)
      → ((d : Claims) → P (record_use now d t))
      → P (consume_read db now o t).1
  unfolding consume_read
  consume_read-cases db now none used = start
  consume_read-cases db now (some d) used = consume-cases db now d (used d)

IsSpent-purge :
    (c : Claims) (now later : ℕ) (t : Tables)
    → now ≤ later
    → IsSpent c now t
    → IsSpent c later (purge_expired_uses later t).1
unfolding purge_expired_uses
IsSpent-purge c now later t le (inl hit) = any-is_use_of c later t.uses hit
IsSpent-purge c now later t le (inr old) = inr (omega (arith, le, old))

abbrev pub is_ok : {A : Type 0} → Result A → Bool
is_ok (ok a) = true
is_ok (err e) = false

-- A recorded use makes the next one fail.
consume-used :
    (db : Db) (now : ℕ) (c : Claims) (t : Tables)
    → any (has_jti c.jti) t.uses ≡ true
    → is_ok (consume db now c t).0 ≡ false
unfolding consume
consume-used db now c t h =
    elim (Bool-cases
      (is_current c (find (is_room c.room) db.rooms) (find (is_member c.room c.user) db.members))) [
        | inr gone ↦ rw gone refl
        | inl here ↦ rw here (rw h refl)
      ]

consume-ok :
    (db : Db) (now : ℕ) (d c : Claims) (t after : Tables)
    → consume db now d t ≡ (ok c, after)
    → (d ≡ c) × (record_use now d t ≡ after)
unfolding consume
consume-ok db now d c t after h = ground arith

too_late :
    (c : Claims) (later worker : ℕ) (b : Bool)
    → c.exp * per_second + 60 * per_second < later
    → later ≤ (worker + 58) * per_second
    → worker < c.exp + 2
    → b ≡ false
too_late c later worker b old close fresh = ground arith

module _ {Token : Type 0} (jwt_verify : ℕ → Token → Option Payload) where
  -- The tables some time after a ticket with these claims was used: other tickets, or this one again,
  -- are shown and old uses purged, and time goes on.
  pub data UsedBefore (c : Claims) : ℕ → Tables → Type 0 where
    used :
        (worker : ℕ) (db : Db) (now : ℕ) (token : Token) (t after : Tables)
        → verify_and_consume jwt_verify worker db now token t ≡ (ok c, after)
        → UsedBefore c now after
    shown :
        (worker : ℕ) (db : Db) (now later : ℕ) (token : Token) (t : Tables)
        → now ≤ later
        → UsedBefore c now t
        → UsedBefore c later (verify_and_consume jwt_verify worker db later token t).1
    purged :
        (now later : ℕ) (t : Tables)
        → now ≤ later
        → UsedBefore c now t
        → UsedBefore c later (purge_expired_uses later t).1

  consume_read-ok :
      (db : Db) (now : ℕ) (o : Option Claims) (c : Claims) (t after : Tables)
      → consume_read db now o t ≡ (ok c, after)
      → IsSpent c now after
  unfolding consume_read
  consume_read-ok db now none c t after h = ground arith
  consume_read-ok db now (some d) c t after h =
      let r = consume-ok db now d c t after h in
      subst (IsSpent c now) r.1
        (subst (λ x. IsSpent x now (record_use now d t)) r.0 (inl (is_use_of_refl d now t)))

  UsedBefore-IsSpent : (c : Claims) (now : ℕ) (t : Tables) → UsedBefore c now t → IsSpent c now t
  unfolding verify_and_consume
  UsedBefore-IsSpent c _ _ (used worker db now token t after h) =
      consume_read-ok db now (claims_of jwt_verify worker token) c t after h
  UsedBefore-IsSpent c _ _ (shown worker db now later token t le u) =
      let spent = IsSpent-later c now later t le (UsedBefore-IsSpent c now t u) in
      consume_read-cases (IsSpent c later) t spent db later (claims_of jwt_verify worker token)
        (λ d. IsSpent-record_use c d later later t spent)
  UsedBefore-IsSpent c _ _ (purged now later t le u) =
      IsSpent-purge c now later t le (UsedBefore-IsSpent c now t u)

  -- `jwtVerify` refuses a ticket from two seconds after its expiry on.
  abbrev pub RefusesExpired : Type 0
  RefusesExpired =
      (worker : ℕ) (token : Token) (c : Claims)
      → claims_of jwt_verify worker token ≡ some c
      → worker < c.exp + 2

  -- A ticket that was used is not accepted again, whatever other tickets are shown and whenever the
  -- uses are purged, if `jwtVerify` refuses a ticket from two seconds after its expiry on and the
  -- clock of the worker is at most 58 seconds behind that of the database.
  pub verify_and_consume-once :
      (c : Claims) (now later worker : ℕ) (db : Db) (token : Token) (t : Tables)
      → RefusesExpired
      → claims_of jwt_verify worker token ≡ some c
      → UsedBefore c now t
      → now ≤ later
      → later ≤ (worker + 58) * per_second
      → is_ok (verify_and_consume jwt_verify worker db later token t).0 ≡ false
  unfolding verify_and_consume consume_read
  verify_and_consume-once c now later worker db token t refuses same u le close =
      elim (IsSpent-later c now later t le (UsedBefore-IsSpent c now t u)) [
        | inl hit ↦ rw same (consume-used db later c t (any-has_jti c t.uses hit))
        | inr old ↦ too_late c later worker _ old close (refuses worker token c same)
      ]
