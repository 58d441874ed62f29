-- ===== src/Match/Calls/Ready.antt =====
-- A `setReady` of match-engine.ts that is sent again.
use leetbattle.Shared.{
  ℕ, ◌≡◌, refl, ◌∙◌, sym, ap, subst, Bool, true, false, Option, some, none, List, find, arith,
  is_some, nat_beq_iff, list_beq_iff, if◌then◌else◌, nat_eq, list_eq, option_eq,
}
use leetbattle.Domain.Errors.{ok}
use leetbattle.Store.Rows.{Db, ReceiptRow, MatchRow, ParticipantRow, CommandType}
use leetbattle.Store.Tx.{◌>>=◌, pure, raise, guard, gets, expect, begin, on_receipts}
use leetbattle.Store.Watch.{kept}
use leetbattle.Store.Outcomes.{bind-ok, gets-ok, expect-ok, begin-ok, guard-ok}
use leetbattle.Match.Config.{Engine, Payload, ready_payload}
use leetbattle.Match.Receipts.{
  Command, Reservation, valid_key, is_receipt, same_command, assert_idempotency_key, reserve_with,
  reserve_command,
}
use leetbattle.Match.Events.{is_match}
use leetbattle.Match.Locks.{is_participant, require_actor, lock_match, lock_participant}
use leetbattle.Match.Lobby.{change_ready, set_ready_tx, set_ready}
use leetbattle.Match.Snapshot.{MatchSnapshot, get_snapshot_by_match}
use leetbattle.Match.Calls.Standing.{
  Standing, is_stored, Keeps-change_ready, Keeps-get_snapshot_by_match,
}

-- The key is valid and its receipt is that of the same command; the match and the player exist.
record IsRepeat (e : Engine) (c : Command) (id : ℕ) (db : Db) : Type 0 where
  valid : valid_key c.key ≡ true
  row : MatchRow
  found_match : find (is_match id) db.matches ≡ some row
  player : ParticipantRow
  found_player : find (is_participant id c.actor) db.participants ≡ some player
  receipt : ReceiptRow
  found_receipt : find (is_receipt c.actor c.key) db.receipts ≡ some receipt
  same : same_command e c receipt ≡ true

abbrev repeated : ℕ → List ℕ → CommandType → ℕ → Payload → Command
repeated user key command id payload = record {
  actor = user;
  key = key;
  command = command;
  match_id = some id;
  payload = payload;
}

twice_ready :
    (e : Engine) (user id : ℕ) (ready : Bool) (key : List ℕ) (db : Db)
    → IsRepeat e (repeated user key CommandType.set_ready id (ready_payload ready)) id db
    → set_ready_tx e user id ready key db ≡ (ok tt, db)
unfolding set_ready_tx reserve_command assert_idempotency_key reserve_with guard pure raise gets
    expect lock_match lock_participant ◌>>=◌
twice_ready e user id ready key db r =
    ground (arith, r.valid, r.found_match, r.found_player, r.found_receipt, r.same)

-- The receipt of a command that was reserved is there.
reserve_with-stored :
    (e : Engine) (c : Command) (o : Option ReceiptRow) (db after : Db) (r : Reservation)
    → find (is_receipt c.actor c.key) db.receipts ≡ o
    → reserve_with e c o db ≡ (ok r, after)
    → (is_stored e c (find (is_receipt c.actor c.key) after.receipts) ≡ true)
      × (after.matches ≡ db.matches)
      × (after.participants ≡ db.participants)
unfolding reserve_with on_receipts pure raise ◌>>=◌
reserve_with-stored e c none db after r found h =
    ground (arith, nat_beq_iff c.actor c.actor, list_beq_iff c.key c.key)
reserve_with-stored e c (some x) db after r found h = ground arith

stored_row :
    (e : Engine) (c : Command) (o : Option ReceiptRow)
    → is_stored e c o ≡ true
    → (x : ReceiptRow) × (o ≡ some x) × (same_command e c x ≡ true)
stored_row e c none h = ground arith
stored_row e c (some x) h = (x, refl, h)

there : {A : Type 0} (o : Option A) → is_some o ≡ true → (x : A) × (o ≡ some x)
there none h = ground arith
there (some x) h = (x, refl)

-- The match, the player and the receipt of the command are there.
IsRepeat-view :
    (e : Engine) (c : Command) (id : ℕ) (db : Db)
    → valid_key c.key ≡ true
    → (Standing e c id).view db ≡ (true, true, true)
    → IsRepeat e c id db
IsRepeat-view e c id db valid h =
    let (m, found_match) = there (find (is_match id) db.matches) (ap (λ v. v.0) h) in
    let (p, found_player) =
      there (find (is_participant id c.actor) db.participants) (ap (λ v. v.1) h) in
    let (x, found_receipt, stored) =
      stored_row e c (find (is_receipt c.actor c.key) db.receipts) (ap (λ v. v.2) h) in
    record {
      valid = valid;
      row = m;
      found_match = found_match;
      player = p;
      found_player = found_player;
      receipt = x;
      found_receipt = found_receipt;
      same = stored;
    }

if_duplicate :
    (e : Engine) (c : Command) (id : ℕ) (t : Bool) (m : MatchRow) (p : ParticipantRow)
    (ready : Bool) (key : List ℕ) (db after : Db)
    → (if t then pure tt else change_ready e m p ready key) db ≡ (ok tt, after)
    → (Standing e c id).view after ≡ (Standing e c id).view db
unfolding pure
if_duplicate e c id true m p ready key db after h = ap (λ r. (Standing e c id).view r.1) (sym h)
if_duplicate e c id false m p ready key db after h =
    kept (Standing e c id) _ _ _ _ (Keeps-change_ready e c id m p ready key) h

abbrev ready_command : ℕ → ℕ → Bool → List ℕ → Command
ready_command user id ready key = repeated user key CommandType.set_ready id (ready_payload ready)

set_ready_tx-standing :
    (e : Engine) (user id : ℕ) (ready : Bool) (key : List ℕ) (db after : Db)
    → set_ready_tx e user id ready key db ≡ (ok tt, after)
    → (valid_key key ≡ true)
      × ((Standing e (ready_command user id ready key) id).view after ≡ (true, true, true))
unfolding set_ready_tx lock_match lock_participant reserve_command assert_idempotency_key
set_ready_tx-standing e user id ready key db after h =
    let c = ready_command user id ready key in
    let b1 = bind-ok _ _ db tt after h in
    let a1 = bind-ok _ _ _ _ _ b1.first in
    let g1 = gets-ok _ _ _ _ a1.first in
    let x1 = expect-ok _ _ _ _ _ a1.second in
    let b2 = bind-ok _ _ _ tt after b1.second in
    let a2 = bind-ok _ _ _ _ _ b2.first in
    let g2 = gets-ok _ _ _ _ a2.first in
    let x2 = expect-ok _ _ _ _ _ a2.second in
    let b3 = bind-ok _ _ _ tt after b2.second in
    let a3 = bind-ok _ _ _ _ _ b3.first in
    let g3 = guard-ok _ _ _ _ _ a3.first in
    let a4 = bind-ok _ _ _ _ _ a3.second in
    let g4 = gets-ok _ _ _ _ a4.first in
    let (stored, same_matches, same_players) =
      reserve_with-stored e c a4.value a4.between b3.between b3.value
        (ap (λ d. find (is_receipt user key) d.receipts) g4.1 ∙ sym g4.0) a4.second in
    let found_match : find (is_match id) b3.between.matches ≡ some b1.value =
      ap (find (is_match id))
        (same_matches ∙ ap (λ d. d.matches) (g4.1 ∙ g3.1 ∙ x2.1 ∙ g2.1 ∙ x1.1 ∙ g1.1))
      ∙ sym g1.0
      ∙ x1.0 in
    let found_player : find (is_participant id user) b3.between.participants ≡ some b2.value =
      ap (find (is_participant id user))
        (same_players ∙ ap (λ d. d.participants) (g4.1 ∙ g3.1 ∙ x2.1 ∙ g2.1))
      ∙ sym g2.0
      ∙ x2.0 in
    (
      g3.0,
      if_duplicate e c id b3.value.duplicate b1.value b2.value ready key b3.between after b3.second
          ∙ ground (arith, found_match, found_player, stored),
    )

run_again :
    (e : Engine) (user id : ℕ) (ready : Bool) (key : List ℕ) (db : Db)
    → set_ready_tx e user id ready key db ≡ (ok tt, db)
    → set_ready e (some user) id ready key db ≡ get_snapshot_by_match e (some user) id db
unfolding set_ready require_actor begin ◌>>=◌ expect pure
run_again e user id ready key db h = rw h refl

-- When a `set_ready` of a user has returned, the same call with the same key only reads the snapshot of
-- the match: it returns what `get_snapshot_by_match` returns, and leaves the database as that does.
pub set_ready-again :
    (e : Engine) (user id : ℕ) (ready : Bool) (key : List ℕ) (db after : Db) (s : MatchSnapshot)
    → set_ready e (some user) id ready key db ≡ (ok s, after)
    → set_ready e (some user) id ready key after ≡ get_snapshot_by_match e (some user) id after
unfolding set_ready require_actor
set_ready-again e user id ready key db after s h =
    let c = ready_command user id ready key in
    let b1 = bind-ok _ _ db s after h in
    let x1 = expect-ok _ _ _ _ _ b1.first in
    let same_user : b1.value ≡ user = ground (arith, x1.0) in
    let b2 = bind-ok _ _ _ s after b1.second in
    let t = set_ready_tx-standing e user id ready key b1.between b2.between (
      subst (λ u. set_ready_tx e u id ready key b1.between ≡ (ok tt, b2.between)) same_user
        (begin-ok _ _ _ _ b2.first)) in
    let later =
      kept (Standing e c id) _ _ _ _ (Keeps-get_snapshot_by_match e c id (some user) id)
        b2.second in
    run_again e user id ready key after
      (twice_ready e user id ready key after (IsRepeat-view e c id after t.0 (later ∙ t.1)))
