-- ===== src/Match/Receipts/Replay.antt =====
-- Commands that are sent again.
use leetbattle.Shared.{
  Bool, true, false, ◌≡◌, refl, ◌==◌, ◌&&◌, some, none, arith, find, nat_beq_iff, list_beq_iff,
  nat_eq, list_eq, option_eq,
}
use leetbattle.Domain.Errors.{ok, err, Result, domain_error, idempotency_conflict}
use leetbattle.Store.Rows.{Db, Response, command_code}
use leetbattle.Store.Tx.{M, ◌>>=◌, ◌>>◌, guard, pure, raise, gets, on_receipts, clock_timestamp}
use leetbattle.Match.Config.{Engine}
use leetbattle.Match.Receipts.{
  Command, Reservation, valid_key, is_receipt, same_command, fresh_receipt, reserve_command,
  complete_command, assert_idempotency_key, reserve_with,
}

-- A command is reserved and completed with a reply, and then another one with its key arrives.
abbrev pub twice : Engine → Command → Response → Command → M Reservation
twice e c reply d = do
  reserve_command e c
  complete_command c.actor c.key reply
  reserve_command e d

-- Are the two commands of the same kind, for the same match, with payloads of the same hash?
abbrev pub is_same : Engine → Command → Command → Bool
is_same e c d =
    command_code d.command == command_code c.command
    && (d.match_id == c.match_id && e.hash_payload d.payload == e.hash_payload c.payload)

abbrev pub answer : Bool → Response → Result Reservation
answer true reply = ok (record { duplicate = true; response = some reply })
answer false reply = err (domain_error idempotency_conflict 409)

is_receipt-fresh :
    (e : Engine) (c d : Command)
    → d.actor ≡ c.actor
    → d.key ≡ c.key
    → is_receipt d.actor d.key (fresh_receipt e c) ≡ true
is_receipt-fresh e c d a k =
    rw a (
      rw k
        (ground (arith, (nat_beq_iff c.actor c.actor).1 refl, (list_beq_iff c.key c.key).1 refl)))

-- The receipt keeps what the later command is compared with.
stored_same : (e : Engine) (c d : Command) → same_command e d (fresh_receipt e c) ≡ is_same e c d
stored_same e c d = ground (
  arith,
  nat_beq_iff (command_code c.command) (command_code d.command),
  nat_beq_iff (command_code d.command) (command_code c.command),
  nat_beq_iff (e.hash_payload c.payload) (e.hash_payload d.payload),
  nat_beq_iff (e.hash_payload d.payload) (e.hash_payload c.payload),
)

-- When a command with a valid new key has been reserved and completed, a command of the same actor
-- with that key gets the stored response, marked as a duplicate, if both are of the
-- same kind, for the same match, with the same payload hash, and an idempotency conflict otherwise.
pub reserve_command-twice :
    (e : Engine) (c d : Command) (reply : Response) (db : Db)
    → valid_key c.key ≡ true
    → find (is_receipt c.actor c.key) db.receipts ≡ none
    → d.actor ≡ c.actor
    → d.key ≡ c.key
    → (twice e c reply d db).0 ≡ answer (is_same e c d) reply
unfolding reserve_command complete_command assert_idempotency_key reserve_with guard pure raise gets
    on_receipts clock_timestamp ◌>>=◌
reserve_command-twice e c d reply db valid new same_actor same_key = ground (
  arith,
  is_receipt-fresh e c c refl refl,
  is_receipt-fresh e c d same_actor same_key,
  stored_same e c d,
)
