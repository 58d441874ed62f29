-- ===== src/Match/Receipts.antt =====
-- `assertIdempotencyKey`, `reserveCommand` and `completeCommand` of match-engine.ts.
pub mod Replay
use leetbattle.Shared.{
  ℕ, Bool, true, false, not, ◌&&◌, ◌||◌, Option, some, none, List, [], ◌∷◌, length, find,
  update_first, leb, ltb, nat_beq, ◌==◌, nat_eq, option_eq, list_eq, if◌then◌else◌, is_none,
}
use leetbattle.Domain.Errors.{domain_error, idempotency_key_required, idempotency_conflict}
use leetbattle.Store.Rows.{Db, ReceiptRow, CommandType, command_code, Response}
use leetbattle.Store.Tx.{M, pure, raise, gets, guard, ◌>>=◌, ◌>>◌, clock_timestamp, on_receipts}
use leetbattle.Match.Config.{Engine, Payload}

pub record Command : Type 0 where
  pub actor : ℕ
  pub key : List ℕ
  pub command : CommandType
  pub match_id : Option ℕ
  pub payload : Payload

-- CommandReservation.
pub record Reservation : Type 0 where
  pub duplicate : Bool
  pub response : Option Response

abbrev pub valid_key : List ℕ → Bool
valid_key key = ltb 0 (length key) && leb (length key) 200

unfoldable pub assert_idempotency_key : List ℕ → M (Unit {0})
assert_idempotency_key key = guard (valid_key key) (domain_error idempotency_key_required 422)

-- The primary key of command_receipts.
abbrev pub is_receipt : ℕ → List ℕ → ReceiptRow → Bool
is_receipt actor key r = r.actor == actor && r.key == key

abbrev pub fresh_receipt : Engine → Command → ReceiptRow
fresh_receipt e c = record {
  actor = c.actor;
  key = c.key;
  command = c.command;
  match_id = c.match_id;
  payload_hash = e.hash_payload c.payload;
  response = none;
  completed_at = none;
}

abbrev pub same_command : Engine → Command → ReceiptRow → Bool
same_command e c r =
    nat_beq (command_code r.command) (command_code c.command)
    && (r.match_id == c.match_id && nat_beq r.payload_hash (e.hash_payload c.payload))

unfoldable pub reserve_with : Engine → Command → Option ReceiptRow → M Reservation
reserve_with e c none = do
  on_receipts (λ rs. fresh_receipt e c ∷ rs)
  pure (record { duplicate = false; response = none })
reserve_with e c (some r) =
    if same_command e c r
    then pure (record { duplicate = true; response = r.response })
    else raise (domain_error idempotency_conflict 409)

-- The insertion fails on a row with the same actor and key.
unfoldable pub reserve_command : Engine → Command → M Reservation
unfolding assert_idempotency_key reserve_with
reserve_command e c = do
  assert_idempotency_key c.key
  found ← gets (λ db. find (is_receipt c.actor c.key) db.receipts)
  reserve_with e c found

unfoldable pub complete_command : ℕ → List ℕ → Response → M (Unit {0})
complete_command actor key response = do
  now ← clock_timestamp
  on_receipts (
      update_first (λ r. is_receipt actor key r && is_none r.response)
        (λ r. record r { response = some response; completed_at = some now }))
