-- ===== src/Arena/Commands.antt =====
-- `lockMatch` and `reserveCommand` of AiMlArenaService. Its `lockParticipant`, `appendEvent` and
-- `completeCommand` are the statements of the match engine's.
use leetbattle.Shared.{
  ℕ, Bool, true, false, ◌&&◌, Option, some, none, ◌∷◌, find, nat_beq, is_some, ◌==◌, option_eq,
  nat_eq, if◌then◌else◌,
}
use leetbattle.Domain.Types.{ai_ml, challenge_eq}
use leetbattle.Domain.Errors.{domain_error, match_not_found, idempotency_conflict}
use leetbattle.Store.Rows.{MatchRow, ReceiptRow, command_code}
use leetbattle.Store.Tx.{M, pure, raise, gets, expect, ◌>>=◌, ◌>>◌, on_receipts}
use leetbattle.Match.Events.{is_match}
use leetbattle.Match.Receipts.{Command, is_receipt, assert_idempotency_key}
use leetbattle.Arena.Config.{Arena}

abbrev pub is_arena_match : ℕ → MatchRow → Bool
is_arena_match id m = is_match id m && m.challenge == ai_ml

unfoldable pub lock_arena_match : ℕ → M MatchRow
lock_arena_match id = do
  found ← gets (λ db. find (is_arena_match id) db.matches)
  expect found (domain_error match_not_found 404)

abbrev pub new_receipt : Arena → Command → ReceiptRow
new_receipt a c = record {
  actor = c.actor;
  key = c.key;
  command = c.command;
  match_id = c.match_id;
  payload_hash = a.hash_payload c.payload;
  response = none;
  completed_at = none;
}

abbrev pub is_same_command : Arena → Command → ReceiptRow → Bool
is_same_command a c r =
    nat_beq (command_code r.command) (command_code c.command)
    && (r.match_id == c.match_id && nat_beq r.payload_hash (a.hash_payload c.payload))

-- Is it a duplicate? A command that is not completed yet is a conflict.
unfoldable pub reserve_found : Arena → Command → Option ReceiptRow → M Bool
reserve_found a c none = do on_receipts (λ rs. new_receipt a c ∷ rs); pure false
reserve_found a c (some r) =
    if is_same_command a c r && is_some r.response
    then pure true
    else raise (domain_error idempotency_conflict 409)

unfoldable pub reserve : Arena → Command → M Bool
reserve a c = do
  assert_idempotency_key c.key
  found ← gets (λ db. find (is_receipt c.actor c.key) db.receipts)
  reserve_found a c found
