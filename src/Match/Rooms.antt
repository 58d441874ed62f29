-- ===== src/Match/Rooms.antt =====
-- `createRoom`, `joinRoom` and `getRoomIdForInvite` of match-engine.ts.
use leetbattle.Shared.{
  ℕ, Bool, false, not, ◌&&◌, Option, some, none, List, ◌∷◌, find, update_first, any, nat_beq, ◌==◌,
  if◌then◌else◌, is_none, is_some,
}
use leetbattle.Domain.Types.{
  Difficulty, MatchMode, duel, practice, ChallengeType, coding, ai_ml, lobby, Slot, one, two,
  thinking, mode_eq, slot_eq,
}
use leetbattle.Domain.Errors.{
  domain_error, fault, idempotency_conflict, room_not_found, host_cannot_join_own_room, room_full,
  not_a_participant,
}
use leetbattle.Store.Rows.{
  MatchRow, ParticipantRow, RoomRow, CommandType, match_created, player_joined, Response,
  room_response,
}
use leetbattle.Store.Tx.{
  M, pure, gets, expect, guard, begin, ◌>>=◌, ◌>>◌, new_id, on_rooms, on_matches, on_members,
  on_participants,
}
use leetbattle.Match.Config.{Engine, Payload, room_payload, join_payload}
use leetbattle.Match.Receipts.{Reservation, reserve_command, complete_command}
use leetbattle.Match.Events.{append_event}
use leetbattle.Match.Locks.{require_actor, assert_profile, is_member, is_room}
use leetbattle.Match.Snapshot.{MatchSnapshot, get_snapshot}

-- The columns that an insertion leaves to their defaults.
abbrev pub fresh_match : ℕ → ℕ → ℕ → Option ℕ → Difficulty → MatchMode → ChallengeType → MatchRow
fresh_match id room round previous difficulty mode challenge = record {
  id = id;
  room_id = room;
  challenge = challenge;
  mode = mode;
  round_number = round;
  previous_match = previous;
  state = lobby;
  difficulty = difficulty;
  problem = none;
  starts_at = none;
  answer_deadline_at = none;
  finished_at = none;
  rematch_deadline = none;
  rematch_created = none;
  winner = none;
  end_reason = none;
  records_applied = false;
  version = 0;
}

abbrev pub fresh_participant : ℕ → ℕ → Slot → ParticipantRow
fresh_participant id user slot = record {
  match_id = id;
  user = user;
  slot = slot;
  language = none;
  ready_at = none;
  activity = thinking;
  best_passed_count = 0;
  hidden_test_count = none;
  cooldown_until = none;
  last_sample_run_at = none;
  active_execution = none;
  connected = false;
  disconnected_at = none;
  reconnect_deadline = none;
  outcome = none;
}

abbrev pub room_payload_of : Difficulty → MatchMode → ChallengeType → Payload
room_payload_of difficulty duel coding = room_payload difficulty none none
room_payload_of difficulty practice coding = room_payload difficulty (some practice) none
room_payload_of difficulty mode ai_ml = room_payload difficulty (some mode) (some ai_ml)

abbrev pub room_of_response : Option Response → Option ℕ
room_of_response (some (room_response room id)) = some room
room_of_response _ = none

unfoldable pub insert_room : Engine → ℕ → List ℕ → Difficulty → MatchMode → ChallengeType → ℕ → M ℕ
insert_room e user key difficulty mode challenge token_hash = do
  room ← new_id
  on_rooms λ rs.
      record {
        id = room;
        token_hash = token_hash;
        host = user;
        difficulty = difficulty;
        mode = mode;
        challenge = challenge;
        active_match = none;
        closed_at = none;
      }
      ∷ rs
  id ← new_id
  on_matches (λ ms. fresh_match id room 1 none difficulty mode challenge ∷ ms)
  on_members (λ ms. record { room_id = room; user = user; slot = one } ∷ ms)
  on_participants (λ ps. fresh_participant id user one ∷ ps)
  on_rooms (update_first (is_room room) (λ r. record r { active_match = some id }))
  append_event id (match_created difficulty mode challenge 1 none)
  complete_command user key (room_response room id)
  pure room

unfoldable pub create_room_tx : Engine → ℕ → List ℕ → Difficulty → MatchMode → ChallengeType → M ℕ
create_room_tx e user key difficulty mode challenge = do
  assert_profile user
  r ← reserve_command e (record {
    actor = user;
    key = key;
    command = CommandType.create_room;
    match_id = none;
    payload = room_payload_of difficulty mode challenge;
  })
  if r.duplicate
      then expect (room_of_response r.response) (domain_error idempotency_conflict 409)
      else insert_room e user key difficulty mode challenge (e.sha256 (e.invite_token user key))

abbrev pub or_default : {A : Type 0} → A → Option A → A
or_default d none = d
or_default d (some x) = x

unfoldable pub create_room :
    Engine
    → Option ℕ
    → Difficulty
    → List ℕ
    → Option MatchMode
    → Option ChallengeType
    → M (List ℕ × MatchSnapshot)
create_room e actor difficulty key mode challenge = do
  user ← require_actor actor
  room ←
      begin
        (create_room_tx e user key difficulty (or_default duel mode) (or_default coding challenge))
  snapshot ← get_snapshot e actor room
  pure (e.invite_token user key, snapshot)

-- An active match is set at the end of the transaction that makes the room.
unfoldable pub active_match_of : RoomRow → M ℕ
active_match_of room = expect room.active_match fault

unfoldable pub take_slot : ℕ → RoomRow → ℕ → M (Unit {0})
take_slot user room id = do
  occupied ← gets (λ db. any (λ m. nat_beq m.room_id room.id && m.slot == two) db.members)
  guard (not occupied) (domain_error room_full 409)
  on_members (λ ms. record { room_id = room.id; user = user; slot = two } ∷ ms)
  on_participants (λ ps. fresh_participant id user two ∷ ps)
  append_event id (player_joined two)
  pure tt

unfoldable pub join_reserved : ℕ → List ℕ → RoomRow → ℕ → Bool → Reservation → M ℕ
join_reserved user key room id is_known r = if r.duplicate then pure room.id else do
  if is_known then pure tt else take_slot user room id
  complete_command user key (room_response room.id id)
  pure room.id

unfoldable pub join_room_tx : Engine → ℕ → List ℕ → ℕ → M ℕ
join_room_tx e user key token_hash = do
  assert_profile user
  found ← gets (λ db. find (λ r. nat_beq r.token_hash token_hash) db.rooms)
  room ← expect found (domain_error room_not_found 404)
  guard (not (room.mode == practice)) (domain_error room_not_found 404)
  guard (not (nat_beq room.host user)) (domain_error host_cannot_join_own_room 409)
  member ← gets (λ db. find (is_member room.id user) db.members)
  guard (not (is_some room.closed_at && is_none member)) (domain_error room_not_found 404)
  id ← active_match_of room
  r ← reserve_command e (record {
    actor = user;
    key = key;
    command = CommandType.join_room;
    match_id = some id;
    payload = join_payload room.id;
  })
  join_reserved user key room id (is_some member) r

unfoldable pub join_room : Engine → Option ℕ → List ℕ → List ℕ → M MatchSnapshot
join_room e actor token key = do
  user ← require_actor actor
  room ← begin (join_room_tx e user key (e.sha256 token))
  get_snapshot e actor room

unfoldable pub get_room_id_for_invite : Engine → Option ℕ → List ℕ → M ℕ
get_room_id_for_invite e actor token = do
  user ← require_actor actor
  found ← gets (λ db. find (λ r. nat_beq r.token_hash (e.sha256 token)) db.rooms)
  room ← expect found (domain_error not_a_participant 403)
  member ← gets (λ db. find (is_member room.id user) db.members)
  expect member (domain_error not_a_participant 403)
  pure room.id
