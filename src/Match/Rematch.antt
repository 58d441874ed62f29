-- ===== src/Match/Rematch.antt =====
-- `requestRematch` of match-engine.ts.
use leetbattle.Shared.{
  ℕ, ◌+◌, Bool, false, not, ◌&&◌, Option, some, none, List, ◌∷◌, ◌++◌, length, find, select,
  update_first, any, nat_beq, ltb, ◌==◌, if◌then◌else◌, is_none, is_some, map,
}
use leetbattle.Domain.Types.{practice, rematch_pending, one, two, state_eq, mode_eq, slot_eq}
use leetbattle.Domain.Errors.{domain_error, invalid_state, rematch_expired}
use leetbattle.Store.Rows.{
  Db, MatchRow, ParticipantRow, MemberRow, VoteRow, CommandType, Response, room_response,
  match_response, execution_response, ok_response, match_created, rematch_voted,
}
use leetbattle.Store.Rows
use leetbattle.Store.Tx.{
  M, pure, gets, guard, begin, ◌>>=◌, ◌>>◌, clock_timestamp, new_id, on_matches, on_participants,
  on_rooms, on_votes,
}
use leetbattle.Match.Config.{Engine, empty_payload}
use leetbattle.Match.Receipts.{Reservation, reserve_command, complete_command}
use leetbattle.Match.Events.{is_match, append_event}
use leetbattle.Match.Locks.{require_actor, lock_match, lock_participant, is_room}
use leetbattle.Match.Snapshot.{MatchSnapshot, get_snapshot_by_match}
use leetbattle.Match.Rooms.{fresh_match, fresh_participant}

abbrev pub is_vote : ℕ → ℕ → VoteRow → Bool
is_vote id user v = nat_beq v.match_id id && nat_beq v.user user

-- ON CONFLICT DO NOTHING: a second vote of the same player inserts nothing.
unfoldable pub cast_vote : MatchRow → ParticipantRow → List ℕ → M (Unit {0})
cast_vote m p key = do
  has_voted ← gets (λ db. any (is_vote m.id p.user) db.votes)
  if has_voted then pure tt else do
    on_votes (λ vs. record { match_id = m.id; user = p.user; key = key } ∷ vs)
    append_event m.id (rematch_voted p.slot)
    pure tt

abbrev pub members_by_slot : ℕ → List MemberRow → List MemberRow
members_by_slot room ms =
    select (λ m. nat_beq m.room_id room && m.slot == one) ms
    ++ select (λ m. nat_beq m.room_id room && m.slot == two) ms

abbrev pub is_next_round : MatchRow → MatchRow → Bool
is_next_round m r = nat_beq r.room_id m.room_id && nat_beq r.round_number (m.round_number + 1)

abbrev pub links : ℕ → MatchRow → Bool
links id m = is_match id m && is_none m.rematch_created

unfoldable pub insert_rematch : MatchRow → M ℕ
insert_rematch m = do
  id ← new_id
  on_matches λ ms.
      fresh_match id m.room_id (m.round_number + 1) (some m.id) m.difficulty m.mode m.challenge ∷ ms
  members ← gets (λ db. members_by_slot m.room_id db.members)
  on_participants (λ ps. map (λ r. fresh_participant id r.user r.slot) members ++ ps)
  on_rooms (update_first (is_room m.room_id) (λ r. record r { active_match = some id }))
  on_matches (update_first (links m.id) (λ r. record r { rematch_created = some id }))
  append_event m.id (Rows.rematch_created id (m.round_number + 1))
  append_event id (match_created m.difficulty m.mode m.challenge (m.round_number + 1) (some m.id))
  pure id

-- The round that exists already is taken where the insertion meets it.
unfoldable pub create_next : MatchRow → Option MatchRow → M ℕ
create_next m none = insert_rematch m
create_next m (some r) = pure r.id

unfoldable pub create_rematch : MatchRow → M ℕ
create_rematch m = do
  existing ← gets (λ db. find (is_next_round m) db.matches)
  create_next m existing

unfoldable pub vote : MatchRow → ParticipantRow → List ℕ → M ℕ
vote m p key = do
  now ← clock_timestamp
  guard (elim m.rematch_deadline [ none ↦ false | some d ↦ ltb now d ])
      (domain_error rematch_expired 409)
  cast_vote m p key
  votes ← gets (λ db. length (select (λ v. nat_beq v.match_id m.id) db.votes))
  id ← if nat_beq votes 2 then create_rematch m else pure m.id
  complete_command p.user key (match_response id)
  pure id

unfoldable pub vote_open : MatchRow → ParticipantRow → List ℕ → Option ℕ → M ℕ
vote_open m p key none = vote m p key
vote_open m p key (some id) = do complete_command p.user key (match_response id); pure id

abbrev pub match_of_response : ℕ → Option Response → ℕ
match_of_response id (some (match_response r)) = r
match_of_response id (some (room_response room r)) = r
match_of_response id _ = id

abbrev pub repeated_target : MatchRow → Option Response → ℕ
repeated_target m response = elim m.rematch_created [
  | none ↦ match_of_response m.id response
  | some id ↦ id
]

unfoldable pub vote_reserved : MatchRow → ParticipantRow → List ℕ → Reservation → M ℕ
vote_reserved m p key r = if r.duplicate then pure (repeated_target m r.response) else do
  guard (m.state == rematch_pending && is_some m.rematch_deadline) (domain_error invalid_state 409)
  vote_open m p key m.rematch_created

unfoldable pub request_rematch_tx : Engine → ℕ → ℕ → List ℕ → M ℕ
request_rematch_tx e user id key = do
  m ← lock_match id
  p ← lock_participant id user
  guard (not (m.mode == practice)) (domain_error invalid_state 409)
  r ← reserve_command e (record {
    actor = user;
    key = key;
    command = CommandType.rematch_vote;
    match_id = some id;
    payload = empty_payload;
  })
  vote_reserved m p key r

unfoldable pub request_rematch : Engine → Option ℕ → ℕ → List ℕ → M MatchSnapshot
request_rematch e actor id key = do
  user ← require_actor actor
  target ← begin (request_rematch_tx e user id key)
  get_snapshot_by_match e actor target
