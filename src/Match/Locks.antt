-- ===== src/Match/Locks.antt =====
-- The reads at the head of each method: `requireActor`, `assertProfile`, `lockMatch`,
-- `lockParticipant`, `hasLiveRealtimePresence`, `assertMatchParticipant` and
-- `assertRoomMembership`. A lock orders transactions, which are atomic here.
use leetbattle.Shared.{
  ℕ, ◌+◌, Bool, false, ◌&&◌, Option, some, none, List, find, any, nat_beq, ltb, is_none,
}
use leetbattle.Domain.Types.{Slot}
use leetbattle.Domain.Errors.{
  domain_error, auth_required, profile_required, match_not_found, not_a_participant,
}
use leetbattle.Store.Rows.{MatchRow, ParticipantRow, SessionRow, MemberRow, RoomRow}
use leetbattle.Store.Tx.{M, pure, gets, expect, guard, ◌>>=◌, clock_timestamp}
use leetbattle.Match.Config.{seconds, stale_after_seconds}
use leetbattle.Match.Events.{is_match}

-- `none` is null, undefined or an empty text.
unfoldable pub require_actor : Option ℕ → M ℕ
require_actor actor = expect actor (domain_error auth_required 401)

unfoldable pub assert_profile : ℕ → M (Unit {0})
assert_profile user = do
  known ← gets (λ db. any (λ p. nat_beq p.user user) db.profiles)
  guard known (domain_error profile_required 409)

unfoldable pub lock_match : ℕ → M MatchRow
lock_match id = do
  m ← gets (λ db. find (is_match id) db.matches)
  expect m (domain_error match_not_found 404)

abbrev pub is_participant : ℕ → ℕ → ParticipantRow → Bool
is_participant id user p = nat_beq p.match_id id && nat_beq p.user user

unfoldable pub lock_participant : ℕ → ℕ → M ParticipantRow
lock_participant id user = do
  p ← gets (λ db. find (is_participant id user) db.participants)
  expect p (domain_error not_a_participant 403)

-- A session of the user on the match that is open and not stale.
abbrev pub is_fresh_session : ℕ → ℕ → ℕ → SessionRow → Bool
is_fresh_session now id user s =
    nat_beq s.match_id id
    && (nat_beq s.user user
        && (is_none s.disconnected_at && ltb now (s.last_seen_at + seconds stale_after_seconds)))

abbrev pub is_live : ℕ → List SessionRow → ParticipantRow → Bool
is_live now sessions p = p.connected && any (is_fresh_session now p.match_id p.user) sessions

abbrev pub is_live_found : ℕ → List SessionRow → Option ParticipantRow → Bool
is_live_found now sessions none = false
is_live_found now sessions (some p) = is_live now sessions p

unfoldable pub has_live_presence : ℕ → ℕ → M Bool
has_live_presence id user = do
  now ← clock_timestamp
  gets (λ db. is_live_found now db.sessions (find (is_participant id user) db.participants))

unfoldable pub assert_match_participant : Option ℕ → ℕ → M Slot
assert_match_participant actor id = do
  user ← require_actor actor
  found ← gets (λ db. find (is_participant id user) db.participants)
  p ← expect found (domain_error not_a_participant 403)
  pure p.slot

abbrev pub is_member : ℕ → ℕ → MemberRow → Bool
is_member room user m = nat_beq m.room_id room && nat_beq m.user user

abbrev pub is_room : ℕ → RoomRow → Bool
is_room id r = nat_beq r.id id

pub record Membership : Type 0 where
  pub room_id : ℕ
  pub match_id : Option ℕ
  pub slot : Slot

unfoldable pub assert_room_membership : Option ℕ → ℕ → M Membership
assert_room_membership actor room = do
  user ← require_actor actor
  found_room ← gets (λ db. find (is_room room) db.rooms)
  r ← expect found_room (domain_error not_a_participant 403)
  found ← gets (λ db. find (is_member room user) db.members)
  m ← expect found (domain_error not_a_participant 403)
  pure (record { room_id = room; match_id = r.active_match; slot = m.slot })
