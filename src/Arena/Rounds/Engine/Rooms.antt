-- ===== src/Arena/Rounds/Engine/Rooms.antt =====
-- The match engine leaves the answers and the evaluations alone: rooms and the lobby.
use leetbattle.Arena.Rounds.Engine.Heads.{
  Keeps-append_event, Keeps-assert_profile, Keeps-complete_command, Keeps-get_snapshot,
  Keeps-get_snapshot_by_match, Keeps-has_live_presence, Keeps-lock_match, Keeps-lock_participant,
  Keeps-require_actor, Keeps-reserve_command,
}
use leetbattle.Arena.Rounds.Frame.{still}
use leetbattle.Arena.Rounds.Rows.{rounds_watch}
use leetbattle.Domain.Types.{ChallengeType, Difficulty, Language, MatchMode}
use leetbattle.Match.Config.{Engine}
use leetbattle.Match.Lobby.{
  announce_countdown, change_language, change_ready, set_language, set_language_tx, set_ready,
  set_ready_tx, start_countdown, start_if_ready,
}
use leetbattle.Match.Receipts.{Reservation}
use leetbattle.Match.Rooms.{
  active_match_of, create_room, create_room_tx, get_room_id_for_invite, insert_room, join_reserved,
  join_room, join_room_tx, take_slot,
}
use leetbattle.Shared.{Bool, List, Option, none, some, ℕ}
use leetbattle.Store.Rows.{MatchRow, ParticipantRow, RoomRow}
use leetbattle.Store.Watch.{Keeps}

pub Keeps-insert_room :
    (e : Engine) (user : ℕ) (key : List ℕ) (difficulty : Difficulty) (mode : MatchMode)
    (challenge : ChallengeType) (token_hash : ℕ)
    → Keeps rounds_watch (insert_room e user key difficulty mode challenge token_hash)
unfolding insert_room
Keeps-insert_room e user key difficulty mode challenge token_hash =
    search (still, Keeps-complete_command, Keeps-append_event) depth 40

pub Keeps-create_room_tx :
    (e : Engine) (user : ℕ) (key : List ℕ) (difficulty : Difficulty) (mode : MatchMode)
    (challenge : ChallengeType)
    → Keeps rounds_watch (create_room_tx e user key difficulty mode challenge)
unfolding create_room_tx
Keeps-create_room_tx e user key difficulty mode challenge =
    search (still, Keeps-assert_profile, Keeps-reserve_command, Keeps-insert_room) depth 40

pub Keeps-create_room :
    (e : Engine) (actor : Option ℕ) (difficulty : Difficulty) (key : List ℕ)
    (mode : Option MatchMode) (challenge : Option ChallengeType)
    → Keeps rounds_watch (create_room e actor difficulty key mode challenge)
unfolding create_room
Keeps-create_room e actor difficulty key mode challenge =
    search (still, Keeps-require_actor, Keeps-get_snapshot, Keeps-create_room_tx) depth 40

pub Keeps-active_match_of : (room : RoomRow) → Keeps rounds_watch (active_match_of room)
unfolding active_match_of
Keeps-active_match_of room = search still depth 40

pub Keeps-take_slot :
    (user : ℕ) (room : RoomRow) (id : ℕ) → Keeps rounds_watch (take_slot user room id)
unfolding take_slot
Keeps-take_slot user room id = search (still, Keeps-append_event) depth 40

pub Keeps-join_reserved :
    (user : ℕ) (key : List ℕ) (room : RoomRow) (id : ℕ) (is_known : Bool) (r : Reservation)
    → Keeps rounds_watch (join_reserved user key room id is_known r)
unfolding join_reserved
Keeps-join_reserved user key room id is_known r =
    search (still, Keeps-complete_command, Keeps-take_slot) depth 40

pub Keeps-join_room_tx :
    (e : Engine) (user : ℕ) (key : List ℕ) (token_hash : ℕ)
    → Keeps rounds_watch (join_room_tx e user key token_hash)
unfolding join_room_tx
Keeps-join_room_tx e user key token_hash =
    search
      (
        still, Keeps-assert_profile, Keeps-reserve_command, Keeps-active_match_of,
        Keeps-join_reserved,
      )
      depth 40

pub Keeps-join_room :
    (e : Engine) (actor : Option ℕ) (token : List ℕ) (key : List ℕ)
    → Keeps rounds_watch (join_room e actor token key)
unfolding join_room
Keeps-join_room e actor token key =
    search (still, Keeps-require_actor, Keeps-get_snapshot, Keeps-join_room_tx) depth 40

pub Keeps-get_room_id_for_invite :
    (e : Engine) (actor : Option ℕ) (token : List ℕ)
    → Keeps rounds_watch (get_room_id_for_invite e actor token)
unfolding get_room_id_for_invite
Keeps-get_room_id_for_invite e actor token = search (still, Keeps-require_actor) depth 40

pub Keeps-change_language :
    (m : MatchRow) (p : ParticipantRow) (language : Language) (key : List ℕ)
    → Keeps rounds_watch (change_language m p language key)
unfolding change_language
Keeps-change_language m p language key =
    search (still, Keeps-complete_command, Keeps-append_event) depth 40

pub Keeps-set_language_tx :
    (e : Engine) (user : ℕ) (id : ℕ) (language : Language) (key : List ℕ)
    → Keeps rounds_watch (set_language_tx e user id language key)
unfolding set_language_tx
Keeps-set_language_tx e user id language key =
    search
      (
        still, Keeps-lock_match, Keeps-lock_participant, Keeps-reserve_command,
        Keeps-change_language,
      )
      depth 40

pub Keeps-set_language :
    (e : Engine) (actor : Option ℕ) (id : ℕ) (language : Language) (key : List ℕ)
    → Keeps rounds_watch (set_language e actor id language key)
unfolding set_language
Keeps-set_language e actor id language key =
    search (still, Keeps-require_actor, Keeps-get_snapshot_by_match, Keeps-set_language_tx) depth 40

pub Keeps-announce_countdown :
    (m : MatchRow) (o : Option MatchRow) → Keeps rounds_watch (announce_countdown m o)
unfolding announce_countdown
Keeps-announce_countdown m none = search still depth 40
Keeps-announce_countdown m (some r) = search (still, Keeps-append_event) depth 40

pub Keeps-start_countdown :
    (e : Engine) (m : MatchRow) (live : Bool) → Keeps rounds_watch (start_countdown e m live)
unfolding start_countdown
Keeps-start_countdown e m live = search (still, Keeps-announce_countdown) depth 40

pub Keeps-start_if_ready : (e : Engine) (m : MatchRow) → Keeps rounds_watch (start_if_ready e m)
unfolding start_if_ready
Keeps-start_if_ready e m = search (still, Keeps-start_countdown) depth 40

pub Keeps-change_ready :
    (e : Engine) (m : MatchRow) (p : ParticipantRow) (ready : Bool) (key : List ℕ)
    → Keeps rounds_watch (change_ready e m p ready key)
unfolding change_ready
Keeps-change_ready e m p ready key =
    search
      (
        still, Keeps-has_live_presence, Keeps-complete_command, Keeps-append_event,
        Keeps-start_if_ready,
      )
      depth 40

pub Keeps-set_ready_tx :
    (e : Engine) (user : ℕ) (id : ℕ) (ready : Bool) (key : List ℕ)
    → Keeps rounds_watch (set_ready_tx e user id ready key)
unfolding set_ready_tx
Keeps-set_ready_tx e user id ready key =
    search
      (still, Keeps-lock_match, Keeps-lock_participant, Keeps-reserve_command, Keeps-change_ready)
      depth 40

pub Keeps-set_ready :
    (e : Engine) (actor : Option ℕ) (id : ℕ) (ready : Bool) (key : List ℕ)
    → Keeps rounds_watch (set_ready e actor id ready key)
unfolding set_ready
Keeps-set_ready e actor id ready key =
    search (still, Keeps-require_actor, Keeps-get_snapshot_by_match, Keeps-set_ready_tx) depth 40
