-- ===== src/Match/Lifecycle/Rooms.antt =====
-- Rooms and lobby: each transaction takes every match forward.
use leetbattle.Shared.{ℕ, List, Option, some, none, Bool}
use leetbattle.Domain.Types.{Difficulty, Language, MatchMode, ChallengeType, state_eq}
use leetbattle.Store.Rows.{MatchRow, ParticipantRow, RoomRow}
use leetbattle.Store.Watch.{Keeps, Run}
use leetbattle.Match.Config.{Engine}
use leetbattle.Match.Receipts.{Reservation}
use leetbattle.Match.Rooms.{
  insert_room, create_room_tx, active_match_of, take_slot, join_reserved, join_room_tx,
}
use leetbattle.Match.Lobby.{
  change_language, set_language_tx, announce_countdown, start_countdown, start_if_ready,
  change_ready, set_ready_tx,
}
use leetbattle.Match.Lifecycle.Rows.{matches_watch}
use leetbattle.Match.Lifecycle.Frame.{frame}
use leetbattle.Match.Lifecycle.Steps.{steps}

Run-insert_room :
    (v : List MatchRow) (e : Engine) (user : ℕ) (key : List ℕ) (d : Difficulty) (m : MatchMode)
    (c : ChallengeType) (token_hash : ℕ)
    → Run matches_watch v (insert_room e user key d m c token_hash)
unfolding insert_room
Run-insert_room v e user key d m c token_hash = search steps depth 40

pub Run-create_room_tx :
    (v : List MatchRow) (e : Engine) (user : ℕ) (key : List ℕ) (d : Difficulty) (m : MatchMode)
    (c : ChallengeType)
    → Run matches_watch v (create_room_tx e user key d m c)
unfolding create_room_tx
Run-create_room_tx v e user key d m c = search (steps, Run-insert_room) depth 20

Run-take_slot :
    (v : List MatchRow) (user : ℕ) (room : RoomRow) (id : ℕ)
    → Run matches_watch v (take_slot user room id)
unfolding take_slot
Run-take_slot v user room id = search steps depth 20

Run-join_reserved :
    (v : List MatchRow) (user : ℕ) (key : List ℕ) (room : RoomRow) (id : ℕ) (known : Bool)
    (r : Reservation)
    → Run matches_watch v (join_reserved user key room id known r)
unfolding join_reserved
Run-join_reserved v user key room id known r = search (steps, Run-take_slot) depth 20

Keeps-active_match_of : (room : RoomRow) → Keeps matches_watch (active_match_of room)
unfolding active_match_of
Keeps-active_match_of room = search frame

pub Run-join_room_tx :
    (v : List MatchRow) (e : Engine) (user : ℕ) (key : List ℕ) (token_hash : ℕ)
    → Run matches_watch v (join_room_tx e user key token_hash)
unfolding join_room_tx
Run-join_room_tx v e user key token_hash =
    search (steps, Run-join_reserved, Keeps-active_match_of) depth 30

Run-change_language :
    (v : List MatchRow) (m : MatchRow) (p : ParticipantRow) (l : Language) (key : List ℕ)
    → Run matches_watch v (change_language m p l key)
unfolding change_language
Run-change_language v m p l key = search steps depth 20

pub Run-set_language_tx :
    (v : List MatchRow) (e : Engine) (user id : ℕ) (l : Language) (key : List ℕ)
    → Run matches_watch v (set_language_tx e user id l key)
unfolding set_language_tx
Run-set_language_tx v e user id l key = search (steps, Run-change_language) depth 20

Run-announce_countdown :
    (v : List MatchRow) (m : MatchRow) (o : Option MatchRow)
    → Run matches_watch v (announce_countdown m o)
unfolding announce_countdown
Run-announce_countdown v m none = search steps
Run-announce_countdown v m (some r) = search steps depth 10

Run-start_countdown :
    (v : List MatchRow) (e : Engine) (m : MatchRow) (live : Bool)
    → Run matches_watch v (start_countdown e m live)
unfolding start_countdown
Run-start_countdown v e m live = search (steps, Run-announce_countdown) depth 40

Run-start_if_ready :
    (v : List MatchRow) (e : Engine) (m : MatchRow) → Run matches_watch v (start_if_ready e m)
unfolding start_if_ready
Run-start_if_ready v e m = search (steps, Run-start_countdown) depth 20

Run-change_ready :
    (v : List MatchRow) (e : Engine) (m : MatchRow) (p : ParticipantRow) (ready : Bool)
    (key : List ℕ)
    → Run matches_watch v (change_ready e m p ready key)
unfolding change_ready
Run-change_ready v e m p ready key = search (steps, Run-start_if_ready) depth 40

pub Run-set_ready_tx :
    (v : List MatchRow) (e : Engine) (user id : ℕ) (ready : Bool) (key : List ℕ)
    → Run matches_watch v (set_ready_tx e user id ready key)
unfolding set_ready_tx
Run-set_ready_tx v e user id ready key = search (steps, Run-change_ready) depth 20
