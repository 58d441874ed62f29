-- ===== src/Match/Calls/Standing.antt =====
-- The match, the player and the receipt of a command stay while the call that has made it goes on:
-- the reads, events, countdowns and snapshots of match-engine.ts.
use leetbattle.Shared.{
  ℕ, ◌≡◌, refl, ◌∙◌, Bool, false, Option, some, none, List, [], ◌∷◌, find, update_first, update,
  is_some, is_none, ◌&&◌, arith, ap,
}
use leetbattle.Domain.Types.{coding, ai_ml, ChallengeType, ProblemRef}
use leetbattle.Domain.Errors.{Result, ok, err}
use leetbattle.Store.Rows.{Db, MatchRow, ParticipantRow, ReceiptRow, EventRow, Event, Response}
use leetbattle.Store.Tx.{
  M, begin, commit, advance, clock_timestamp, on_matches, on_participants, on_events, on_receipts,
}
use leetbattle.Store.Watch.{
  Watch, Keeps, Keeps-pure, Keeps-raise, Keeps-lift, Keeps-gets, Keeps-expect, Keeps-if,
  Keeps-guard, Keeps-bind,
}
use leetbattle.Match.Config.{Engine}
use leetbattle.Match.Receipts.{Command, is_receipt, same_command, complete_command}
use leetbattle.Match.Events.{is_match, bump, append_event}
use leetbattle.Match.Locks.{
  is_participant, lock_match, require_actor, assert_match_participant, has_live_presence,
}
use leetbattle.Match.Countdown.{
  is_due_countdown, activate, lacks_deadline, start_grace, grace_at_start, active_event,
  start_match, try_advance, advance_countdown_tx, advance_countdown,
}
use leetbattle.Match.Lobby.{
  is_lobby, to_countdown, announce_countdown, start_countdown, start_if_ready, change_ready,
}
use leetbattle.Match.Snapshot.{get_snapshot_by_match}

module _ {A : Type 0} (q : A → Bool) (p : A → Bool) (f : A → A) where
  is_there-update_first :
      ((x : A) → q (f x) ≡ q x)
      → (xs : List A) → is_some (find q (update_first p f xs)) ≡ is_some (find q xs)
  is_there-update_first h [] = refl
  is_there-update_first h (x ∷ xs) = ground (arith, h x, is_there-update_first h xs)

  is_there-update :
      ((x : A) → q (f x) ≡ q x)
      → (xs : List A) → is_some (find q (update p f xs)) ≡ is_some (find q xs)
  is_there-update h [] = refl
  is_there-update h (x ∷ xs) = ground (arith, h x, is_there-update h xs)

abbrev pub is_stored : Engine → Command → Option ReceiptRow → Bool
is_stored e c none = false
is_stored e c (some r) = same_command e c r

-- Is there a match, the player in it, and a receipt of the command?
abbrev pub Standing : Engine → Command → ℕ → Watch
Standing e c id = record {
  View = Bool × Bool × Bool;
  view = λ db. (
    is_some (find (is_match id) db.matches),
    is_some (find (is_participant id c.actor) db.participants),
    is_stored e c (find (is_receipt c.actor c.key) db.receipts),
  );
  Rel = λ v w. v ≡ w;
  rel_refl = λ v. refl;
  rel_trans = λ u v w h k. h ∙ k;
  rel_rollback = λ before after h. refl;
}

module _ (e : Engine) (c : Command) (id : ℕ) where
  abbrev W : Watch
  W = Standing e c id

  Keeps-commit :
      {A : Type 0} (before after : Db) (r : Result A)
      → W.view after ≡ W.view before
      → W.view (commit before (r, after)).1 ≡ W.view before
  Keeps-commit before after (ok a) h = h
  Keeps-commit before after (err x) h = refl

  Keeps-begin : {A : Type 0} (m : M A) → Keeps W m → Keeps W (begin m)
  unfolding begin
  Keeps-begin m k = record { at = λ db. let (r, after) = m db in Keeps-commit db after r (k.at db) }

  advance_standing : (db : Db) (ds : List ℕ) → W.view (advance db ds) ≡ W.view db
  advance_standing db [] = refl
  advance_standing db (d ∷ ds) = refl

  Keeps-clock : Keeps W clock_timestamp
  unfolding clock_timestamp
  Keeps-clock = record { at = λ db. advance_standing db db.delays }

  Keeps-events : (f : List EventRow → List EventRow) → Keeps W (on_events f)
  unfolding on_events
  Keeps-events f = record { at = λ db. refl }

  Keeps-matches :
      (p : MatchRow → Bool) (f : MatchRow → MatchRow)
      → ((m : MatchRow) → is_match id (f m) ≡ is_match id m)
      → Keeps W (on_matches (update_first p f))
  unfolding on_matches
  Keeps-matches p f h = record {
    at = λ db.
        ap (λ b. (b, (W.view db).1, (W.view db).2))
          (is_there-update_first (is_match id) p f h db.matches);
  }

  Keeps-bump : (i : ℕ) → Keeps W (on_matches (update_first (is_match i) bump))
  Keeps-bump i = Keeps-matches _ _ (λ m. refl)

  Keeps-activate :
      (now i : ℕ) → Keeps W (on_matches (update_first (is_due_countdown now i) activate))
  Keeps-activate now i = Keeps-matches _ _ (λ m. refl)

  Keeps-to_countdown :
      (i now : ℕ) (p : ProblemRef)
      → Keeps W (on_matches (update_first (is_lobby i) (to_countdown e p now)))
  Keeps-to_countdown i now p = Keeps-matches _ _ (λ m. refl)

  Keeps-ready :
      (i u : ℕ) (o : Option ℕ)
      → Keeps W
          (on_participants (update_first (is_participant i u) (λ q. record q { ready_at = o })))
  unfolding on_participants
  Keeps-ready i u o = record {
    at = λ db.
        ap (λ b. ((W.view db).0, b, (W.view db).2))
          (is_there-update_first (is_participant id c.actor) _ _ (λ q. refl) db.participants);
  }

  Keeps-grace :
      (i start : ℕ) → Keeps W (on_participants (update (lacks_deadline i) (start_grace e start)))
  unfolding on_participants
  Keeps-grace i start = record {
    at = λ db.
        ap (λ b. ((W.view db).0, b, (W.view db).2))
          (is_there-update (is_participant id c.actor) _ _ (λ q. refl) db.participants);
  }

  is_stored_complete :
      (now u : ℕ) (k : List ℕ) (reply : Response) (rs : List ReceiptRow)
      → is_stored e c (
          find (is_receipt c.actor c.key) (
            update_first
              (λ r. is_receipt u k r && is_none r.response)
              (λ r. record r { response = some reply; completed_at = some now })
              rs))
        ≡ is_stored e c (find (is_receipt c.actor c.key) rs)
  is_stored_complete now u k reply [] = refl
  is_stored_complete now u k reply (r ∷ rs) = ground (arith, is_stored_complete now u k reply rs)

  Keeps-receipts :
      (now u : ℕ) (k : List ℕ) (reply : Response)
      → Keeps W (
          on_receipts (
            update_first
              (λ r. is_receipt u k r && is_none r.response)
              (λ r. record r { response = some reply; completed_at = some now })))
  unfolding on_receipts
  Keeps-receipts now u k reply = record {
    at = λ db.
        ap (λ b. ((W.view db).0, (W.view db).1, b)) (is_stored_complete now u k reply db.receipts);
  }

  ruleset still = (
    Keeps-pure, Keeps-raise, Keeps-lift, Keeps-gets, Keeps-expect, Keeps-if, Keeps-guard,
    Keeps-bind, Keeps-begin, Keeps-clock, Keeps-events, Keeps-bump, Keeps-activate,
    Keeps-to_countdown, Keeps-ready, Keeps-grace, Keeps-receipts,
  )

  Keeps-complete_command :
      (u : ℕ) (k : List ℕ) (reply : Response) → Keeps W (complete_command u k reply)
  unfolding complete_command
  Keeps-complete_command u k reply = search still depth 10

  Keeps-append_event : (i : ℕ) (event : Event) → Keeps W (append_event i event)
  unfolding append_event
  Keeps-append_event i event = search still depth 20

  Keeps-grace_at_start : (m : MatchRow) → Keeps W (grace_at_start e m)
  unfolding grace_at_start
  Keeps-grace_at_start m = search still depth 10

  Keeps-active_event : (t : ChallengeType) (m : MatchRow) → Keeps W (active_event e t m)
  unfolding active_event
  Keeps-active_event coding m = search still
  Keeps-active_event ai_ml m = search still depth 10

  Keeps-start_match : (m : MatchRow) (o : Option MatchRow) → Keeps W (start_match e m o)
  unfolding start_match
  Keeps-start_match m none = search still
  Keeps-start_match m (some n) =
      search (still, Keeps-append_event, Keeps-grace_at_start, Keeps-active_event) depth 20

  Keeps-advance_countdown : (i : ℕ) → Keeps W (advance_countdown e i)
  unfolding advance_countdown advance_countdown_tx try_advance lock_match
  Keeps-advance_countdown i = search (still, Keeps-start_match) depth 20

  pub Keeps-get_snapshot_by_match :
      (user : Option ℕ) (i : ℕ) → Keeps W (get_snapshot_by_match e user i)
  unfolding get_snapshot_by_match assert_match_participant require_actor
  Keeps-get_snapshot_by_match user i = search (still, Keeps-advance_countdown) depth 40

  Keeps-announce_countdown : (m : MatchRow) (o : Option MatchRow) → Keeps W (announce_countdown m o)
  unfolding announce_countdown
  Keeps-announce_countdown m none = search still
  Keeps-announce_countdown m (some r) = search (still, Keeps-append_event) depth 10

  Keeps-start_countdown : (m : MatchRow) (live : Bool) → Keeps W (start_countdown e m live)
  unfolding start_countdown
  Keeps-start_countdown m live = search (still, Keeps-announce_countdown) depth 30

  Keeps-start_if_ready : (m : MatchRow) → Keeps W (start_if_ready e m)
  unfolding start_if_ready
  Keeps-start_if_ready m = search (still, Keeps-start_countdown) depth 20

  pub Keeps-change_ready :
      (m : MatchRow) (p : ParticipantRow) (ready : Bool) (key : List ℕ)
      → Keeps W (change_ready e m p ready key)
  unfolding change_ready has_live_presence
  Keeps-change_ready m p ready key =
      search (still, Keeps-append_event, Keeps-start_if_ready, Keeps-complete_command) depth 40
