-- ===== src/Match/Snapshot/Privacy.antt =====
-- What a snapshot keeps from the player who asks for it.
use leetbattle.Shared.{
  ℕ, Bool, true, not, ◌||◌, ◌≡◌, refl, Option, none, List, [], ◌∷◌, arith, map, is_none, ◌==◌, All,
  nat_beq, ◌⊎◌, inl, inr, Bool-cases, ap, sym, ◌∙◌, subst,
}
use leetbattle.Domain.Types.{active, MatchState, state_eq, challenge_eq}
use leetbattle.Domain.Errors.{ok}
use leetbattle.Store.Rows.{Db, MatchRow}
use leetbattle.Store.Outcomes.{bind-ok, gets-ok}
use leetbattle.Match.Config.{Engine}
use leetbattle.Match.Snapshot.{
  MatchSnapshot, PlayerSnapshot, Player, player_snapshot, snapshot_of, get_snapshot_by_match,
}

-- Before the match is played, or over.
abbrev pub is_hidden : MatchSnapshot → Bool
is_hidden s =
    not (s.state == active || s.state == MatchState.judging || not (is_none s.finished_at))

abbrev pub IsOwn : PlayerSnapshot → Type 0
IsOwn p = (p.is_self ≡ true) ⊎ (p.submitted_at ≡ none)

IsOwn-player : (user : ℕ) (m : MatchRow) (p : Player) → IsOwn (player_snapshot user m p)
IsOwn-player user m p = elim (Bool-cases (nat_beq p.row.user user)) [
  | inl hit ↦ inl hit
  | inr miss ↦ inr (rw miss refl)
]

IsOwn-players :
    (user : ℕ) (m : MatchRow) (ps : List Player) → All IsOwn (map (player_snapshot user m) ps)
IsOwn-players user m [] = tt
IsOwn-players user m (p ∷ ps) = (IsOwn-player user m p, IsOwn-players user m ps)

snapshot_of-hidden :
    (e : Engine) (user now : ℕ) (m : MatchRow) (ps : List Player) (db : Db)
    → is_hidden (snapshot_of e user now m ps db) ≡ true
    → let s = snapshot_of e user now m ps db in
      (s.problem ≡ none) × (s.question ≡ none) × (s.answer_deadline_at ≡ none)
unfolding snapshot_of
snapshot_of-hidden e user now m ps db h = ground arith

-- What a snapshot was made from.
record Source (e : Engine) (s : MatchSnapshot) : Type 0 where
  pub user : ℕ
  pub now : ℕ
  pub row : MatchRow
  pub players : List Player
  pub db : Db
  pub is_made : s ≡ snapshot_of e user now row players db

source :
    (e : Engine) (actor : Option ℕ) (id : ℕ) (db after : Db) (s : MatchSnapshot)
    → get_snapshot_by_match e actor id db ≡ (ok s, after)
    → Source e s
unfolding get_snapshot_by_match
source e actor id db after s h =
    let b1 = bind-ok _ _ db s after h in
    let b2 = bind-ok _ _ _ s after b1.second in
    let b3 = bind-ok _ _ _ s after b2.second in
    let b4 = bind-ok _ _ _ s after b3.second in
    let b5 = bind-ok _ _ _ s after b4.second in
    let b6 = bind-ok _ _ _ s after b5.second in
    let b7 = bind-ok _ _ _ s after b6.second in
    let b8 = bind-ok _ _ _ s after b7.second in
    let b9 = bind-ok _ _ _ s after b8.second in
    record {
      user = b1.value;
      now = b4.value;
      row = b6.value;
      players = b8.value;
      db = b9.between;
      is_made = (gets-ok _ _ s after b9.second).0;
    }

-- Until a match is active, judged or finished its snapshots show neither the problem nor the
-- question nor the deadline of the answer.
pub get_snapshot_hidden :
    (e : Engine) (actor : Option ℕ) (id : ℕ) (db after : Db) (s : MatchSnapshot)
    → get_snapshot_by_match e actor id db ≡ (ok s, after)
    → is_hidden s ≡ true
    → (s.problem ≡ none) × (s.question ≡ none) × (s.answer_deadline_at ≡ none)
get_snapshot_hidden e actor id db after s h k =
    let o = source e actor id db after s h in
    subst (λ s. (s.problem ≡ none) × (s.question ≡ none) × (s.answer_deadline_at ≡ none))
      (sym o.is_made)
      (snapshot_of-hidden e o.user o.now o.row o.players o.db (ap is_hidden (sym o.is_made) ∙ k))

snapshot_of-IsOwn :
    (e : Engine) (user now : ℕ) (m : MatchRow) (ps : List Player) (db : Db)
    → All IsOwn (snapshot_of e user now m ps db).players
unfolding snapshot_of
snapshot_of-IsOwn e user now m ps db = IsOwn-players user m ps

-- A snapshot shows no time of an answer other than that of the player who asks.
pub get_snapshot-IsOwn :
    (e : Engine) (actor : Option ℕ) (id : ℕ) (db after : Db) (s : MatchSnapshot)
    → get_snapshot_by_match e actor id db ≡ (ok s, after)
    → All IsOwn s.players
get_snapshot-IsOwn e actor id db after s h =
    let o = source e actor id db after s h in
    subst (λ s. All IsOwn s.players) (sym o.is_made)
      (snapshot_of-IsOwn e o.user o.now o.row o.players o.db)
