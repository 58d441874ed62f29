-- ===== src/Match/Finish/Row.antt =====
-- The row of one match while a match ends, and the result that it gets.
use leetbattle.Shared.{
  ℕ, Bool, true, false, ◌≡◌, refl, Option, some, none, List, [], ◌∷◌, arith, find, update_first, ap,
  subst, Bool-cases, inl, inr,
}
use leetbattle.Domain.Types.{EndReason, mode_eq, state_eq}
use leetbattle.Domain.Errors.{ok}
use leetbattle.Store.Rows.{Db, MatchRow, Event}
use leetbattle.Store.Tx.{M, on_matches}
use leetbattle.Store.Watch.{
  Watch, Keeps, Keeps-lift, Keeps-gets, Keeps-guard, Run, Run-keep, Run-bind, Run-if,
}
use leetbattle.Match.Events.{is_match, bump, append_event}
use leetbattle.Match.Finish.{close, is_finished, to_rematch}
use leetbattle.Match.Lifecycle.Rows.{matches_watch, is_over, RowStep, RowStep-refl, RowStep-trans}
use leetbattle.Match.Lifecycle.Writes.{RowStep-bump, RowStep-to_rematch}
use leetbattle.Match.Lifecycle.Steps.{quiet, find-is_match}
use leetbattle.Match.Lifecycle.Endings.{Keeps-settle_players}

-- The row of one match, once there, goes forward and stays.
abbrev pub Follows : Option MatchRow → Option MatchRow → Type 0
Follows none v = Unit
Follows (some m) v = (n : MatchRow) × (v ≡ some n) × RowStep m n

pub Follows-refl : (v : Option MatchRow) → Follows v v
Follows-refl none = tt
Follows-refl (some m) = (m, refl, RowStep-refl m)

pub Follows-trans : (u v w : Option MatchRow) → Follows u v → Follows v w → Follows u w
Follows-trans none v w h k = tt
Follows-trans (some l) none w (n, e, s) k = cc
Follows-trans (some l) (some m) w (n, e, s) (o, f, t) =
    (o, f, RowStep-trans l m o (ground (arith, e, s)) t)

abbrev pub row_watch : ℕ → Watch
row_watch id = record {
  View = Option MatchRow;
  view = λ db. find (is_match id) db.matches;
  Rel = Follows;
  rel_refl = Follows-refl;
  rel_trans = Follows-trans;
  rel_rollback = λ before after e. Follows-refl (find (is_match id) before.matches);
}

Keeps-row : {A : Type 0} (id : ℕ) (m : M A) → Keeps matches_watch m → Keeps (row_watch id) m
Keeps-row id m k = record { at = λ db. ap (find (is_match id)) (k.at db) }

Follows-hit :
    (id : ℕ) (m n : MatchRow)
    → RowStep m n
    → is_match id m ≡ true
    → (ms : List MatchRow) → Follows (some m) (find (is_match id) (n ∷ ms))
Follows-hit id m n s same ms = (n, ground (arith, same, s.facts.same_id), s)

Follows-miss :
    (id : ℕ) (m n : MatchRow)
    → RowStep m n
    → is_match id m ≡ false
    → (ms : List MatchRow) → Follows (find (is_match id) ms) (find (is_match id) (n ∷ ms))
Follows-miss id m n s other ms =
    let miss : is_match id n ≡ false = ground (arith, other, s.facts.same_id) in
    rw miss (Follows-refl (find (is_match id) ms))

Follows-update :
    (id : ℕ) (p : MatchRow → Bool) (f : MatchRow → MatchRow) (ms : List MatchRow)
    → ((m : MatchRow) → p m ≡ true → RowStep m (f m))
    → Follows (find (is_match id) ms) (find (is_match id) (update_first p f ms))
Follows-update id p f [] h = tt
Follows-update id p f (m ∷ ms) h = elim (Bool-cases (p m)) [
  | inl hit ↦ elim (Bool-cases (is_match id m)) [
    | inl same ↦ rw hit (rw same (Follows-hit id m (f m) (h m hit) same ms))
    | inr other ↦ rw hit (rw other (Follows-miss id m (f m) (h m hit) other ms))
  ]
  | inr miss ↦ elim (Bool-cases (is_match id m)) [
    | inl same ↦ rw miss (rw same (m, refl, RowStep-refl m))
    | inr other ↦ rw miss (rw other (Follows-update id p f ms h))
  ]
]

pub Run-update :
    (id : ℕ) (v : Option MatchRow) (p : MatchRow → Bool) (f : MatchRow → MatchRow)
    → ((m : MatchRow) → p m ≡ true → RowStep m (f m))
    → Run (row_watch id) v (on_matches (update_first p f))
unfolding on_matches
Run-update id v p f h = record {
  at = λ db e.
      subst (λ u. Follows u (find (is_match id) (update_first p f db.matches))) e
        (Follows-update id p f db.matches h);
}

pub Run-bump :
    (id i : ℕ) (v : Option MatchRow)
    → Run (row_watch id) v (on_matches (update_first (is_match i) bump))
Run-bump id i v = Run-update id v (is_match i) bump (λ m _. RowStep-bump m)

pub Run-rematch :
    (id i : ℕ) (v : Option MatchRow) (deadline : ℕ)
    → Run (row_watch id) v (on_matches (update_first (is_finished i) (to_rematch deadline)))
Run-rematch id i v deadline =
    Run-update id v (is_finished i) (to_rematch deadline)
      (λ m hit. RowStep-to_rematch deadline m (ground arith))

pub Run-quiet :
    {A : Type 0} (id : ℕ) (v : Option MatchRow) (m : M A)
    → Keeps matches_watch m
    → Run (row_watch id) v m
Run-quiet id v m k = Run-keep _ v m (Keeps-row id m k)

pub ruleset row_steps =
    (quiet, Run-quiet, Run-bump, Run-rematch, Run-bind, Run-if, Keeps-settle_players)

pub Run-append_event :
    (id i : ℕ) (v : Option MatchRow) (event : Event) → Run (row_watch id) v (append_event i event)
unfolding append_event
Run-append_event id i v event = search row_steps depth 20

pub find-update :
    (id : ℕ) (f : MatchRow → MatchRow) (ms : List MatchRow) (m : MatchRow)
    → ((n : MatchRow) → (f n).id ≡ n.id)
    → find (is_match id) ms ≡ some m
    → find (is_match id) (update_first (is_match id) f ms) ≡ some (f m)
find-update id f [] m h e = cc
find-update id f (n ∷ ms) m h e = elim (Bool-cases (is_match id n)) [
  | inl same ↦ rw same (ground (arith, h n, e, same))
  | inr other ↦ rw other (rw other (find-update id f ms m h (rw other at e)))
]

pub on_matches-ok :
    (f : List MatchRow → List MatchRow) (db after : Db) (u : Unit {0})
    → on_matches f db ≡ (ok u, after)
    → after.matches ≡ f db.matches
unfolding on_matches
on_matches-ok f db after u h = ground arith

-- The row has the result.
pub record HasResult (winner : Option ℕ) (reason : EndReason) (o : Option MatchRow) : Type 0 where
  pub row : MatchRow
  pub is_there : o ≡ some row
  pub over : is_over row.state ≡ true
  pub same_winner : row.winner ≡ winner
  pub same_reason : row.end_reason ≡ some reason

pub HasResult-close :
    (winner : Option ℕ) (reason : EndReason) (applies : Bool) (now : ℕ) (m : MatchRow)
    (o : Option MatchRow)
    → Follows (some (close winner reason applies now m)) o
    → HasResult winner reason o
HasResult-close winner reason applies now m o (n, e, s) = record {
  row = n;
  is_there = e;
  over = s.facts.stays_over refl;
  same_winner = s.facts.same_winner refl;
  same_reason = s.facts.same_reason refl;
}
