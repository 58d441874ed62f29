-- ===== src/Arena/Rounds/Rows.antt =====
-- How the answers and the evaluations change: the lease of an evaluation as a state machine, and the
-- tables.
use leetbattle.Shared.{
  ℕ, ◌≤◌, ◌≡◌, ◌⊎◌, refl, Bool, true, false, Option, some, none, List, [], ◌∷◌, find, arith, inl,
  inr, ◌∙◌, subst,
}
use leetbattle.Store.Evaluations.{
  AnswerRow, EvaluationRow, EvaluationStatus, pending, in_progress, completed, failed, skipped,
}
use leetbattle.Store.Tx.{M}
use leetbattle.Store.Watch.{Watch, Keeps, Run, Run-keep}
use leetbattle.Store.Tables.{Follows, Follows-refl, Follows-then}
use leetbattle.Arena.Preparation.{is_answer_of}

-- The state of an evaluation: it waits, the claim of a worker holds it, it has failed, and then may be
-- retried or not, or it is settled.
pub data Lease : Type 0 where
  waiting : Lease
  held : Option ℕ → Lease
  broken : Bool → Lease
  settled : Lease

-- Who acts: a worker that claims an evaluation, the worker with a claim on an evaluation who hands in
-- an answer of the judge, the service that closes the answers of a match, or someone who may not
-- change an evaluation.
pub data Actor : Type 0 where
  claimant : ℕ → Actor
  worker : ℕ → ℕ → Actor
  clerk : Actor
  other : Actor

abbrev pub lease_of : EvaluationRow → Lease
lease_of v = elim v.status [
  | pending ↦ waiting
  | in_progress ↦ held v.worker_claim
  | completed ↦ settled
  | failed ↦ broken v.failure_retryable
  | skipped ↦ settled
]

-- What one may do to the evaluation with an identifier: blank answers settle it while it waits; a
-- worker claims it if it waits, if another claim holds it or if it may be retried; only the worker
-- with the claim that holds it settles it or gives it up.
pub data CanMove : Actor → ℕ → Lease → Lease → Type 0 where
  skips : {id : ℕ} → CanMove clerk id waiting settled
  takes : {id : ℕ} (c : ℕ) → CanMove (claimant id) id waiting (held (some c))
  takes_over : {id : ℕ} (o : Option ℕ) (c : ℕ) → CanMove (claimant id) id (held o) (held (some c))
  retries : {id : ℕ} (c : ℕ) → CanMove (claimant id) id (broken true) (held (some c))
  finishes : {id c : ℕ} → CanMove (worker id c) id (held (some c)) settled
  gives_up : {id c : ℕ} (again : Bool) → CanMove (worker id c) id (held (some c)) (broken again)

-- What one does to an evaluation in a step.
pub data Moves (x : Actor) (id : ℕ) : Lease → Lease → Type 0 where
  stay : {l : Lease} → Moves x id l l
  go : {l m n : Lease} → CanMove x id l m → Moves x id m n → Moves x id l n

pub Moves-trans :
    {x : Actor} {id : ℕ} {l m n : Lease} → Moves x id l m → Moves x id m n → Moves x id l n
Moves-trans stay k = k
Moves-trans (go h j) k = go h (Moves-trans j k)

-- What several do to it, one after the other.
pub data Course : List Actor → ℕ → Lease → Lease → Type 0 where
  ended : {id : ℕ} {l : Lease} → Course [] id l l
  then :
      {x : Actor} {xs : List Actor} {id : ℕ} {l m n : Lease}
      → Moves x id l m
      → Course xs id m n
      → Course (x ∷ xs) id l n

abbrev pub is_settled : EvaluationStatus → Bool
is_settled completed = true
is_settled skipped = true
is_settled _ = false

-- An evaluation keeps what is judged and whose answers they are, its lease goes as the relation says,
-- its attempts do not fall, and a settled one stays as it is.
pub record RowMoves (R : ℕ → Lease → Lease → Type 0) (v w : EvaluationRow) : Type 0 where
  pub moves : R v.id (lease_of v) (lease_of w)
  pub same_id : w.id ≡ v.id
  pub same_match : w.match_id ≡ v.match_id
  pub same_snapshot : w.snapshot ≡ v.snapshot
  pub same_a : w.answer_a_user ≡ v.answer_a_user
  pub same_b : w.answer_b_user ≡ v.answer_b_user
  pub attempts_grow : v.attempt_count ≤ w.attempt_count
  pub stays_settled : (is_settled v.status ≡ false) ⊎ (w ≡ v)

pub RowMoves-refl :
    (R : ℕ → Lease → Lease → Type 0)
    → ((id : ℕ) (l : Lease) → R id l l)
    → (v : EvaluationRow) → RowMoves R v v
RowMoves-refl R h v = record {
  moves = h v.id (lease_of v);
  same_id = refl;
  same_match = refl;
  same_snapshot = refl;
  same_a = refl;
  same_b = refl;
  attempts_grow = omega arith;
  stays_settled = inr refl;
}

settled_trans :
    (u v w : EvaluationRow)
    → (is_settled u.status ≡ false) ⊎ (v ≡ u)
    → (is_settled v.status ≡ false) ⊎ (w ≡ v)
    → (is_settled u.status ≡ false) ⊎ (w ≡ u)
settled_trans u v w (inl h) k = inl h
settled_trans u v w (inr e) (inr f) = inr (f ∙ e)
settled_trans u v w (inr e) (inl h) = inl (subst (λ x. is_settled x.status ≡ false) e h)

pub RowMoves-then :
    {R S T : ℕ → Lease → Lease → Type 0}
    → ((id : ℕ) (l m n : Lease) → R id l m → S id m n → T id l n)
    → (u v w : EvaluationRow) → RowMoves R u v
    → RowMoves S v w
    → RowMoves T u w
RowMoves-then {S = S} h u v w s t = record {
  moves =
      h u.id (lease_of u) (lease_of v) (lease_of w) s.moves
        (subst (λ i. S i (lease_of v) (lease_of w)) s.same_id t.moves);
  same_id = t.same_id ∙ s.same_id;
  same_match = t.same_match ∙ s.same_match;
  same_snapshot = t.same_snapshot ∙ s.same_snapshot;
  same_a = t.same_a ∙ s.same_a;
  same_b = t.same_b ∙ s.same_b;
  attempts_grow = omega (arith, s.attempts_grow, t.attempts_grow);
  stays_settled = settled_trans u v w s.stays_settled t.stays_settled;
}

pub RowMoves-still : (x : Actor) (v : EvaluationRow) → RowMoves (Moves x) v v
RowMoves-still x = RowMoves-refl (Moves x) (λ id l. stay)

-- Answers are added, each the first of its player in its match.
pub data Grows : List AnswerRow → List AnswerRow → Type 0 where
  same : {ws : List AnswerRow} → Grows ws ws
  add :
      {vs ws : List AnswerRow} (w : AnswerRow)
      → find (is_answer_of w.match_id w.user) ws ≡ none
      → Grows vs ws
      → Grows vs (w ∷ ws)

pub Grows-trans : {us vs ws : List AnswerRow} → Grows us vs → Grows vs ws → Grows us ws
Grows-trans e same = e
Grows-trans e (add w h f) = add w h (Grows-trans e f)

pub Grows-locked :
    (id user : ℕ) (w : AnswerRow) {vs ws : List AnswerRow}
    → Grows vs ws
    → find (is_answer_of id user) vs ≡ some w
    → find (is_answer_of id user) ws ≡ some w
Grows-locked id user w same h = h
Grows-locked id user w (add {ws = ws} x fresh e) h =
    let rest = Grows-locked id user w e h in ground (arith, rest, fresh)

abbrev pub Rounds : Type 0
Rounds = List AnswerRow × List EvaluationRow

pub record Proceeds (R : ℕ → Lease → Lease → Type 0) (v w : Rounds) : Type 0 where
  pub answers : Grows v.0 w.0
  pub evaluations : Follows (RowMoves R) v.1 w.1

pub Proceeds-refl :
    (R : ℕ → Lease → Lease → Type 0)
    → ((id : ℕ) (l : Lease) → R id l l)
    → (v : Rounds) → Proceeds R v v
Proceeds-refl R h v = record {
  answers = same;
  evaluations = Follows-refl (RowMoves R) (RowMoves-refl R h) v.1;
}

pub Proceeds-then :
    {R S T : ℕ → Lease → Lease → Type 0}
    → ((id : ℕ) (l m n : Lease) → R id l m → S id m n → T id l n)
    → (u v w : Rounds) → Proceeds R u v
    → Proceeds S v w
    → Proceeds T u w
Proceeds-then h u v w e f = record {
  answers = Grows-trans e.answers f.answers;
  evaluations = Follows-then (RowMoves-then h) e.evaluations f.evaluations;
}

-- The view for the actions that leave the answers and the evaluations alone.
abbrev pub rounds_watch : Watch
rounds_watch = record {
  View = Rounds;
  view = λ db. (db.answers, db.evaluations);
  Rel = λ v w. v ≡ w;
  rel_refl = λ v. refl;
  rel_trans = λ u v w h k. h ∙ k;
  rel_rollback = λ before after e. refl;
}

-- And for those of an actor.
abbrev pub acting : Actor → Watch
acting x = record {
  View = Rounds;
  view = λ db. (db.answers, db.evaluations);
  Rel = Proceeds (Moves x);
  rel_refl = Proceeds-refl (Moves x) (λ id l. stay);
  rel_trans = Proceeds-then (λ id l m n. Moves-trans);
  rel_rollback =
      λ before after e. Proceeds-refl (Moves x) (λ id l. stay) (before.answers, before.evaluations);
}

pub Keeps-acting : {A : Type 0} (x : Actor) (m : M A) → Keeps rounds_watch m → Keeps (acting x) m
Keeps-acting x m k = record { at = k.at }

pub Run-still :
    {A : Type 0} (x : Actor) (v : Rounds) (m : M A) → Keeps rounds_watch m → Run (acting x) v m
Run-still x v m k = Run-keep (acting x) v m (Keeps-acting x m k)
