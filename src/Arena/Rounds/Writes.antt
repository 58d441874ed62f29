-- ===== src/Arena/Rounds/Writes.antt =====
-- Each write to the answers and the evaluations is one that their relation allows.
use leetbattle.Shared.{
  ℕ, ◌≡◌, refl, inl, true, Option, some, none, List, ◌∷◌, find, update_first, arith, subst, sym,
}
use leetbattle.Domain.Types.{MatchMode}
use leetbattle.Store.Evaluations.{
  AnswerRow, EvaluationRow, EvaluationStatus, pending, in_progress, completed, failed, skipped,
}
use leetbattle.Store.Rows.{ParticipantRow}
use leetbattle.Store.Tx.{on_answers, on_evaluations}
use leetbattle.Store.Watch.{Run}
use leetbattle.Store.Tables.{Follows, Follows-refl, Follows-update, grow}
use leetbattle.Arena.Config.{Arena}
use leetbattle.Arena.Claims.{may_claim, claim_row, is_evaluation, is_held}
use leetbattle.Arena.Endings.{is_pending, skip_row}
use leetbattle.Arena.Preparation.{is_answer_of}
use leetbattle.Arena.Judgment.{judged_row}
use leetbattle.Arena.Judgment.Resolution.{JudgeSuccess, Verdict}
use leetbattle.Arena.Failure.{JudgeFailure, failed_row}
use leetbattle.Arena.Deadlines.{add_answer, deadline_answer}
use leetbattle.Arena.Rounds.Rows.{
  Rounds, acting, Actor, clerk, claimant, worker, RowMoves-still, Grows, same, add, RowMoves, Moves,
  stay, go, skips, takes, takes_over, retries, finishes, gives_up, lease_of, held, Proceeds,
}

pub Run-on_answers :
    (x : Actor) (v : Rounds) (f : List AnswerRow → List AnswerRow)
    → Grows v.0 (f v.0)
    → Run (acting x) v (on_answers f)
unfolding on_answers
Run-on_answers x v f h = record {
  at = λ db e.
      subst (λ u. Proceeds (Moves x) v (f u.0, u.1)) (sym e)
        (record {
          answers = h;
          evaluations = Follows-refl (RowMoves (Moves x)) (RowMoves-still x) v.1;
        });
}

pub Run-on_evaluations :
    (x : Actor) (v : Rounds) (f : List EvaluationRow → List EvaluationRow)
    → Follows (RowMoves (Moves x)) v.1 (f v.1)
    → Run (acting x) v (on_evaluations f)
unfolding on_evaluations
Run-on_evaluations x v f h = record {
  at = λ db e.
      subst (λ u. Proceeds (Moves x) v (u.0, f u.1)) (sym e)
        (record { answers = same; evaluations = h });
}

claim_lease :
    (a : Arena) (now : ℕ) (s : EvaluationStatus) (c : ℕ) (v : EvaluationRow)
    → v.status ≡ s
    → may_claim a now v ≡ true
    → Moves (claimant v.id) v.id (lease_of v) (held (some c))
claim_lease a now pending c v e h = rw e (go (takes c) stay)
claim_lease a now in_progress c v e h = rw e (go (takes_over v.worker_claim c) stay)
claim_lease a now failed c v e h =
    let again : v.failure_retryable ≡ true = ground arith in rw e (rw again (go (retries c) stay))
claim_lease a now completed c v e h = absurd (ground arith)
claim_lease a now skipped c v e h = absurd (ground arith)

claim_row-RowMoves :
    (a : Arena) (before c now : ℕ) (v : EvaluationRow)
    → may_claim a before v ≡ true
    → RowMoves (Moves (claimant v.id)) v (claim_row c now v)
claim_row-RowMoves a before c now v h = record {
  moves = claim_lease a before v.status c v refl h;
  same_id = refl;
  same_match = refl;
  same_snapshot = refl;
  same_a = refl;
  same_b = refl;
  attempts_grow = omega arith;
  stays_settled = inl (ground arith);
}

pub Run-claim_row :
    (rs : Rounds) (a : Arena) (id before c now : ℕ) (v : EvaluationRow)
    → find (is_evaluation id) rs.1 ≡ some v
    → may_claim a before v ≡ true
    → Run
        (acting (claimant id))
        rs
        (on_evaluations (update_first (is_evaluation id) (claim_row c now)))
Run-claim_row rs a id before c now v found h = Run-on_evaluations (claimant id) rs _ (
    Follows-update (RowMoves (Moves (claimant id))) (RowMoves-still (claimant id))
      (is_evaluation id) (claim_row c now) rs.1
      (λ w e hit.
        subst (λ i. RowMoves (Moves (claimant i)) w (claim_row c now w)) (ground (arith, hit))
          (claim_row-RowMoves a before c now w (ground (arith, found, e)))))

skip_lease : (id : ℕ) (v : EvaluationRow) → is_pending id v ≡ true → v.status ≡ pending
skip_lease id v h = ground arith

skip_row-RowMoves :
    (mode : MatchMode) (now : ℕ) (v : EvaluationRow)
    → v.status ≡ pending
    → RowMoves (Moves clerk) v (skip_row mode now v)
skip_row-RowMoves mode now v h = record {
  moves = rw h (go skips stay);
  same_id = refl;
  same_match = refl;
  same_snapshot = refl;
  same_a = refl;
  same_b = refl;
  attempts_grow = omega arith;
  stays_settled = inl (ground arith);
}

pub Run-skip_row :
    (rs : Rounds) (mode : MatchMode) (id now : ℕ)
    → Run (acting clerk) rs (on_evaluations (update_first (is_pending id) (skip_row mode now)))
Run-skip_row rs mode id now = Run-on_evaluations clerk rs _ (
    Follows-update (RowMoves (Moves clerk)) (RowMoves-still clerk) (is_pending id)
      (skip_row mode now) rs.1 (λ v _ hit. skip_row-RowMoves mode now v (skip_lease id v hit)))

-- The evaluation with its worker.
record IsHeldBy (id c : ℕ) (v : EvaluationRow) : Type 0 where
  this : v.id ≡ id
  progress : v.status ≡ in_progress
  worker : v.worker_claim ≡ some c

is_held-IsHeldBy : (id c : ℕ) (v : EvaluationRow) → is_held id c v ≡ true → IsHeldBy id c v
is_held-IsHeldBy id c v h = record {
  this = ground arith;
  progress = ground arith;
  worker = ground arith;
}

judged_row-RowMoves :
    (r : JudgeSuccess) (x : Verdict) (winner : Option ℕ) (now id c : ℕ) (v : EvaluationRow)
    → IsHeldBy id c v
    → RowMoves (Moves (worker id c)) v (judged_row r x winner now v)
judged_row-RowMoves r x winner now id c v h = record {
  moves = rw h.progress (rw h.worker (rw h.this (go finishes stay)));
  same_id = refl;
  same_match = refl;
  same_snapshot = refl;
  same_a = refl;
  same_b = refl;
  attempts_grow = omega arith;
  stays_settled = inl (ground (arith, h.progress));
}

pub Run-judged_row :
    (rs : Rounds) (id c : ℕ) (r : JudgeSuccess) (x : Verdict) (winner : Option ℕ) (now : ℕ)
    → Run
        (acting (worker id c))
        rs
        (on_evaluations (update_first (is_held id c) (judged_row r x winner now)))
Run-judged_row rs id c r x winner now = Run-on_evaluations (worker id c) rs _ (
    Follows-update (RowMoves (Moves (worker id c))) (RowMoves-still (worker id c)) (is_held id c)
      (judged_row r x winner now) rs.1
      (λ v _ hit. judged_row-RowMoves r x winner now id c v (is_held-IsHeldBy id c v hit)))

failed_row-RowMoves :
    (f : JudgeFailure) (at : Option ℕ) (id c : ℕ) (v : EvaluationRow)
    → IsHeldBy id c v
    → RowMoves (Moves (worker id c)) v (failed_row f at v)
failed_row-RowMoves f at id c v h = record {
  moves = rw h.progress (rw h.worker (rw h.this (go (gives_up f.is_retryable) stay)));
  same_id = refl;
  same_match = refl;
  same_snapshot = refl;
  same_a = refl;
  same_b = refl;
  attempts_grow = omega arith;
  stays_settled = inl (ground (arith, h.progress));
}

pub Run-failed_row :
    (rs : Rounds) (id c : ℕ) (f : JudgeFailure) (at : Option ℕ)
    → Run (acting (worker id c)) rs (on_evaluations (update_first (is_held id c) (failed_row f at)))
Run-failed_row rs id c f at = Run-on_evaluations (worker id c) rs _ (
    Follows-update (RowMoves (Moves (worker id c))) (RowMoves-still (worker id c)) (is_held id c)
      (failed_row f at) rs.1
      (λ v _ hit. failed_row-RowMoves f at id c v (is_held-IsHeldBy id c v hit)))

pub Run-insert_row :
    (rs : Rounds) (v : EvaluationRow) → Run (acting clerk) rs (on_evaluations (λ vs. v ∷ vs))
Run-insert_row rs v =
    Run-on_evaluations clerk rs (λ vs. v ∷ vs)
      (grow (Follows-refl (RowMoves (Moves clerk)) (RowMoves-still clerk) rs.1))

pub Run-insert_answer :
    (rs : Rounds) (w : AnswerRow)
    → find (is_answer_of w.match_id w.user) rs.0 ≡ none
    → Run (acting clerk) rs (on_answers (λ ws. w ∷ ws))
Run-insert_answer rs w h = Run-on_answers clerk rs (λ ws. w ∷ ws) (add w h same)

pub Grows-add_answer :
    (id until : ℕ) (p : ParticipantRow) (ws : List AnswerRow) (o : Option AnswerRow)
    → find (is_answer_of id p.user) ws ≡ o
    → Grows ws (add_answer id until p ws)
Grows-add_answer id until p ws none e = rw e (add (deadline_answer id until p) e same)
Grows-add_answer id until p ws (some w) e = rw e same

pub Run-add_answer :
    (rs : Rounds) (id until : ℕ) (p : ParticipantRow)
    → Run (acting clerk) rs (on_answers (add_answer id until p))
Run-add_answer rs id until p =
    Run-on_answers clerk rs (add_answer id until p) (Grows-add_answer id until p rs.0 _ refl)
