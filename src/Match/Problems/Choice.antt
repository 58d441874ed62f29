-- ===== src/Match/Problems/Choice.antt =====
-- What `chooseProblem` may return.
use leetbattle.Shared.{
  ℕ, ◌<◌, Bool, true, false, not, ◌≡◌, refl, some, List, [], ◌∷◌, arith, length, get_elem?, All,
  select, any, suc, zero, Bool-cases, inl, inr, subst, sym, ◌∙◌,
}
use leetbattle.Domain.Types.{Difficulty, ChallengeType, ProblemRef}
use leetbattle.Domain.Errors.{ok, err, Result}
use leetbattle.Match.Config.{Engine}
use leetbattle.Match.Problems.{
  is_used, is_available, is_previous, catalog, first_nonempty, candidates, choose_from, choose_of,
  choose_problem,
}

abbrev pub available : Engine → Difficulty → ChallengeType → List (ℕ × ℕ) → List ProblemRef
available e d c active = select (is_available d c active) (catalog e c d)

abbrev pub is_fresh : List ℕ → ProblemRef → Bool
is_fresh used p = not (is_used used p)

abbrev pub is_other : List ℕ → ProblemRef → Bool
is_other used p = not (is_previous used p)

abbrev pub is_ok : Result ProblemRef → Bool
is_ok (ok p) = true
is_ok (err e) = false

abbrev pub is_nil : List ProblemRef → Bool
is_nil [] = true
is_nil (p ∷ ps) = false

-- Facts on the members of a list and of a selection from it.
All-select :
    (P : ProblemRef → Type 0) (q : ProblemRef → Bool) (xs : List ProblemRef)
    → All P xs
    → All (λ x. P x × (q x ≡ true)) (select q xs)
All-select P q [] h = tt
All-select P q (x ∷ xs) h = elim (Bool-cases (q x)) [
  | inl hit ↦ rw hit ((h.0, hit), All-select P q xs h.1)
  | inr miss ↦ rw miss (All-select P q xs h.1)
]

All-get :
    (P : ProblemRef → Type 0) (xs : List ProblemRef) (i : ℕ) (x : ProblemRef)
    → All P xs
    → get_elem? xs i ≡ some x
    → P x
All-get P [] i x h e = cc
All-get P (y ∷ ys) zero x h e = ground arith
All-get P (y ∷ ys) (suc i) x h e = All-get P ys i x h.1 e

get_elem?-total :
    (xs : List ProblemRef) (i : ℕ) → i < length xs → (x : ProblemRef) × (get_elem? xs i ≡ some x)
get_elem?-total [] i h = absurd (omega (arith, h))
get_elem?-total (x ∷ xs) zero h = (x, refl)
get_elem?-total (x ∷ xs) (suc i) h = get_elem?-total xs i (omega (arith, h))

any-All : (q : ProblemRef → Bool) (xs : List ProblemRef) → select q xs ≡ [] → any q xs ≡ false
any-All q [] h = refl
any-All q (x ∷ xs) h = ground (arith, any-All q xs)

any-select :
    (q : ProblemRef → Bool) (x : ProblemRef) (xs ys : List ProblemRef)
    → select q xs ≡ x ∷ ys
    → any q xs ≡ true
any-select q x [] ys h = cc
any-select q x (y ∷ xs) ys h = ground (arith, any-select q x xs ys)

fresh-other : (used : List ℕ) (p : ProblemRef) → is_fresh used p ≡ true → is_other used p ≡ true
fresh-other [] p h = refl
fresh-other (u ∷ us) p h = ground arith

any-fresh_other :
    (used : List ℕ) (ps : List ProblemRef)
    → any (is_fresh used) ps ≡ true
    → any (is_other used) ps ≡ true
any-fresh_other used [] h = cc
any-fresh_other used (p ∷ ps) h = ground (arith, fresh-other used p, any-fresh_other used ps)

any-All_false :
    (q : ProblemRef → Bool) (xs : List ProblemRef) → any q xs ≡ false → All (λ x. q x ≡ false) xs
any-All_false q [] h = tt
any-All_false q (x ∷ xs) h = ground (arith, any-All_false q xs)

All-map :
    {P Q : ProblemRef → Type 0}
    → ((x : ProblemRef) → P x → Q x)
    → (xs : List ProblemRef) → All P xs
    → All Q xs
All-map f [] h = tt
All-map f (x ∷ xs) h = (f x h.0, All-map f xs h.1)

All-both :
    (P Q : ProblemRef → Type 0) (xs : List ProblemRef)
    → All P xs
    → All Q xs
    → All (λ x. P x × Q x) xs
All-both P Q [] h k = tt
All-both P Q (x ∷ xs) h k = ((h.0, k.0), All-both P Q xs h.1 k.1)

All-true : (xs : List ProblemRef) → All (λ x. true ≡ true) xs
All-true [] = tt
All-true (x ∷ xs) = (refl, All-true xs)

-- A candidate is available; it is unused if an available problem is, and not the previous one if
-- an available problem is not.
pub record IsFair (p : ProblemRef → Bool) (used : List ℕ) (all : List ProblemRef) (x : ProblemRef)
    : Type 0 where
  pub is_offered : p x ≡ true
  pub fresh : is_fresh used x ≡ any (is_fresh used) all
  pub other : is_other used x ≡ any (is_other used) all

module _ (p : ProblemRef → Bool) (used : List ℕ) (all : List ProblemRef)
    (offered : All (λ x. p x ≡ true) all) where
  IsFair-fresh :
      any (is_fresh used) all ≡ true → All (IsFair p used all) (select (is_fresh used) all)
  IsFair-fresh h =
      All-map
        (λ x k. record {
          is_offered = k.0;
          fresh = k.1 ∙ sym h;
          other = fresh-other used x k.1 ∙ sym (any-fresh_other used all h);
        })
        (select (is_fresh used) all) (All-select (λ x. p x ≡ true) (is_fresh used) all offered)

  stale : any (is_fresh used) all ≡ false → All (λ x. (p x ≡ true) × (is_fresh used x ≡ false)) all
  stale h =
      All-both (λ x. p x ≡ true) (λ x. is_fresh used x ≡ false) all offered
        (any-All_false (is_fresh used) all h)

  IsFair-all :
      any (is_fresh used) all ≡ false
      → any (is_other used) all ≡ false
      → All (IsFair p used all) all
  IsFair-all h k =
      All-map (λ x l. record { is_offered = l.0.0; fresh = l.0.1 ∙ sym h; other = l.1 ∙ sym k }) all
        (All-both (λ x. (p x ≡ true) × (is_fresh used x ≡ false)) (λ x. is_other used x ≡ false) all
          (stale h) (any-All_false (is_other used) all k))

  IsFair-other :
      any (is_fresh used) all ≡ false
      → any (is_other used) all ≡ true
      → All (IsFair p used all) (select (is_other used) all)
  IsFair-other h k =
      All-map (λ x l. record { is_offered = l.0.0; fresh = l.0.1 ∙ sym h; other = l.1 ∙ sym k })
        (select (is_other used) all)
        (All-select (λ x. (p x ≡ true) × (is_fresh used x ≡ false)) (is_other used) all (stale h))

  IsFair-last :
      (ps : List ProblemRef)
      → select (is_other used) all ≡ ps
      → any (is_fresh used) all ≡ false
      → All (IsFair p used all) (first_nonempty ps all)
  IsFair-last [] e h = IsFair-all h (any-All (is_other used) all e)
  IsFair-last (x ∷ xs) e h =
      subst (All (IsFair p used all)) e (IsFair-other h (any-select (is_other used) x all xs e))

  IsFair-first :
      (ps : List ProblemRef)
      → select (is_fresh used) all ≡ ps
      → All
          (IsFair p used all)
          (first_nonempty ps (first_nonempty (select (is_other used) all) all))
  IsFair-first [] e = IsFair-last (select (is_other used) all) refl (any-All (is_fresh used) all e)
  IsFair-first (x ∷ xs) e =
      subst (All (IsFair p used all)) e (IsFair-fresh (any-select (is_fresh used) x all xs e))

  candidates-IsFair : All (IsFair p used all) (candidates all used)
  unfolding candidates
  candidates-IsFair = IsFair-first (select (is_fresh used) all) refl

choose_from-ok :
    (e : Engine) (cs : List ProblemRef) (x : ProblemRef)
    → choose_from e cs ≡ ok x
    → get_elem? cs (e.choose_index (length cs)) ≡ some x
unfolding choose_from
choose_from-ok e cs x h = ground arith

choose_of-IsFair :
    (e : Engine) (p : ProblemRef → Bool) (used : List ℕ) (all : List ProblemRef) (x : ProblemRef)
    → All (λ x. p x ≡ true) all
    → choose_of e all used ≡ ok x
    → IsFair p used all x
unfolding choose_of
choose_of-IsFair e p used [] x o h = cc
choose_of-IsFair e p used (y ∷ ys) x o h =
    let cs = candidates (y ∷ ys) used in
    All-get (IsFair p used (y ∷ ys)) cs (e.choose_index (length cs)) x
      (candidates-IsFair p used (y ∷ ys) o) (choose_from-ok e cs x h)

All-snd : (p : ProblemRef → Bool) (xs : List ProblemRef) → All (λ x. p x ≡ true) (select p xs)
All-snd p xs = All-map (λ x k. k.1) (select p xs) (All-select (λ x. true ≡ true) p xs (All-true xs))

-- The problem chosen for a match is one of the difficulty that may be asked; it is unused in the
-- room if and only if an available problem is, and it is not the problem of the previous round if
-- and only if some available problem is not that one.
pub choose_problem-IsFair :
    (e : Engine) (d : Difficulty) (c : ChallengeType) (used : List ℕ) (active : List (ℕ × ℕ))
    (x : ProblemRef)
    → choose_problem e d c used active ≡ ok x
    → IsFair (is_available d c active) used (available e d c active) x
unfolding choose_problem
choose_problem-IsFair e d c used active x h =
    choose_of-IsFair e (is_available d c active) used (available e d c active) x
      (All-snd (is_available d c active) (catalog e c d)) h

first_nonempty-cons :
    (xs ys zs : List ProblemRef) (x : ProblemRef)
    → 0 < length (first_nonempty ys (first_nonempty zs (x ∷ xs)))
first_nonempty-cons xs [] [] x = omega arith
first_nonempty-cons xs [] (z ∷ zs) x = omega arith
first_nonempty-cons xs (y ∷ ys) zs x = omega arith

choose_from_total :
    (e : Engine) (cs : List ProblemRef)
    → e.choose_index (length cs) < length cs
    → is_ok (choose_from e cs) ≡ true
unfolding choose_from
choose_from_total e cs h = ground (arith, (get_elem?-total cs (e.choose_index (length cs)) h).1)

choose_of_total :
    (e : Engine) (used : List ℕ) (all : List ProblemRef)
    → ((n : ℕ) → 0 < n → e.choose_index n < n)
    → is_ok (choose_of e all used) ≡ not (is_nil all)
unfolding choose_of candidates
choose_of_total e used [] h = refl
choose_of_total e used (x ∷ xs) h =
    choose_from_total e (candidates (x ∷ xs) used)
      (h (length (candidates (x ∷ xs) used)) (first_nonempty-cons xs _ _ x))

-- With a chooser that stays below its argument a problem is chosen exactly when one is available.
pub choose_problem_total :
    (e : Engine) (d : Difficulty) (c : ChallengeType) (used : List ℕ) (active : List (ℕ × ℕ))
    → ((n : ℕ) → 0 < n → e.choose_index n < n)
    → is_ok (choose_problem e d c used active) ≡ not (is_nil (available e d c active))
unfolding choose_problem
choose_problem_total e d c used active h = choose_of_total e used (available e d c active) h
