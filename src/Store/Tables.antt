-- ===== src/Store/Tables.antt =====
-- A table whose rows stay and change by a relation, and to which rows are added in front.
use leetbattle.Shared.{
  ◌≡◌, Bool, true, some, List, [], ◌∷◌, find, update_first, Bool-cases, inl, inr,
}

module _ {A : Type 0} (R : A → A → Type 0) where
  pub data Follows : List A → List A → Type 0 where
    done : Follows [] []
    grow : {ms ns : List A} {n : A} → Follows ms ns → Follows ms (n ∷ ns)
    step : {ms ns : List A} {m n : A} → R m n → Follows ms ns → Follows (m ∷ ms) (n ∷ ns)

module _ {A : Type 0} (R : A → A → Type 0) (R-refl : (m : A) → R m m) where
  pub Follows-refl : (ms : List A) → Follows R ms ms
  Follows-refl [] = done
  Follows-refl (m ∷ ms) = step (R-refl m) (Follows-refl ms)

  -- A write to the row that a query finds.
  pub Follows-update :
      (p : A → Bool) (f : A → A) (ms : List A)
      → ((m : A) → find p ms ≡ some m → p m ≡ true → R m (f m))
      → Follows R ms (update_first p f ms)
  Follows-update p f [] h = done
  Follows-update p f (m ∷ ms) h = elim (Bool-cases (p m)) [
    | inl hit ↦ rw hit (step (h m (rw hit) hit) (Follows-refl ms))
    | inr miss ↦ rw miss (step (R-refl m) (Follows-update p f ms (λ n e hit. h n (rw miss e) hit)))
  ]

-- A history by one relation and then one by another.
pub Follows-then :
    {A : Type 0} {R S T : A → A → Type 0} (R-then : (l m n : A) → R l m → S m n → T l n)
    {ls ms ns : List A}
    → Follows R ls ms
    → Follows S ms ns
    → Follows T ls ns
Follows-then R-then e (grow f) = grow (Follows-then R-then e f)
Follows-then R-then done done = done
Follows-then R-then (grow e) (step t f) = grow (Follows-then R-then e f)
Follows-then R-then (step {m = l} {n = m} s e) (step {n = n} t f) =
    step (R-then l m n s t) (Follows-then R-then e f)

pub Follows-trans :
    {A : Type 0} {R : A → A → Type 0} (R-trans : (l m n : A) → R l m → R m n → R l n)
    {ls ms ns : List A}
    → Follows R ls ms
    → Follows R ms ns
    → Follows R ls ns
Follows-trans R-trans e f = Follows-then R-trans e f
