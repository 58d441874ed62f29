-- ===== src/Judge/Budget/Usage.antt =====
-- How many rows count against a budget, as rows go and time passes.
use leetbattle.Shared.{
  ℕ, ◌+◌, ◌≤◌, ◌≡◌, refl, Bool, true, false, List, [], ◌∷◌, length, select, sum_by, any, arith, ap,
  Bool-cases, inl, inr, nat_beq, nat_beq_iff, subst, ◌⊎◌,
}
use leetbattle.Judge.Budget.{has_duplicates}

module _ {A : Type 0} where
  -- A stronger test on fewer rows counts no more.
  pub length-select-select-le :
      (p q k : A → Bool)
      → ((x : A) → p x ≡ true → q x ≡ true)
      → (xs : List A) → length (select p (select k xs)) ≤ length (select q xs)
  length-select-select-le p q k h [] = omega arith
  length-select-select-le p q k h (x ∷ xs) =
      let rest = length-select-select-le p q k h xs in
      elim (Bool-cases (k x)) [
        | inr kx ↦
            rw kx (elim (Bool-cases (q x)) [
              | inl qx ↦ rw qx (omega (arith, rest))
              | inr qx ↦ rw qx rest
            ])
        | inl kx ↦ rw kx (elim (Bool-cases (p x)) [
          | inl px ↦ rw px (rw (h x px) (omega (arith, rest)))
          | inr px ↦ rw px (elim (Bool-cases (q x)) [
            | inl qx ↦ rw qx (omega (arith, rest))
            | inr qx ↦ rw qx rest
          ])
        ])
      ]

  pub sum_by-select-select-le :
      (f : A → ℕ) (p q k : A → Bool)
      → ((x : A) → p x ≡ true → q x ≡ true)
      → (xs : List A) → sum_by f (select p (select k xs)) ≤ sum_by f (select q xs)
  sum_by-select-select-le f p q k h [] = omega arith
  sum_by-select-select-le f p q k h (x ∷ xs) =
      let rest = sum_by-select-select-le f p q k h xs in
      elim (Bool-cases (k x)) [
        | inr kx ↦
            rw kx (elim (Bool-cases (q x)) [
              | inl qx ↦ rw qx (omega (arith, rest))
              | inr qx ↦ rw qx rest
            ])
        | inl kx ↦ rw kx (elim (Bool-cases (p x)) [
          | inl px ↦ rw px (rw (h x px) (omega (arith, rest)))
          | inr px ↦ rw px (elim (Bool-cases (q x)) [
            | inl qx ↦ rw qx (omega (arith, rest))
            | inr qx ↦ rw qx rest
          ])
        ])
      ]

  pub select-true : (xs : List A) → select (λ x. true) xs ≡ xs
  select-true [] = refl
  select-true (x ∷ xs) = ap (λ ys. x ∷ ys) (select-true xs)

absent :
    (u : ℕ) (us : List ℕ)
    → any (λ v. nat_beq v u) us ≡ false
    → length (select (λ v. nat_beq v u) us) ≡ 0
absent u [] h = refl
absent u (v ∷ us) h = ground (arith, absent u us)

-- A user stands in a list of different ones at most once.
pub length-select-has_duplicates :
    (u : ℕ) (us : List ℕ) → has_duplicates us ≡ false → length (select (λ v. nat_beq v u) us) ≤ 1
length-select-has_duplicates u [] h = omega arith
length-select-has_duplicates u (v ∷ us) h =
    ground (arith, length-select-has_duplicates u us, absent u us)

-- Where no element passes, one does not occur or does not pass.
pub any-false :
    (f : ℕ → Bool) (u : ℕ) (us : List ℕ)
    → any f us ≡ false
    → (length (select (λ v. nat_beq v u) us) ≡ 0) ⊎ (f u ≡ false)
any-false f u [] h = inl refl
any-false f u (v ∷ us) h = elim (Bool-cases (nat_beq v u)) [
  | inl e ↦ inr (subst (λ x. f x ≡ false) ((nat_beq_iff v u).0 e) (ground arith))
  | inr d ↦ rw d (any-false f u us (ground arith))
]

pub all-false :
    (f : ℕ → Bool) (u : ℕ) (us : List ℕ)
    → any f us ≡ false
    → length (select (λ v. nat_beq v u) us) ≤ 1
    → (m n : ℕ) → (f u ≡ false → m + 1 ≤ n)
    → m ≤ n
    → length (select (λ v. nat_beq v u) us) + m ≤ n
all-false f u us h one m n k l = elim (any-false f u us h) [
  | inl none_here ↦ omega (arith, none_here, l)
  | inr passed ↦ omega (arith, one, k passed)
]
