-- ===== src/Shared/Sorting.antt =====
-- The order and the limit of a query.
use Prim.Native.Nat.{ℕ, zero, suc, ◌≤◌, ◌<◌, min}
use mathlib.Core.Path.{◌≡◌, refl}
use mathlib.Core.Bool.{Bool, true, false}
use mathlib.Core.Logic.{inl, inr}
use native.Mathlib.Omega.{arith}
use mathlib.Core.List.{List, [], ◌∷◌}
use leetbattle.Shared.Tests.{if◌then◌else◌, ltb, leb, Bool-cases}
use leetbattle.Shared.Lists.{length, select, All}

-- ORDER BY a key: equal keys keep their order.
abbrev pub insert_by : {A : Type 0} → (A → ℕ) → A → List A → List A
insert_by key x [] = x ∷ []
insert_by key x (y ∷ ys) = if ltb (key y) (key x) then y ∷ insert_by key x ys else x ∷ y ∷ ys

abbrev pub sort_by : {A : Type 0} → (A → ℕ) → List A → List A
sort_by key [] = []
sort_by key (x ∷ xs) = insert_by key x (sort_by key xs)

-- LIMIT.
abbrev pub take : {A : Type 0} → ℕ → List A → List A
take zero xs = []
take (suc n) [] = []
take (suc n) (x ∷ xs) = x ∷ take n xs

module _ {A : Type 0} where
  length-select-insert_by :
      (key : A → ℕ) (p : A → Bool) (x : A) (xs : List A)
      → length (select p (insert_by key x xs)) ≡ length (select p (x ∷ xs))
  length-select-insert_by key p x [] = refl
  length-select-insert_by key p x (y ∷ ys) = elim (Bool-cases (ltb (key y) (key x))) [
    | inr h ↦ rw h refl
    | inl h ↦ rw h (ground (arith, length-select-insert_by key p x ys))
  ]

  pub length-select-sort_by :
      (key : A → ℕ) (p : A → Bool) (xs : List A)
      → length (select p (sort_by key xs)) ≡ length (select p xs)
  length-select-sort_by key p [] = refl
  length-select-sort_by key p (x ∷ xs) =
      ground
        (arith, length-select-insert_by key p x (sort_by key xs), length-select-sort_by key p xs)

  All-insert_by :
      (key : A → ℕ) (P : A → Type 0) (x : A) (xs : List A)
      → P x
      → All P xs
      → All P (insert_by key x xs)
  All-insert_by key P x [] h k = (h, tt)
  All-insert_by key P x (y ∷ ys) h k = elim (Bool-cases (ltb (key y) (key x))) [
    | inl t ↦ rw t (k.0, All-insert_by key P x ys h k.1)
    | inr t ↦ rw t (h, k)
  ]

  pub All-sort_by : (key : A → ℕ) (P : A → Type 0) (xs : List A) → All P xs → All P (sort_by key xs)
  All-sort_by key P [] h = tt
  All-sort_by key P (x ∷ xs) h =
      All-insert_by key P x (sort_by key xs) h.0 (All-sort_by key P xs h.1)

  pub All-take : (P : A → Type 0) (n : ℕ) (xs : List A) → All P xs → All P (take n xs)
  All-take P zero xs h = tt
  All-take P (suc n) [] h = tt
  All-take P (suc n) (x ∷ xs) h = (h.0, All-take P n xs h.1)

  pub All-select :
      (P : A → Type 0) (p : A → Bool)
      → ((x : A) → p x ≡ true → P x)
      → (xs : List A) → All P (select p xs)
  All-select P p f [] = tt
  All-select P p f (x ∷ xs) = elim (Bool-cases (p x)) [
    | inl t ↦ rw t (f x t, All-select P p f xs)
    | inr t ↦ rw t (All-select P p f xs)
  ]

  All-weaken : (P Q : A → Type 0) → ((x : A) → P x → Q x) → (xs : List A) → All P xs → All Q xs
  All-weaken P Q f [] h = tt
  All-weaken P Q f (x ∷ xs) h = (f x h.0, All-weaken P Q f xs h.1)

  -- The keys do not decrease.
  abbrev pub IsOrderedBy : (A → ℕ) → List A → Type 0
  IsOrderedBy key [] = Unit
  IsOrderedBy key (x ∷ xs) = All (λ y. key x ≤ key y) xs × IsOrderedBy key xs

  insert_by-IsOrderedBy :
      (key : A → ℕ) (x : A) (xs : List A)
      → IsOrderedBy key xs
      → IsOrderedBy key (insert_by key x xs)
  insert_by-IsOrderedBy key x [] h = (tt, tt)
  insert_by-IsOrderedBy key x (y ∷ ys) h = elim (Bool-cases (ltb (key y) (key x))) [
    | inl t ↦ rw t (
      All-insert_by key (λ z. key y ≤ key z) x ys (ground arith) h.0,
      insert_by-IsOrderedBy key x ys h.1,
    )
    | inr t ↦
        let le : key x ≤ key y = ground arith in
        rw t (
          (
            le,
            All-weaken (λ z. key y ≤ key z) (λ z. key x ≤ key z) (λ z k. omega (arith, le, k)) ys
                h.0,
          ),
          h,
        )
  ]

  pub sort_by-IsOrderedBy : (key : A → ℕ) (xs : List A) → IsOrderedBy key (sort_by key xs)
  sort_by-IsOrderedBy key [] = tt
  sort_by-IsOrderedBy key (x ∷ xs) =
      insert_by-IsOrderedBy key x (sort_by key xs) (sort_by-IsOrderedBy key xs)

  pub take-IsOrderedBy :
      (key : A → ℕ) (n : ℕ) (xs : List A) → IsOrderedBy key xs → IsOrderedBy key (take n xs)
  take-IsOrderedBy key zero xs h = tt
  take-IsOrderedBy key (suc n) [] h = tt
  take-IsOrderedBy key (suc n) (x ∷ xs) h =
      (All-take (λ y. key x ≤ key y) n xs h.0, take-IsOrderedBy key n xs h.1)

  length-select-above :
      (key : A → ℕ) (v w : ℕ) (xs : List A)
      → v < w
      → All (λ y. w ≤ key y) xs
      → length (select (λ y. leb (key y) v) xs) ≡ 0
  length-select-above key v w [] lt h = refl
  length-select-above key v w (x ∷ xs) lt h =
      let rest = length-select-above key v w xs lt h.1 in
      let above : leb (key x) v ≡ false = ground (arith, h.0) in rw above rest

  -- Of an ordered list, the first elements with keys up to a bound are taken first.
  pub length-select-take :
      (key : A → ℕ) (v n : ℕ) (xs : List A)
      → IsOrderedBy key xs
      → length (select (λ y. leb (key y) v) (take n xs))
        ≡ min n (length (select (λ y. leb (key y) v) xs))
  length-select-take key v zero xs h = omega arith
  length-select-take key v (suc n) [] h = omega arith
  length-select-take key v (suc n) (x ∷ xs) h = elim (Bool-cases (leb (key x) v)) [
    | inl t ↦ rw t (omega (arith, length-select-take key v n xs h.1))
    | inr t ↦
        let lt : v < key x = ground arith in
        rw t (
          omega (
            arith,
            length-select-above key v (key x) xs lt h.0,
            length-select-above key v (key x) (take n xs) lt
                (All-take (λ y. key x ≤ key y) n xs h.0),
          ))
  ]
