-- ===== src/Shared/Lists.antt =====
-- Lists: tables of rows, with the queries that the program makes of them.
use Prim.Native.Nat.{ℕ, suc, ◌+◌, ◌≤◌}
use mathlib.Core.Path.{◌≡◌, refl, ap}
use mathlib.Core.Logic.{inl, inr}
use mathlib.Core.Bool.{Bool, true, false, ◌&&◌, ◌||◌}
use mathlib.Core.Option.{Option, none, some}
use mathlib.Core.List.{List, [], ◌∷◌, ◌++◌}
use native.Mathlib.Omega.{arith}
use leetbattle.Shared.Tests.{if◌then◌else◌, Bool-cases}

module _ {ℓ} {A : Type ℓ} where
  abbrev pub length : List A → ℕ
  length [] = 0
  length (x ∷ xs) = suc (length xs)

  abbrev pub get_elem? : List A → ℕ → Option A
  get_elem? [] i = none
  get_elem? (x ∷ xs) Prim.Native.Nat.zero = some x
  get_elem? (x ∷ xs) (suc i) = get_elem? xs i

  -- The rows that a WHERE clause selects.
  abbrev pub select : (A → Bool) → List A → List A
  select p [] = []
  select p (x ∷ xs) = if p x then x ∷ select p xs else select p xs

  -- The first such row.
  abbrev pub find : (A → Bool) → List A → Option A
  find p [] = none
  find p (x ∷ xs) = if p x then some x else find p xs

  abbrev pub any : (A → Bool) → List A → Bool
  any p [] = false
  any p (x ∷ xs) = p x || any p xs

  abbrev pub all : (A → Bool) → List A → Bool
  all p [] = true
  all p (x ∷ xs) = p x && all p xs

  -- UPDATE ... SET f WHERE p.
  abbrev pub update : (A → Bool) → (A → A) → List A → List A
  update p f [] = []
  update p f (x ∷ xs) = (if p x then f x else x) ∷ update p f xs

  -- The same where the clause names the primary key: at most one row is meant.
  abbrev pub update_first : (A → Bool) → (A → A) → List A → List A
  update_first p f [] = []
  update_first p f (x ∷ xs) = if p x then f x ∷ xs else x ∷ update_first p f xs

  abbrev pub sum_by : (A → ℕ) → List A → ℕ
  sum_by f [] = 0
  sum_by f (x ∷ xs) = f x + sum_by f xs

  pub length-append : (xs ys : List A) → length (xs ++ ys) ≡ length xs + length ys
  length-append [] ys = omega arith
  length-append (x ∷ xs) ys = omega (arith, length-append xs ys)

  pub length-select-le : (p : A → Bool) (xs : List A) → length (select p xs) ≤ length xs
  length-select-le p [] = omega arith
  length-select-le p (x ∷ xs) = ground (arith, length-select-le p xs)

module _ {ℓ κ} {A : Type ℓ} (P : A → Type κ) where
  abbrev pub All : List A → Type κ
  All [] = Unit
  All (x ∷ xs) = P x × All xs

  pub All-append : (xs ys : List A) → All xs → All ys → All (xs ++ ys)
  All-append [] ys hx hy = hy
  All-append (x ∷ xs) ys hx hy = (hx.0, All-append xs ys hx.1 hy)

module _ {A : Type 0} where
  -- The element stands somewhere in the list.
  pub record Among (x : A) (xs : List A) : Type 0 where
    pub front : List A
    pub back : List A
    pub split : xs ≡ front ++ x ∷ back

  pub Among-here : (x : A) (xs : List A) → Among x (x ∷ xs)
  Among-here x xs = record { front = []; back = xs; split = refl }

  pub Among-there : (y : A) {x : A} {xs : List A} → Among x xs → Among x (y ∷ xs)
  Among-there y h = record { front = y ∷ h.front; back = h.back; split = ap (λ zs. y ∷ zs) h.split }

  -- The element that a write finds, and the list before and after the write.
  pub record FirstHit (p : A → Bool) (f : A → A) (xs : List A) : Type 0 where
    pub front : List A
    pub row : A
    pub back : List A
    pub hit : p row ≡ true
    pub split : xs ≡ front ++ row ∷ back
    pub written : update_first p f xs ≡ front ++ f row ∷ back

  pub any-FirstHit : (p : A → Bool) (f : A → A) (xs : List A) → any p xs ≡ true → FirstHit p f xs
  any-FirstHit p f [] h = ground arith
  any-FirstHit p f (x ∷ xs) h = elim (Bool-cases (p x)) [
    | inl t ↦ record {
      front = [];
      row = x;
      back = xs;
      hit = t;
      split = refl;
      written = ground (arith, t);
    }
    | inr t ↦
        let r = any-FirstHit p f xs (ground (arith, t)) in
        record {
          front = x ∷ r.front;
          row = r.row;
          back = r.back;
          hit = r.hit;
          split = ap (λ zs. x ∷ zs) r.split;
          written = rw t (ap (λ zs. x ∷ zs) r.written);
        }
  ]
