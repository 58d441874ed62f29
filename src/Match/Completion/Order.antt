-- ===== src/Match/Completion/Order.antt =====
-- The order in which the database looks for the winner is that of the domain.
use leetbattle.Shared.{
  ◌≢◌, ◌⊎◌, ℕ, ◌≤◌, ◌<◌, ◌&&◌, ◌==◌, ltb, nat_beq_iff, Among, Among-here, Among-there, refl, true,
  false, ◌≡◌, Option, some, none, List, [], ◌∷◌, arith, option_eq, nat_eq, All, Bool-cases, inl,
  inr,
}
use leetbattle.Domain.StateMachine.{milliseconds, Candidate, compare_winner_candidates}
use leetbattle.Domain.StateMachine.Laws.{is_negative}
use leetbattle.Store.Rows.{ExecutionRow}
use leetbattle.Match.Completion.{runtime_of, before_runtime, is_earlier, pick, first_of_order}

abbrev pub candidate_of : ExecutionRow → ℕ → Candidate
candidate_of x runtime = record {
  received_at = x.received_at;
  runtime = runtime;
  sequence = x.sequence;
}

-- Of two submissions with a runtime that were received at the same time or in different
-- milliseconds, one is earlier in the order of the query exactly when `compareWinnerCandidates` is
-- negative.
pub is_earlier-compare :
    (x y : ExecutionRow) (a b : ℕ)
    → runtime_of x ≡ some a
    → runtime_of y ≡ some b
    → (x.received_at ≡ y.received_at) ⊎ (milliseconds x.received_at ≢ milliseconds y.received_at)
    → is_earlier x y ≡ is_negative (compare_winner_candidates (candidate_of x a) (candidate_of y b))
unfolding is_earlier compare_winner_candidates
is_earlier-compare x y a b hx hy apart = rw hx (rw hy (ground arith))

earlier_via :
    (x y z : ExecutionRow)
    → is_earlier y x ≡ false
    → is_earlier z y ≡ false
    → is_earlier z x ≡ false
unfolding is_earlier
earlier_via x y z h k = ground arith

earlier_refl : (x : ExecutionRow) → is_earlier x x ≡ false
unfolding is_earlier
earlier_refl x = ground arith

earlier_asym : (x y : ExecutionRow) → is_earlier x y ≡ true → is_earlier y x ≡ false
unfolding is_earlier
earlier_asym x y h = ground arith

not_earlier_all :
    (x y : ExecutionRow) (xs : List ExecutionRow)
    → is_earlier y x ≡ false
    → All (λ z. is_earlier z y ≡ false) xs
    → All (λ z. is_earlier z x ≡ false) xs
not_earlier_all x y [] h k = tt
not_earlier_all x y (z ∷ zs) h k = (earlier_via x y z h k.0, not_earlier_all x y zs h k.1)

abbrev pub IsFirst : List ExecutionRow → ExecutionRow → Type 0
IsFirst xs x = All (λ z. is_earlier z x ≡ false) xs

-- No row precedes the one that was found; where none was found there are none.
abbrev pub FirstOf : List ExecutionRow → Option ExecutionRow → Type 0
FirstOf xs none = All (λ z. ⊥) xs
FirstOf xs (some x) = IsFirst xs x

none-IsFirst : (x : ExecutionRow) (xs : List ExecutionRow) → All (λ z. ⊥) xs → IsFirst xs x
none-IsFirst x [] h = tt
none-IsFirst x (z ∷ zs) h = absurd h.0

FirstOf-pick :
    (x : ExecutionRow) (xs : List ExecutionRow) (o : Option ExecutionRow)
    → FirstOf xs o
    → FirstOf (x ∷ xs) (pick x o)
FirstOf-pick x xs none h = (earlier_refl x, none-IsFirst x xs h)
FirstOf-pick x xs (some y) h = elim (Bool-cases (is_earlier y x)) [
  | inl hit ↦ rw hit (earlier_asym y x hit, h)
  | inr miss ↦ rw miss (earlier_refl x, not_earlier_all x y xs miss h)
]

-- The query with LIMIT 1 finds a row that no row precedes, and one unless there is none.
pub first_of_order-FirstOf : (xs : List ExecutionRow) → FirstOf xs (first_of_order xs)
unfolding first_of_order
first_of_order-FirstOf [] = tt
first_of_order-FirstOf (x ∷ xs) = FirstOf-pick x xs (first_of_order xs) (first_of_order-FirstOf xs)

-- ORDER BY runtime_ms, server_sequence: where there is no runtime the row comes after all that have one.
abbrev IsSooner : Option ℕ → ℕ → Option ℕ → ℕ → Type 0
IsSooner none s none t = s ≤ t
IsSooner none s (some n) t = ⊥
IsSooner (some m) s none t = Unit
IsSooner (some m) s (some n) t = (m < n) ⊎ ((m ≡ n) × (s ≤ t))

-- The first row was received before the second, or at the same time and with a smaller runtime, or
-- with the same runtime and no larger sequence.
abbrev IsOrdered : ExecutionRow → ExecutionRow → Type 0
IsOrdered x z =
    (x.received_at < z.received_at)
    ⊎ ((x.received_at ≡ z.received_at)
        × IsSooner (runtime_of x) x.sequence (runtime_of z) z.sequence)

-- The row is one of the list and stands in the order before every other; without a row the list is
-- empty.
abbrev pub IsEarliest : List ExecutionRow → Option ExecutionRow → Type 0
IsEarliest xs none = xs ≡ []
IsEarliest xs (some x) = Among x xs × All (IsOrdered x) xs

not_earlier-IsSooner :
    (m n : Option ℕ) (s t : ℕ)
    → before_runtime n m ≡ false
    → (n == m && ltb t s) ≡ false
    → IsSooner m s n t
not_earlier-IsSooner none none s t h k = ground arith
not_earlier-IsSooner none (some n) s t h k = ground arith
not_earlier-IsSooner (some m) none s t h k = tt
not_earlier-IsSooner (some m) (some n) s t h k = elim (Bool-cases (ltb m n)) [
  | inl lt ↦ inl (ground (arith, lt))
  | inr ge ↦ inr (ground (arith, ge, nat_beq_iff n m))
]

not_earlier-IsOrdered : (x z : ExecutionRow) → is_earlier z x ≡ false → IsOrdered x z
unfolding is_earlier
not_earlier-IsOrdered x z h = elim (Bool-cases (ltb x.received_at z.received_at)) [
  | inl lt ↦ inl (ground (arith, lt))
  | inr ge ↦
      let same : x.received_at ≡ z.received_at = ground (arith, ge) in
      inr (
        same,
        not_earlier-IsSooner (runtime_of x) (runtime_of z) x.sequence z.sequence
            (ground (arith, nat_beq_iff z.received_at x.received_at))
            (ground (arith, nat_beq_iff z.received_at x.received_at)),
      )
]

all-IsOrdered : (x : ExecutionRow) (xs : List ExecutionRow) → IsFirst xs x → All (IsOrdered x) xs
all-IsOrdered x [] h = tt
all-IsOrdered x (z ∷ zs) h = (not_earlier-IsOrdered x z h.0, all-IsOrdered x zs h.1)

Found : List ExecutionRow → Option ExecutionRow → Type 0
Found xs none = xs ≡ []
Found xs (some x) = Among x xs

Found-pick :
    (x : ExecutionRow) (xs : List ExecutionRow) (o : Option ExecutionRow)
    → Found xs o
    → Found (x ∷ xs) (pick x o)
unfolding Found
Found-pick x xs none h = Among-here x xs
Found-pick x xs (some y) h = elim (Bool-cases (is_earlier y x)) [
  | inl hit ↦ rw hit (Among-there x h)
  | inr miss ↦ rw miss (Among-here x xs)
]

first_of_order-Found : (xs : List ExecutionRow) → Found xs (first_of_order xs)
unfolding first_of_order Found
first_of_order-Found [] = refl
first_of_order-Found (x ∷ xs) = Found-pick x xs (first_of_order xs) (first_of_order-Found xs)

IsEarliest-FirstOf :
    (xs : List ExecutionRow) (o : Option ExecutionRow) → FirstOf xs o → Found xs o → IsEarliest xs o
unfolding Found
IsEarliest-FirstOf xs none h k = k
IsEarliest-FirstOf xs (some x) h k = (k, all-IsOrdered x xs h)

-- The query with LIMIT 1 finds a row of the list that was received no later than any other, among
-- those received at the same time has the smallest runtime, and among those with the same runtime the
-- smallest sequence, and it finds one unless there is none.
pub first_of_order-IsEarliest : (xs : List ExecutionRow) → IsEarliest xs (first_of_order xs)
first_of_order-IsEarliest xs =
    IsEarliest-FirstOf xs (first_of_order xs) (first_of_order-FirstOf xs) (first_of_order-Found xs)

abbrev pub OnSome : (ExecutionRow → Type 0) → Option ExecutionRow → Type 0
OnSome P none = Unit
OnSome P (some x) = P x

OnSome-pick :
    (P : ExecutionRow → Type 0) (x : ExecutionRow) (o : Option ExecutionRow)
    → P x
    → OnSome P o
    → OnSome P (pick x o)
OnSome-pick P x none h k = h
OnSome-pick P x (some y) h k = elim (Bool-cases (is_earlier y x)) [
  | inl hit ↦ rw hit k
  | inr miss ↦ rw miss h
]

-- What holds of all rows holds of the one that is found.
pub first_of_order-OnSome :
    (P : ExecutionRow → Type 0) (xs : List ExecutionRow) → All P xs → OnSome P (first_of_order xs)
unfolding first_of_order
first_of_order-OnSome P [] h = tt
first_of_order-OnSome P (x ∷ xs) h =
    OnSome-pick P x (first_of_order xs) h.0 (first_of_order-OnSome P xs h.1)
