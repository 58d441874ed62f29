-- ===== src/Domain/StateMachine/Laws.antt =====
-- What the transition table allows, and that the winner order is a strict total order.
use leetbattle.Shared.{Bool, false, not, ◌&&◌, ◌↔◌, ℕ, ◌<◌, ◌≤◌, ◌≡◌, arith, true}
use leetbattle.Domain.Types.{
  MatchState, lobby, countdown, active, judging, finished, rematch_pending,
}
use leetbattle.Domain.StateMachine.{
  can_transition, Candidate, Sign, negative, zero, positive, compare_winner_candidates,
  milliseconds,
}

-- Zero or more allowed transitions.
pub data Leads : MatchState → MatchState → Type 0 where
  stay : {s : MatchState} → Leads s s
  go : {s t u : MatchState} → can_transition s t ≡ true → Leads t u → Leads s u

pub Leads-trans : {s t u : MatchState} → Leads s t → Leads t u → Leads s u
Leads-trans stay l = l
Leads-trans (go h k) l = go h (Leads-trans k l)

abbrev pub rank : MatchState → ℕ
rank lobby = 0
rank countdown = 1
rank active = 2
rank judging = 3
rank finished = 4
rank rematch_pending = 5

can_transition-rank : (s t : MatchState) → can_transition s t ≡ true → rank s < rank t
unfolding can_transition
can_transition-rank s t h = ground arith

-- Along allowed transitions a match only moves forward, in the order lobby, countdown, active,
-- judging, finished, rematch pending.
pub Leads-rank : {s t : MatchState} → Leads s t → rank s ≤ rank t
Leads-rank stay = omega arith
Leads-rank (go {s} {t} h k) = omega (arith, can_transition-rank s t h, Leads-rank k)

abbrev pub opposite : Sign → Sign
opposite negative = positive
opposite zero = zero
opposite positive = negative

abbrev pub is_negative : Sign → Bool
is_negative negative = true
is_negative _ = false

compare_winner_opposite :
    (a b : Candidate) → compare_winner_candidates b a ≡ opposite (compare_winner_candidates a b)
unfolding compare_winner_candidates
compare_winner_opposite a b = ground arith

-- The two submissions have the same millisecond, runtime and sequence number.
abbrev pub Agree : Candidate → Candidate → Type 0
Agree a b =
    (milliseconds a.received_at ≡ milliseconds b.received_at)
    × (a.runtime ≡ b.runtime)
    × (a.sequence ≡ b.sequence)

compare_winner_zero : (a b : Candidate) → compare_winner_candidates a b ≡ zero → Agree a b
unfolding compare_winner_candidates
compare_winner_zero a b h = ground arith

compare_winner_same : (a b : Candidate) → Agree a b → compare_winner_candidates a b ≡ zero
unfolding compare_winner_candidates
compare_winner_same a b h = ground arith

abbrev pub is_ahead : Candidate → Candidate → Bool
is_ahead a b = is_negative (compare_winner_candidates a b)

compare_winner_chain :
    (a b c : Candidate) → ((is_ahead a b && is_ahead b c) && not (is_ahead a c)) ≡ false
unfolding compare_winner_candidates
compare_winner_chain a b c = ground arith

-- The comparison of winning submissions is a strict order on their milliseconds, runtimes and
-- sequence numbers: the other way round it has the opposite sign, it is zero exactly where the three
-- agree, and being ahead is transitive.
pub compare_winner_total_order :
    (a b c : Candidate)
    → (compare_winner_candidates b a ≡ opposite (compare_winner_candidates a b))
      × ((compare_winner_candidates a b ≡ zero) ↔ Agree a b)
      × (((is_ahead a b && is_ahead b c) && not (is_ahead a c)) ≡ false)
compare_winner_total_order a b c = (
  compare_winner_opposite a b,
  (compare_winner_zero a b, compare_winner_same a b),
  compare_winner_chain a b c,
)
