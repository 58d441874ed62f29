-- ===== src/Domain/StateMachine.antt =====
-- src/server/domain/state-machine.ts: the transitions of a match, which ends change the records,
-- and the order of winning submissions. A receipt time is a number of microseconds.
pub mod Laws
use leetbattle.Shared.{
  ℕ, ◌<◌, ◌-◌, ◌/◌, Bool, true, false, ◌||◌, List, [], ◌∷◌, any, ltb, ◌==◌, if◌then◌else◌, Eq,
}
use leetbattle.Domain.Types.{
  MatchState, lobby, countdown, active, judging, finished, rematch_pending, EndReason, state_eq,
  reason_eq,
}
use leetbattle.Domain.Types
use leetbattle.Domain.Errors.{Result, ok, err, domain_error, invalid_state}

-- The table `transitions`.
unfoldable pub transitions : MatchState → List MatchState
transitions lobby = countdown ∷ finished ∷ []
transitions countdown = active ∷ finished ∷ []
transitions active = judging ∷ finished ∷ []
transitions judging = finished ∷ []
transitions finished = rematch_pending ∷ []
transitions rematch_pending = []

unfoldable pub can_transition : MatchState → MatchState → Bool
unfolding transitions
can_transition from to = any (λ s. s == to) (transitions from)

unfoldable pub assert_transition : MatchState → MatchState → Result (Unit {0})
unfolding can_transition
assert_transition from to =
    if can_transition from to then ok tt else err (domain_error invalid_state 409)

unfoldable pub should_apply_record : EndReason → Bool
should_apply_record reason =
    reason == EndReason.accepted
    || reason == EndReason.forfeit
    || reason == EndReason.judged
    || reason == EndReason.answer_timeout

pub record Candidate : Type 0 where
  pub received_at : ℕ
  pub runtime : ℕ
  pub sequence : ℕ

-- The sign of the number that the comparison returns.
pub data Sign : Type 0 where
  negative zero positive : Sign

abbrev pub sign_of_difference : ℕ → ℕ → Sign
sign_of_difference a b = if ltb a b then negative else if ltb b a then positive else zero

abbrev pub or_else : Sign → Sign → Sign
or_else zero s = s
or_else negative s = negative
or_else positive s = positive

-- `Date.parse` keeps the milliseconds of a time.
abbrev pub milliseconds : ℕ → ℕ
milliseconds at = at / 1000

unfoldable pub compare_winner_candidates : Candidate → Candidate → Sign
compare_winner_candidates left right =
    or_else (sign_of_difference (milliseconds left.received_at) (milliseconds right.received_at)) (
      or_else (sign_of_difference left.runtime right.runtime)
        (sign_of_difference left.sequence right.sequence))
