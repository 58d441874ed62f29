-- ===== src/Realtime/Limits/Rate.antt =====
-- The rate of the commands that are let through.
use leetbattle.Shared.{
  ℕ, ◌+◌, ◌*◌, ◌≤◌, ◌≡◌, max, Bool, true, false, List, [], ◌∷◌, arith, ltb, length, All, select,
  Bool-cases, inl, inr,
}
use leetbattle.Realtime.Limits.{
  RateState, LimitedCommand, ping, snapshot, Admission, allowed, refused, admit_command, admitted,
  specific_not_before, empty_rate_state,
}

-- A request for a command at a time, and what a socket does with a sequence of them: the admitted
-- ones, in order.
pub record Request : Type 0 where
  pub command : LimitedCommand
  pub at : ℕ

abbrev pub state_after : Admission → RateState
state_after (allowed s) = s
state_after (refused t s) = s

abbrev pub keep : Admission → Request → List Request → List Request
keep (allowed s) r rest = r ∷ rest
keep (refused t s) r rest = rest

unfoldable pub accept : RateState → List Request → List Request
accept s [] = []
accept s (r ∷ rs) = let a = admit_command s r.command r.at in keep a r (accept (state_after a) rs)

abbrev pub is_ping : Request → Bool
is_ping r = elim r.command [ ping ↦ true | snapshot ↦ false ]

abbrev pub is_snapshot : Request → Bool
is_snapshot r = elim r.command [ ping ↦ false | snapshot ↦ true ]

-- The first request comes at a time or later, and each at least a gap after the one before.
abbrev pub Spaced : ℕ → ℕ → List Request → Type 0
Spaced gap from [] = Unit
Spaced gap from (r ∷ rs) = (from ≤ r.at) × Spaced gap (r.at + gap) rs

-- All three limits.
pub record IsLimited (s : RateState) (rs : List Request) : Type 0 where
  pub commands : Spaced 500 s.command_not_before rs
  pub pings : Spaced 5000 s.ping_not_before (select is_ping rs)
  pub snapshots : Spaced 2000 s.snapshot_not_before (select is_snapshot rs)

IsLimited-allowed :
    (s : RateState) (c : LimitedCommand) (at : ℕ) (rest : List Request)
    → s.command_not_before ≤ at
    → specific_not_before s c ≤ at
    → IsLimited (admitted s c at) rest
    → IsLimited s (record { command = c; at = at } ∷ rest)
IsLimited-allowed s ping at rest h k l = record {
  commands = (h, l.commands);
  pings = (k, l.pings);
  snapshots = l.snapshots;
}
IsLimited-allowed s snapshot at rest h k l = record {
  commands = (h, l.commands);
  pings = l.pings;
  snapshots = (k, l.snapshots);
}

not_early : (m n at : ℕ) → ltb at (max m n) ≡ false → (m ≤ at) × (n ≤ at)
not_early m n at h = ground arith

IsLimited-keep :
    (s : RateState) (r : Request) (f : RateState → List Request)
    → ((t : RateState) → IsLimited t (f t))
    → let a = admit_command s r.command r.at in IsLimited s (keep a r (f (state_after a)))
unfolding admit_command
IsLimited-keep s r f l =
    elim (Bool-cases (ltb r.at (max s.command_not_before (specific_not_before s r.command)))) [
      | inl early ↦ rw early (l s)
      | inr late ↦
          let t = not_early s.command_not_before (specific_not_before s r.command) r.at late in
          rw late (
            IsLimited-allowed s r.command r.at (f (admitted s r.command r.at)) t.0 t.1
              (l (admitted s r.command r.at)))
    ]

-- Of any requests, the admitted ones are at least 500 ms apart, two pings at least 5 seconds and two
-- requests for a snapshot at least 2 seconds, and none precedes the times of the state.
pub accept-IsLimited : (s : RateState) (rs : List Request) → IsLimited s (accept s rs)
unfolding accept
accept-IsLimited s [] = record { commands = tt; pings = tt; snapshots = tt }
accept-IsLimited s (r ∷ rs) = IsLimited-keep s r (λ t. accept t rs) (λ t. accept-IsLimited t rs)

Spaced-length :
    (from top : ℕ) (rs : List Request)
    → Spaced 500 from rs
    → All (λ r. r.at ≤ top) rs
    → length rs * 500 + from ≤ max (top + 500) from
Spaced-length from top [] h k = omega arith
Spaced-length from top (r ∷ rs) h k =
    omega (arith, h.0, k.0, Spaced-length (r.at + 500) top rs h.1 k.1)

All-keep :
    (P : Request → Type 0) (a : Admission) (r : Request) (rs : List Request)
    → P r
    → All P rs
    → All P (keep a r rs)
All-keep P (allowed s) r rs h k = (h, k)
All-keep P (refused t s) r rs h k = k

All-accept :
    (P : Request → Type 0) (s : RateState) (rs : List Request) → All P rs → All P (accept s rs)
unfolding accept
All-accept P s [] h = tt
All-accept P s (r ∷ rs) h =
    let a = admit_command s r.command r.at in
    All-keep P a r (accept (state_after a) rs) h.0 (All-accept P (state_after a) rs h.1)

-- Of any requests up to a time, a fresh socket admits at most one for each half second of that time
-- and one more.
pub length-accept-le :
    (top : ℕ) (rs : List Request)
    → All (λ r. r.at ≤ top) rs
    → length (accept empty_rate_state rs) * 500 ≤ top + 500
length-accept-le top rs h =
    let l = accept-IsLimited empty_rate_state rs in
    omega (
      arith,
      Spaced-length 0 top (accept empty_rate_state rs) l.commands
          (All-accept (λ r. r.at ≤ top) empty_rate_state rs h),
    )
