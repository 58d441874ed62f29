-- ===== src/Tests/Limiting.antt =====
-- Requests to a socket.
use leetbattle.Shared.{◌+◌, ◌*◌, ◌≤◌, ◌≡◌, refl, List, [], ◌∷◌, All, arith, length}
use leetbattle.Realtime.Limits.{ping, snapshot, empty_rate_state}
use leetbattle.Realtime.Limits.Rate.{Request, accept, IsLimited, accept-IsLimited, length-accept-le}

-- The second comes too early, and so does the fourth, a second ping within five seconds.
abbrev requests : List Request
requests =
    record { command = ping; at = 1000 }
    ∷ record { command = snapshot; at = 1200 }
    ∷ record { command = snapshot; at = 1500 }
    ∷ record { command = ping; at = 4000 }
    ∷ record { command = ping; at = 6000 }
    ∷ []

requests_admitted : length (accept empty_rate_state requests) ≡ 3
unfolding accept leetbattle.Realtime.Limits.admit_command
requests_admitted = refl

accept-IsLimited_example : IsLimited empty_rate_state (accept empty_rate_state requests)
accept-IsLimited_example = accept-IsLimited empty_rate_state requests

requests_early : All (λ r. r.at ≤ 6000) requests
requests_early = (omega arith, (omega arith, (omega arith, (omega arith, (omega arith, tt)))))

length-accept-le_example : length (accept empty_rate_state requests) * 500 ≤ 6000 + 500
length-accept-le_example = length-accept-le 6000 requests requests_early
