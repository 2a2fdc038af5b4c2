-- ===== src/RateLimit/Tests.antt =====
-- Runs of the rate limiter.
use dwell.Base.{ℕ, ◌+◌, ◌-◌, ◌/◌, ◌≤◌, ◌<◌, String, ◌≡◌, refl, List, [], ◌∷◌, ◌⊎◌, arith}
use dwell.Base.Map.{Map}
use dwell.RateLimit.{Options, Bucket, take, refilled, bucket, gc}
use dwell.RateLimit.Bound.{Calls, granted, granted_bound}
use dwell.RateLimit.Waits.{take_wait}

-- One token for the start and one for each second.
abbrev slow : Options
slow = record { capacity = 1; refill_ms = 1_000 }

abbrev three_calls : Calls
three_calls = (500, "alice") ∷ (700, "alice") ∷ (2_000, "alice") ∷ []

granted_three : granted slow "alice" three_calls [] ≡ 2
unfolding granted take refilled bucket gc dwell.Base.Map.get dwell.Base.Map.set
granted_three = refl

granted_bound_example : granted slow "alice" three_calls [] ≤ 1 + (2_500 - 500) / 1_000
granted_bound_example =
    granted_bound slow "alice" 500 2_500 three_calls (omega arith)
      (omega arith, (omega arith, (omega arith, omega arith)))

abbrev spent_out : Map Bucket
spent_out = ("alice", record { tokens = 0; at = 500 }) ∷ []

take_wait_example :
    ((take slow 700 "alice" spent_out).0 ≡ 0)
    ⊎ ((0 < (take slow 700 "alice" spent_out).0)
        × ((take slow
              (700 + (take slow 700 "alice" spent_out).0)
              "alice"
              (take slow 700 "alice" spent_out).1).0
            ≡ 0))
take_wait_example = take_wait slow 700 "alice" spent_out (omega arith) (omega arith)
