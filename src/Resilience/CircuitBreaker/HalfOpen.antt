-- ===== src/Resilience/CircuitBreaker/HalfOpen.antt =====
-- How many requests a half-open breaker lets through.
use chainmonitor.Prelude.{
  ℕ, suc, ◌+◌, ◌-◌, ◌≤◌, min, ◌≡◌, refl, List, [], ◌∷◌, map, arith, if◌then◌else◌, length,
}
use chainmonitor.Resilience.CircuitBreaker.{
  AsyncCircuitBreaker, open_, half_open, requests, allow_request, step, run,
}
use chainmonitor.Resilience.CircuitBreaker.Invariant.{IsValid}

-- How many requests at the given clock readings are let through, one after the other.
pub admitted : List ℕ → AsyncCircuitBreaker → ℕ
admitted [] b = 0
admitted (now ∷ times) b =
    let (ok, b') = allow_request now b in (if ok then 1 else 0) + admitted times b'

-- While no outcome is recorded, a half-open breaker lets through exactly the probes it has left,
-- whatever the clock readings.
pub admitted-half_open :
    (times : List ℕ) (b : AsyncCircuitBreaker)
    → b.state ≡ half_open
    → admitted times b ≡ min (length times) (b.half_open_max_calls - b.half_open_calls)
unfolding admitted allow_request
admitted-half_open [] b h = omega arith
admitted-half_open (now ∷ times) b h = ground (
  arith,
  admitted-half_open times b h,
  admitted-half_open times (record b { half_open_calls = b.half_open_calls + 1 }) h,
)

-- Once an open breaker has waited for its recovery time, it lets through exactly the first
-- `half_open_max_calls` of any number of requests made while no outcome is recorded.
pub admitted-open :
    (times : List ℕ) (now : ℕ) (b : AsyncCircuitBreaker)
    → IsValid b
    → b.state ≡ open_
    → b.recovery_seconds ≤ now - b.opened_at
    → admitted (now ∷ times) b ≡ min (suc (length times)) b.half_open_max_calls
unfolding admitted allow_request
admitted-open times now b v h w =
    ground
      (arith, admitted-half_open times (record b { state = half_open; half_open_calls = 1 }) refl)

-- A half-open breaker whose probes are all under way, or were lost without a recorded outcome,
-- refuses every request at every later clock reading and stays as it is: no timeout brings it back.
pub half_open_stuck :
    (times : List ℕ) (b : AsyncCircuitBreaker)
    → b.state ≡ half_open
    → b.half_open_max_calls ≤ b.half_open_calls
    → (admitted times b ≡ 0) × (run (map requests times) b ≡ b)
unfolding admitted run step allow_request
half_open_stuck [] b h full = (refl, refl)
half_open_stuck (now ∷ times) b h full = ground (arith, half_open_stuck times b h full)
