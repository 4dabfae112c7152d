-- ===== src/Resilience/CircuitBreaker/Recovery.antt =====
-- How a breaker opens, stays open for the recovery time, and comes back.
use chainmonitor.Prelude.{
  ℕ, ◌+◌, ◌-◌, ◌≤◌, ◌<◌, ◌≡◌, refl, ◌⊎◌, true, false, List, [], ◌∷◌, ◌++◌, map, arith, length,
}
use chainmonitor.Resilience.CircuitBreaker.{
  AsyncCircuitBreaker, closed, open_, half_open, fails, allow_request, record_success,
  record_failure, remaining_open_seconds, step, run,
}
use chainmonitor.Resilience.CircuitBreaker.Invariant.{IsValid}

-- Fewer failures in a row than are missing to the threshold leave a closed breaker closed, and
-- they are all counted.
pub failures_below_threshold :
    (times : List ℕ) (b : AsyncCircuitBreaker)
    → b.state ≡ closed
    → b.failure_count + length times < b.failure_threshold
    → run (map fails times) b ≡ record b { failure_count = b.failure_count + length times }
unfolding run step record_failure
failures_below_threshold [] b h few = ground arith
failures_below_threshold (now ∷ times) b h few =
    ground
      (arith, failures_below_threshold times (record b { failure_count = b.failure_count + 1 }) h)

run-append_fails :
    (times : List ℕ) (now : ℕ) (b : AsyncCircuitBreaker)
    → run (map fails (times ++ now ∷ [])) b ≡ record_failure now (run (map fails times) b)
unfolding run step
run-append_fails [] now b = refl
run-append_fails (t ∷ times) now b = run-append_fails times now (record_failure t b)

-- The failure that reaches the threshold opens the breaker at its clock reading, and resets the
-- count: `times` are the failures before it, with no success between them.
pub failures_open :
    (times : List ℕ) (now : ℕ) (b : AsyncCircuitBreaker)
    → b.state ≡ closed
    → b.failure_count + length times + 1 ≡ b.failure_threshold
    → run (map fails (times ++ now ∷ [])) b
      ≡ record b { state = open_; opened_at = now; failure_count = 0 }
failures_open times now b h exact =
    rw (run-append_fails times now b, failures_below_threshold times b h (omega arith))
      (unfold record_failure in ground arith)

-- An open breaker refuses a request, and does not change, exactly until the recovery time since
-- its opening has passed; `remaining_open_seconds` is then 0. The first request after that is let
-- through as the first probe of the half-open state.
pub open_gate :
    (now : ℕ) (b : AsyncCircuitBreaker)
    → IsValid b
    → b.state ≡ open_
    → ((now - b.opened_at < b.recovery_seconds)
        × (allow_request now b ≡ (false, b))
        × (0 < remaining_open_seconds now b))
      ⊎ ((b.recovery_seconds ≤ now - b.opened_at)
          × (allow_request now b ≡ (true, record b { state = half_open; half_open_calls = 1 }))
          × (remaining_open_seconds now b ≡ 0))
unfolding allow_request remaining_open_seconds
open_gate now b v h = ground arith

-- After a probe, a recorded success closes the breaker with no failure counted, and a recorded
-- failure opens it: it then refuses every request for a whole recovery time from the failure.
pub probe_outcome :
    (now later : ℕ) (b : AsyncCircuitBreaker)
    → b.state ≡ half_open
    → later - now < b.recovery_seconds
    → (record_success b ≡ record b { state = closed; failure_count = 0; half_open_calls = 0 })
      × ((record_failure now b).state ≡ open_)
      × ((allow_request later (record_failure now b)).0 ≡ false)
unfolding record_success record_failure allow_request
probe_outcome now later b h soon = ground arith
