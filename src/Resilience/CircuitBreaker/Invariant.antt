-- ===== src/Resilience/CircuitBreaker/Invariant.antt =====
-- What holds of a circuit breaker after any history of calls.
use chainmonitor.Prelude.{ℕ, ◌≤◌, ◌<◌, ◌≡◌, ◌≢◌, List, [], ◌∷◌, arith}
use chainmonitor.Resilience.CircuitBreaker.{
  AsyncCircuitBreaker, half_open, init, Event, requests, succeeds, fails, allow_request,
  record_success, record_failure, step, run,
}

pub record IsValid (b : AsyncCircuitBreaker) : Type 0 where
  pub threshold_pos : 1 ≤ b.failure_threshold
  pub probes_pos : 1 ≤ b.half_open_max_calls
  pub failures_below : b.failure_count < b.failure_threshold
  pub probes_within : b.half_open_calls ≤ b.half_open_max_calls
  pub probes_only_half_open : b.state ≢ half_open → b.half_open_calls ≡ 0

pub init-IsValid : (threshold recovery probes : ℕ) → IsValid (init threshold recovery probes)
unfolding init
init-IsValid threshold recovery probes = ground arith

pub step-IsValid : (e : Event) (b : AsyncCircuitBreaker) → IsValid b → IsValid (step e b)
unfolding step allow_request record_success record_failure
step-IsValid (requests now) b v = ground arith
step-IsValid (succeeds now) b v = ground arith
step-IsValid (fails now) b v = ground arith

pub run-IsValid : (es : List Event) (b : AsyncCircuitBreaker) → IsValid b → IsValid (run es b)
unfolding run
run-IsValid [] b v = v
run-IsValid (e ∷ es) b v = run-IsValid es (step e b) (step-IsValid e b v)

-- A breaker built by the constructor and then used by any sequence of calls, at any clock readings,
-- has fewer counted failures than its threshold and no more probes than its limit, and has none
-- counted outside the half-open state.
pub run-init-IsValid :
    (threshold recovery probes : ℕ) (es : List Event)
    → IsValid (run es (init threshold recovery probes))
run-init-IsValid threshold recovery probes es =
    run-IsValid es (init threshold recovery probes) (init-IsValid threshold recovery probes)
