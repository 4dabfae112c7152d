-- ===== src/Resilience/CircuitBreaker.antt =====
-- src/shared/resilience/circuit_breaker.py: `AsyncCircuitBreaker` and its registry.
--
-- Every method holds the lock from its first to its last line, so a method is one step. A reading
-- of `monotonic()` is the argument `now`; clock readings and durations are whole nanoseconds.
pub mod Invariant
pub mod HalfOpen
pub mod Recovery
pub mod Registry
use chainmonitor.Prelude.{ℕ, ◌+◌, ◌-◌, Bool, true, false, max, leb, if◌then◌else◌, List, [], ◌∷◌}

pub data State : Type 0 where
  closed open_ half_open : State

pub record AsyncCircuitBreaker : Type 0 where
  pub failure_threshold : ℕ
  pub recovery_seconds : ℕ
  pub half_open_max_calls : ℕ
  pub state : State
  pub failure_count : ℕ
  pub opened_at : ℕ
  pub half_open_calls : ℕ

-- 0.5 seconds
abbrev pub half_second : ℕ
half_second = 500_000_000

unfoldable pub init : ℕ → ℕ → ℕ → AsyncCircuitBreaker
init failure_threshold recovery_seconds half_open_max_calls = record {
  failure_threshold = max 1 failure_threshold;
  recovery_seconds = max half_second recovery_seconds;
  half_open_max_calls = max 1 half_open_max_calls;
  state = closed;
  failure_count = 0;
  opened_at = 0;
  half_open_calls = 0;
}

-- The test of the half-open state, which the first branch falls through to.
probe : AsyncCircuitBreaker → Bool × AsyncCircuitBreaker
probe b =
    if leb b.half_open_max_calls b.half_open_calls
    then (false, b)
    else (true, record b { half_open_calls = b.half_open_calls + 1 })

allow : State → ℕ → AsyncCircuitBreaker → Bool × AsyncCircuitBreaker
unfolding probe
allow open_ now b =
    if leb b.recovery_seconds (now - b.opened_at)
    then probe (record b { state = half_open; half_open_calls = 0 })
    else (false, b)
allow half_open now b = probe b
allow closed now b = (true, b)

unfoldable pub allow_request : ℕ → AsyncCircuitBreaker → Bool × AsyncCircuitBreaker
unfolding allow
allow_request now b = allow b.state now b

settle : State → AsyncCircuitBreaker → AsyncCircuitBreaker
settle closed b = b
settle _ b = record b { state = closed; half_open_calls = 0 }

unfoldable pub record_success : AsyncCircuitBreaker → AsyncCircuitBreaker
unfolding settle
record_success b = settle b.state (record b { failure_count = 0 })

count_failure : ℕ → AsyncCircuitBreaker → AsyncCircuitBreaker
count_failure now b =
    if leb b.failure_threshold (b.failure_count + 1)
    then record b { state = open_; opened_at = now; failure_count = 0 }
    else record b { failure_count = b.failure_count + 1 }

fail : State → ℕ → AsyncCircuitBreaker → AsyncCircuitBreaker
unfolding count_failure
fail half_open now b = record b {
  state = open_;
  opened_at = now;
  failure_count = 0;
  half_open_calls = 0;
}
fail _ now b = count_failure now b

unfoldable pub record_failure : ℕ → AsyncCircuitBreaker → AsyncCircuitBreaker
unfolding fail
record_failure now b = fail b.state now b

remaining : State → ℕ → AsyncCircuitBreaker → ℕ
remaining open_ now b = b.recovery_seconds - (now - b.opened_at)
remaining _ now b = 0

-- `max(0.0, recovery_seconds - elapsed)` is the truncated subtraction.
unfoldable pub remaining_open_seconds : ℕ → AsyncCircuitBreaker → ℕ
unfolding remaining
remaining_open_seconds now b = remaining b.state now b

-- What callers do to a breaker, each at a clock reading.
pub data Event : Type 0 where
  requests succeeds fails : ℕ → Event

unfoldable pub step : Event → AsyncCircuitBreaker → AsyncCircuitBreaker
step (requests now) b = (allow_request now b).1
step (succeeds now) b = record_success b
step (fails now) b = record_failure now b

unfoldable pub run : List Event → AsyncCircuitBreaker → AsyncCircuitBreaker
run [] b = b
run (e ∷ es) b = run es (step e b)
