-- ===== src/Examples/Execution.antt =====
-- `ResilientExecutor` at concrete inputs.
use chainmonitor.Prelude.{
  ℕ, zero, suc, ◌+◌, ◌/◌, String, ◌≡◌, refl, Bool, true, false, none, [], arith,
}
use chainmonitor.Resilience.CircuitBreaker
use chainmonitor.Resilience.CircuitBreaker.{half_open}
use chainmonitor.Resilience.Backoff
use chainmonitor.Resilience.RateLimiter
use chainmonitor.Resilience.CircuitBreaker.Registry
use chainmonitor.Resilience.Executor.{
  default_config, World, returns, raises, Reply, returned, execute, attempts,
}
use chainmonitor.Resilience.Executor.Outcomes.{Accounts, execute-Accounts}
use chainmonitor.Resilience.Executor.Failures.{fatal_probe_blocks}
use chainmonitor.Resilience.Executor.Construction.{Registries}

-- An exception is the Boolean that says whether it is retryable.
abbrev is_retryable : Bool → Bool
is_retryable e = e

abbrev no_jitter : ℕ → ℕ
no_jitter attempt = 0

abbrev quotient : ℕ → ℕ → ℕ
quotient missing rate = missing / rate + 1

-- The first call raises a retryable exception, and the others return 7.
abbrev second_time : ℕ → Reply ℕ Bool
second_time zero = record { took = 5; outcome = returns 7 }
second_time (suc zero) = record { took = 5; outcome = raises true }
second_time (suc (suc n)) = record { took = 5; outcome = returns 7 }

abbrev start : World
start = record {
  now = 100;
  breaker = CircuitBreaker.init 5 30_000_000_000 2;
  limiter = RateLimiter.init 0 2_000_000_000 5;
  backoff = Backoff.init;
  calls = 0;
}

execute-Accounts_example :
    Accounts default_config is_retryable no_jitter quotient second_time start
      (execute default_config is_retryable no_jitter quotient second_time start)
execute-Accounts_example =
    execute-Accounts default_config is_retryable no_jitter quotient second_time start
      (unfold Backoff.allow_request in refl)
      (unfold CircuitBreaker.allow_request CircuitBreaker.init in refl)

-- A half-open breaker that has one probe left, and a call that fails for good.
abbrev last_probe : World
last_probe = record start {
  breaker = record {
    failure_threshold = 5;
    recovery_seconds = 30_000_000_000;
    half_open_max_calls = 2;
    state = half_open;
    failure_count = 0;
    opened_at = 0;
    half_open_calls = 1;
  };
}

abbrev fails_for_good : ℕ → Reply ℕ Bool
fails_for_good attempt = record { took = 5; outcome = raises false }

abbrev probed : World
probed = (execute default_config is_retryable no_jitter quotient fails_for_good last_probe).1

abbrev much_later : World
much_later = record probed { now = 1_000_000_000_000_000 }

fatal_probe_blocks_example :
    execute default_config is_retryable no_jitter quotient second_time much_later
    ≡ (returned none, much_later)
unfolding execute attempts CircuitBreaker.allow_request Backoff.allow_request
fatal_probe_blocks_example =
    fatal_probe_blocks default_config is_retryable no_jitter quotient fails_for_good last_probe
      probed much_later false second_time refl refl (omega arith) refl refl

abbrev as_is : String → String
as_is s = s

abbrev nothing : Registries
nothing = record {
  breakers = Registry.empty;
  limiters = record { objects = []; buckets = [] };
  guards = record { objects = []; guards = [] };
}
