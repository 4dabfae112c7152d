-- ===== src/Resilience/Executor.antt =====
-- src/shared/resilience/executor.py: `ResilientExecutor`.
--
-- The three shared objects that an executor holds stand in `World`, with the clock and a count of
-- the calls of `fn`. The clock moves in the waits of the rate limiter, in the calls of `fn` and in
-- the sleeps between attempts; one task uses the objects at a time.
pub mod Construction
pub mod Outcomes
pub mod Failures
use chainmonitor.Prelude.{
  ℕ, zero, suc, ◌+◌, ◌-◌, ◌/◌, max, ap, Bool, not, Option, none, some, ltb, if◌then◌else◌,
}
use chainmonitor.Resilience.CircuitBreaker
use chainmonitor.Resilience.CircuitBreaker.{AsyncCircuitBreaker}
use chainmonitor.Resilience.Backoff
use chainmonitor.Resilience.Backoff.{BackoffGuard}
use chainmonitor.Resilience.RateLimiter
use chainmonitor.Resilience.RateLimiter.{AsyncTokenBucket}
use chainmonitor.Resilience.Retry.{retry_sleep_seconds}

pub record ResilienceConfig : Type 0 where
  pub rate_limit_per_second : ℕ
  pub rate_limit_capacity : ℕ
  pub circuit_failure_threshold : ℕ
  pub circuit_recovery_seconds : ℕ
  pub circuit_half_open_max_calls : ℕ
  pub retry_attempts : ℕ
  pub retry_base_seconds : ℕ
  pub retry_max_seconds : ℕ
  pub backoff_base_seconds : ℕ
  pub backoff_max_seconds : ℕ

-- The defaults of the dataclass: two requests a second, and seconds as nanoseconds.
abbrev pub default_config : ResilienceConfig
default_config = record {
  rate_limit_per_second = 2_000_000_000;
  rate_limit_capacity = 5;
  circuit_failure_threshold = 5;
  circuit_recovery_seconds = 30_000_000_000;
  circuit_half_open_max_calls = 2;
  retry_attempts = 3;
  retry_base_seconds = 1_000_000_000;
  retry_max_seconds = 30_000_000_000;
  backoff_base_seconds = 1_000_000_000;
  backoff_max_seconds = 30_000_000_000;
}

pub record World : Type 0 where
  pub now : ℕ
  pub breaker : AsyncCircuitBreaker
  pub limiter : AsyncTokenBucket
  pub backoff : BackoffGuard
  pub calls : ℕ

-- How one call of `fn` ends, with a value of `T` or an exception of `E`, and after which time.
pub data Outcome (T E : Type 0) : Type 0 where
  returns : T → Outcome T E
  raises : E → Outcome T E

pub record Reply (T E : Type 0) : Type 0 where
  pub took : ℕ
  pub outcome : Outcome T E

-- How the `for` loop ends: by its `return`, by its `raise`, or by running out.
pub data Ending (T E : Type 0) : Type 0 where
  success : T → Ending T E
  fatal : E → Ending T E
  exhausted : Ending T E

-- How `execute` ends.
pub data Result (T E : Type 0) : Type 0 where
  returned : Option T → Result T E
  raised : E → Result T E

-- `quotient` is that of the rate limiter, `fn n` is how the call made in attempt n goes, and `jitter n` what `random.uniform` gives then.
module _ {T E : Type 0} (config : ResilienceConfig) (is_retryable : E → Bool) (jitter : ℕ → ℕ)
    (quotient : ℕ → ℕ → ℕ) (fn : ℕ → Reply T E) where
  -- `await self._limiter.acquire()` and `await fn()`
  unfoldable pub call : ℕ → World → World
  call attempt w =
      let (later, limiter) = RateLimiter.acquire quotient w.now w.limiter in
      record w { now = later + (fn attempt).took; limiter = limiter; calls = w.calls + 1 }

  unfoldable pub succeed : World → World
  succeed w = record w {
    breaker = CircuitBreaker.record_success w.breaker;
    backoff = Backoff.record_success w.backoff;
  }

  -- The sleep after a retryable failure; there is none after the last attempt.
  unfoldable pub pause : ℕ → World → World
  pause attempt w =
      if ltb attempt config.retry_attempts
      then record w {
        now =
            w.now
            + retry_sleep_seconds (jitter attempt) attempt config.retry_base_seconds
                config.retry_max_seconds;
      }
      else w

  -- The attempts that are left, from the given one on.
  unfoldable pub attempts : ℕ → ℕ → World → Ending T E × World
  unfolding call succeed pause
  attempts zero attempt w = (exhausted, w)
  attempts (suc left) attempt w =
      let w' = call attempt w in
      elim (fn attempt).outcome [
        | returns v ↦ (success v, succeed w')
        | raises e ↦
            if is_retryable e then attempts left (attempt + 1) (pause attempt w') else (fatal e, w')
      ]

  -- What follows the loop.
  unfoldable pub conclude : Ending T E → World → Result T E × World
  conclude (success v) w = (returned (some v), w)
  conclude (fatal e) w = (raised e, w)
  conclude exhausted w = (
    returned none,
    record w {
      breaker = CircuitBreaker.record_failure w.now w.breaker;
      backoff =
          Backoff.record_failure w.now config.backoff_base_seconds config.backoff_max_seconds
            w.backoff;
    },
  )

  unfoldable pub execute : World → Result T E × World
  unfolding conclude
  execute w =
      if not (Backoff.allow_request w.now w.backoff)
      then (returned none, w)
      else let (allowed, breaker) = CircuitBreaker.allow_request w.now w.breaker in
        let w' = record w { breaker = breaker } in
        if not allowed
        then (returned none, w')
        else let (ending, w'') = attempts config.retry_attempts 1 w' in conclude ending w''
