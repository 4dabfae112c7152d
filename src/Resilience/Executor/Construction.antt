-- ===== src/Resilience/Executor/Construction.antt =====
-- `ResilientExecutor.__init__`: the three shared objects come from the registries, by the name.
-- `strip_lower` is `str.strip` and then `str.lower`.
use chainmonitor.Prelude.{ℕ, String, ◌≡◌, ap, arith}
use chainmonitor.Resilience.CircuitBreaker.Registry.{
  CircuitBreakerRegistry, get_breaker, get_breaker-shared,
}
use chainmonitor.Resilience.Backoff.Registry.{BackoffRegistry, get_guard, get_guard-shared}
use chainmonitor.Resilience.RateLimiter.Registry.{
  RateLimiterRegistry, get_bucket, get_bucket-shared,
}
use chainmonitor.Resilience.Executor.{ResilienceConfig}

pub record Registries : Type 0 where
  pub breakers : CircuitBreakerRegistry
  pub limiters : RateLimiterRegistry
  pub guards : BackoffRegistry

pub record ResilientExecutor : Type 0 where
  pub name : String
  pub config : ResilienceConfig
  pub breaker : ℕ
  pub limiter : ℕ
  pub backoff : ℕ

module _ (strip_lower : String → String) where
  unfoldable pub construct :
      ℕ → String → ResilienceConfig → Registries → ResilientExecutor × Registries
  construct now name config r =
      let key = strip_lower name in
      let (breaker, breakers) =
        get_breaker strip_lower key config.circuit_failure_threshold config.circuit_recovery_seconds
          config.circuit_half_open_max_calls r.breakers in
      let (limiter, limiters) =
        get_bucket strip_lower now key config.rate_limit_per_second config.rate_limit_capacity
          r.limiters in
      let (backoff, guards) = get_guard strip_lower key r.guards in
      (
        record {
          name = key;
          config = config;
          breaker = breaker;
          limiter = limiter;
          backoff = backoff;
        },
        record { breakers = breakers; limiters = limiters; guards = guards },
      )

  -- Two executors made with one configuration, at any times, under names that strip and lower to
  -- the same text, share their breaker, their limiter and their guard; the second makes no object.
  pub construct-shared :
      (now later : ℕ) (name other : String) (config : ResilienceConfig) (r : Registries)
      → strip_lower other ≡ strip_lower name
      → let made = construct now name config r in construct later other config made.1 ≡ made
  unfolding construct
  construct-shared now later name other config r same =
      let key = strip_lower name in
      let same_key = ap strip_lower same in
      ground (
        arith,
        (get_breaker-shared strip_lower key config.circuit_failure_threshold
            config.circuit_recovery_seconds config.circuit_half_open_max_calls (strip_lower other)
            r.breakers same_key).1,
        (get_bucket-shared strip_lower key config.rate_limit_per_second config.rate_limit_capacity
            (strip_lower other) now later r.limiters same_key).1,
        (get_guard-shared strip_lower key (strip_lower other) r.guards same_key).0,
      )
