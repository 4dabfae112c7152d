-- ===== src/Resilience/Executor/Failures.antt =====
-- What an exception that is not retryable leaves behind.
use chainmonitor.Prelude.{ℕ, ◌+◌, ◌≡◌, ap, ◌∙◌, Bool, true, none, arith}
use chainmonitor.Resilience.CircuitBreaker
use chainmonitor.Resilience.CircuitBreaker.{AsyncCircuitBreaker, half_open}
use chainmonitor.Resilience.Backoff
use chainmonitor.Resilience.Executor.{ResilienceConfig, World, Reply, returned, raised, execute}
use chainmonitor.Resilience.Executor.Outcomes.{Accounts, execute-Accounts}
use mathlib.Core.Path.{subst}

-- The breaker counts the request that takes the last probe.
full : AsyncCircuitBreaker → AsyncCircuitBreaker
full b = record b { half_open_calls = b.half_open_calls + 1 }

breaker_full :
    (now : ℕ) (b : AsyncCircuitBreaker)
    → b.state ≡ half_open
    → b.half_open_max_calls ≡ b.half_open_calls + 1
    → CircuitBreaker.allow_request now b ≡ (true, full b)
unfolding CircuitBreaker.allow_request full
breaker_full now b h room = ground arith

module _ {T E : Type 0} (config : ResilienceConfig) (is_retryable : E → Bool) (jitter : ℕ → ℕ)
    (quotient : ℕ → ℕ → ℕ) (fn : ℕ → Reply T E) where
  refused_for_good :
      (w : World) (b : AsyncCircuitBreaker)
      → w.breaker ≡ full b
      → b.state ≡ half_open
      → b.half_open_max_calls ≡ b.half_open_calls + 1
      → execute config is_retryable jitter quotient fn w ≡ (returned none, w)
  unfolding execute CircuitBreaker.allow_request full
  refused_for_good w b same h room = ground arith

module _ {T E : Type 0} (config : ResilienceConfig) (is_retryable : E → Bool) (jitter : ℕ → ℕ)
    (quotient : ℕ → ℕ → ℕ) (fn : ℕ → Reply T E) where
  -- When the last probe that a half-open breaker has left ends `execute` in an exception, the
  -- breaker goes on counting the probe as under way: as long as the breaker is as that call left it,
  -- every later `execute`, at whatever time and of whatever function, returns `None` without a call
  -- and changes nothing.
  pub fatal_probe_blocks :
      (w after later : World) (e : E) (other : ℕ → Reply T E)
      → Backoff.allow_request w.now w.backoff ≡ true
      → w.breaker.state ≡ half_open
      → w.breaker.half_open_max_calls ≡ w.breaker.half_open_calls + 1
      → execute config is_retryable jitter quotient fn w ≡ (raised e, after)
      → later.breaker ≡ after.breaker
      → execute config is_retryable jitter quotient other later ≡ (returned none, later)
  fatal_probe_blocks w after later e other g h room fails same =
      let admitted = breaker_full w.now w.breaker h room in
      let run =
        execute-Accounts config is_retryable jitter quotient fn w g (ap (λ p. p.0) admitted) in
      let (k, m, at, few, calls, past, last, final, kept, guard) =
        subst (Accounts config is_retryable jitter quotient fn w) fails run in
      refused_for_good config is_retryable jitter quotient other later w.breaker
        (same ∙ kept ∙ ap (λ p. p.1) admitted) h room
