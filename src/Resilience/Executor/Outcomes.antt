-- ===== src/Resilience/Executor/Outcomes.antt =====
-- What a result of `execute` says of the calls that were made.
use mathlib.Core.Path.{subst}
use chainmonitor.Prelude.{
  ℕ, zero, suc, ◌+◌, ◌<◌, ◌≡◌, refl, sym, inl, inr, Bool, true, false, none, some, arith,
  Bool-cases,
}
use chainmonitor.Resilience.CircuitBreaker
use chainmonitor.Resilience.Backoff
use chainmonitor.Resilience.Executor.{
  ResilienceConfig, World, Outcome, returns, raises, Reply, Ending, success, fatal, exhausted,
  Result, returned, raised, call, succeed, pause, attempts, conclude, execute,
}

module _ {T E : Type 0} (config : ResilienceConfig) (is_retryable : E → Bool) (jitter : ℕ → ℕ)
    (quotient : ℕ → ℕ → ℕ) (fn : ℕ → Reply T E) where
  -- The calls in a row, from attempt n on, that raise a retryable exception.
  abbrev pub Retried : ℕ → ℕ → Type 0
  Retried n zero = Unit {0}
  Retried n (suc k) =
      ((e : E) × ((fn n).outcome ≡ raises e) × (is_retryable e ≡ true)) × Retried (n + 1) k

  -- What ends the loop that starts at attempt n with some attempts left: the calls before the
  -- last one all raise retryable exceptions; `before` and `after` count the calls of `fn`.
  abbrev pub Explains : Ending T E → ℕ → ℕ → ℕ → ℕ → Type 0
  Explains (success v) left n before after =
      (k : ℕ) × (m : ℕ) × (m ≡ n + k)
      × (k < left)
      × (after ≡ before + k + 1)
      × Retried n k
      × ((fn m).outcome ≡ returns v)
  Explains (fatal e) left n before after =
      (k : ℕ) × (m : ℕ) × (m ≡ n + k)
      × (k < left)
      × (after ≡ before + k + 1)
      × Retried n k
      × ((fn m).outcome ≡ raises e)
      × (is_retryable e ≡ false)
  Explains exhausted left n before after = (after ≡ before + left) × Retried n left

  Explains-later :
      (ending : Ending T E) (left n before mid after : ℕ) (e : E)
      → (fn n).outcome ≡ raises e
      → is_retryable e ≡ true
      → mid ≡ before + 1
      → Explains ending left (n + 1) mid after
      → Explains ending (suc left) n before after
  Explains-later (success v) left n before mid after e h r one_more (k, m, i, lt, c, past, last) =
      (suc k, m, omega arith, omega arith, omega arith, ((e, h, r), past), last)
  Explains-later (fatal x) left n before mid after e h r one_more
        (k, m, i, lt, c, past, last, final) =
      (suc k, m, omega arith, omega arith, omega arith, ((e, h, r), past), last, final)
  Explains-later exhausted left n before mid after e h r one_more (c, past) =
      (omega arith, ((e, h, r), past))

  abbrev after_call : ℕ → World → World
  after_call n w =
      pause config is_retryable jitter quotient fn n
        (call config is_retryable jitter quotient fn n w)

  -- One round of the loop, by how its call ends.
  pub attempts-returns :
      (left n : ℕ) (w : World) (v : T)
      → (fn n).outcome ≡ returns v
      → attempts config is_retryable jitter quotient fn (suc left) n w ≡ (
        success v,
        succeed config is_retryable jitter quotient fn
            (call config is_retryable jitter quotient fn n w),
      )
  unfolding attempts
  attempts-returns left n w v h = ground arith

  pub attempts-retries :
      (left n : ℕ) (w : World) (e : E)
      → (fn n).outcome ≡ raises e
      → is_retryable e ≡ true
      → attempts config is_retryable jitter quotient fn (suc left) n w
        ≡ attempts config is_retryable jitter quotient fn left (n + 1) (after_call n w)
  unfolding attempts
  attempts-retries left n w e h r = ground arith

  pub attempts-fails :
      (left n : ℕ) (w : World) (e : E)
      → (fn n).outcome ≡ raises e
      → is_retryable e ≡ false
      → attempts config is_retryable jitter quotient fn (suc left) n w
        ≡ (fatal e, call config is_retryable jitter quotient fn n w)
  unfolding attempts
  attempts-fails left n w e h r = ground arith

  abbrev Explained : ℕ → ℕ → ℕ → Ending T E × World → Type 0
  Explained left n before (ending, after) = Explains ending left n before after.calls

  calls-after_call : (n : ℕ) (w : World) → (after_call n w).calls ≡ w.calls + 1
  unfolding pause call
  calls-after_call n w = ground arith

  calls-call :
      (n : ℕ) (w : World) → (call config is_retryable jitter quotient fn n w).calls ≡ w.calls + 1
  unfolding call
  calls-call n w = refl

  calls-succeed : (w : World) → (succeed config is_retryable jitter quotient fn w).calls ≡ w.calls
  unfolding succeed
  calls-succeed w = refl

  round-Explains :
      (left n : ℕ) (w : World) (o : Outcome T E)
      → (fn n).outcome ≡ o
      → Explained left
          (n + 1)
          (after_call n w).calls
          (attempts config is_retryable jitter quotient fn left (n + 1) (after_call n w))
      → Explained
          (suc left)
          n
          w.calls
          (attempts config is_retryable jitter quotient fn (suc left) n w)
  round-Explains left n w (returns v) h later =
      subst (Explained (suc left) n w.calls) (sym (attempts-returns left n w v h)) (
        0,
        n,
        omega arith,
        omega arith,
        omega (
          arith,
          calls-succeed (call config is_retryable jitter quotient fn n w),
          calls-call n w,
        ),
        tt,
        h,
      )
  round-Explains left n w (raises e) h later = elim (Bool-cases (is_retryable e)) [
    | inl r ↦
        subst (Explained (suc left) n w.calls) (sym (attempts-retries left n w e h r))
          (Explains-later _ left n w.calls _ _ e h r (calls-after_call n w) later)
    | inr r ↦
        subst (Explained (suc left) n w.calls) (sym (attempts-fails left n w e h r))
          (0, n, omega arith, omega arith, omega (arith, calls-call n w), tt, h, r)
  ]

  attempts-Explains :
      (left n : ℕ) (w : World)
      → Explained left n w.calls (attempts config is_retryable jitter quotient fn left n w)
  attempts-Explains zero n w = unfold attempts in (omega arith, tt)
  attempts-Explains (suc left) n w =
      round-Explains left n w (fn n).outcome refl (attempts-Explains left (n + 1) (after_call n w))

  -- What an `execute` that gets past both guards does, by its result; `k` counts the attempts that
  -- failed before the last one, and `before` is the breaker as the request for the call left it.
  abbrev pub Accounts : World → Result T E × World → Type 0
  Accounts w (returned (some v), after) =
      (k : ℕ) × (m : ℕ) × (m ≡ 1 + k)
      × (k < config.retry_attempts)
      × (after.calls ≡ w.calls + k + 1)
      × Retried 1 k
      × ((fn m).outcome ≡ returns v)
      × (after.breaker
          ≡ CircuitBreaker.record_success (CircuitBreaker.allow_request w.now w.breaker).1)
      × (after.backoff ≡ Backoff.init)
  Accounts w (returned none, after) =
      (after.calls ≡ w.calls + config.retry_attempts)
      × Retried 1 config.retry_attempts
      × (after.breaker
          ≡ CircuitBreaker.record_failure after.now
              (CircuitBreaker.allow_request w.now w.breaker).1)
      × (after.backoff
          ≡ Backoff.record_failure after.now config.backoff_base_seconds config.backoff_max_seconds
              w.backoff)
  Accounts w (raised e, after) =
      (k : ℕ) × (m : ℕ) × (m ≡ 1 + k)
      × (k < config.retry_attempts)
      × (after.calls ≡ w.calls + k + 1)
      × Retried 1 k
      × ((fn m).outcome ≡ raises e)
      × (is_retryable e ≡ false)
      × (after.breaker ≡ (CircuitBreaker.allow_request w.now w.breaker).1)
      × (after.backoff ≡ w.backoff)

  -- The loop touches the breaker and the guard only when a call returns.
  abbrev Touches : World → Ending T E × World → Type 0
  Touches w (success v, after) =
      (after.breaker ≡ CircuitBreaker.record_success w.breaker) × (after.backoff ≡ Backoff.init)
  Touches w (_, after) = (after.breaker ≡ w.breaker) × (after.backoff ≡ w.backoff)

  Touches-after_call :
      (n : ℕ) (w : World) (r : Ending T E × World) → Touches (after_call n w) r → Touches w r
  unfolding pause call
  Touches-after_call n w (success v, after) h = ground arith
  Touches-after_call n w (_, after) h = ground arith

  round-Touches :
      (left n : ℕ) (w : World) (o : Outcome T E)
      → (fn n).outcome ≡ o
      → Touches
          (after_call n w)
          (attempts config is_retryable jitter quotient fn left (n + 1) (after_call n w))
      → Touches w (attempts config is_retryable jitter quotient fn (suc left) n w)
  round-Touches left n w (returns v) h later =
      subst (Touches w) (sym (attempts-returns left n w v h))
        (unfold succeed call Backoff.record_success in (refl, refl))
  round-Touches left n w (raises e) h later = elim (Bool-cases (is_retryable e)) [
    | inl r ↦
        subst (Touches w) (sym (attempts-retries left n w e h r)) (Touches-after_call n w _ later)
    | inr r ↦ subst (Touches w) (sym (attempts-fails left n w e h r)) (unfold call in (refl, refl))
  ]

  attempts-Touches :
      (left n : ℕ) (w : World)
      → Touches w (attempts config is_retryable jitter quotient fn left n w)
  attempts-Touches zero n w = unfold attempts in (refl, refl)
  attempts-Touches (suc left) n w =
      round-Touches left n w (fn n).outcome refl (attempts-Touches left (n + 1) (after_call n w))

  abbrev pub entered : World → World
  entered w = record w { breaker = (CircuitBreaker.allow_request w.now w.breaker).1 }

  pub execute-entered :
      (w : World)
      → Backoff.allow_request w.now w.backoff ≡ true
      → (CircuitBreaker.allow_request w.now w.breaker).0 ≡ true
      → let loop =
          attempts config is_retryable jitter quotient fn config.retry_attempts 1 (entered w) in
        execute config is_retryable jitter quotient fn w
        ≡ conclude config is_retryable jitter quotient fn loop.0 loop.1
  unfolding execute
  execute-entered w g b = rw (g, b)

  conclude-Accounts :
      (w : World) (r : Ending T E × World)
      → Explained config.retry_attempts 1 w.calls r
      → Touches (entered w) r
      → Accounts w (conclude config is_retryable jitter quotient fn r.0 r.1)
  unfolding conclude
  conclude-Accounts w (success v, after) (k, m, i, lt, c, past, last) (b, g) =
      (k, m, i, lt, c, past, last, b, g)
  conclude-Accounts w (fatal e, after) (k, m, i, lt, c, past, last, final) (b, g) =
      (k, m, i, lt, c, past, last, final, b, g)
  conclude-Accounts w (exhausted, after) (c, past) (b, g) = (c, past, ground arith, ground arith)

  -- When the guard and the breaker both let it through, `execute` returns the value of the first
  -- attempt that does not raise, closes the breaker and resets the guard; or it raises the first
  -- exception that is not retryable, and records nothing; or, when all `retry_attempts` attempts
  -- raised retryable exceptions, it returns `None` and records one failure on each. It makes one
  -- call for each attempt up to the deciding one.
  pub execute-Accounts :
      (w : World)
      → Backoff.allow_request w.now w.backoff ≡ true
      → (CircuitBreaker.allow_request w.now w.breaker).0 ≡ true
      → Accounts w (execute config is_retryable jitter quotient fn w)
  execute-Accounts w open_guard open_breaker =
      let loop =
        attempts config is_retryable jitter quotient fn config.retry_attempts 1 (entered w) in
      subst (Accounts w) (sym (execute-entered w open_guard open_breaker)) (
        conclude-Accounts w loop (attempts-Explains config.retry_attempts 1 (entered w))
          (attempts-Touches config.retry_attempts 1 (entered w)))
