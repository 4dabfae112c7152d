-- ===== src/Ingestion/HttpClient/Outcomes.antt =====
-- What a request leaves on the breaker, the guard and the cache.
use chainmonitor.Prelude.{
  ℕ, zero, suc, ◌+◌, ◌≤◌, ◌<◌, String, ◌≡◌, refl, Bool, true, false, not, ◌&&◌, ◌||◌, none, some,
  arith, leb, if_holds,
}
use chainmonitor.Resilience.CircuitBreaker
use chainmonitor.Resilience.Backoff
use chainmonitor.Ingestion.CacheStore
use chainmonitor.Ingestion.RetryPolicy.{Error, is_retryable_exception}
use chainmonitor.Ingestion.HttpClient.{
  Settings, Reply, World, Attempt, succeeds, errs, escapes, Result, returned, interrupted,
  attempt_of, backoff_base_seconds, backoff_max_seconds, send, succeed, fail, pause, conclude,
  attempts, record_circuit_blocked, clear_circuit_blocked, request_json_uncached,
}

retries_left :
    (most n left : ℕ) (retryable : Bool)
    → n + left ≡ most
    → (not retryable || leb most n) ≡ false
    → 1 ≤ left
retries_left most n left retryable count more = ground arith

module _ {P : Type 0} (settings : Settings) (jitter : ℕ → ℕ) (quotient : ℕ → ℕ → ℕ)
    (server : ℕ → Reply P) where
  -- What a result says of the world before the attempts and after: a payload comes with one success
  -- recorded on the breaker and the guard and is in the cache; no payload comes with one failure
  -- recorded on both, and the cache as it was; an exception that is not caught records nothing.
  abbrev pub Settled : String → World P → Result P → World P → Type 0
  Settled url w (returned (some payload)) w' =
      (w'.breaker ≡ CircuitBreaker.record_success w.breaker)
      × (w'.backoff_guard ≡ Backoff.record_success w.backoff_guard)
      × (w'.cache ≡ CacheStore.set w'.now url payload w.cache)
  Settled url w (returned none) w' =
      (w'.breaker ≡ CircuitBreaker.record_failure w'.now w.breaker)
      × (w'.backoff_guard
          ≡ Backoff.record_failure w'.now (backoff_base_seconds settings jitter quotient server)
              (backoff_max_seconds settings jitter quotient server) w.backoff_guard)
      × (w'.cache ≡ w.cache)
  Settled url w interrupted w' =
      (w'.breaker ≡ w.breaker) × (w'.backoff_guard ≡ w.backoff_guard) × (w'.cache ≡ w.cache)

  -- And at least one request was sent, and at most as many as there were attempts left.
  abbrev Accounts : String → ℕ → World P → Result P × World P → Type 0
  Accounts url left w (r, w') =
      Settled url w r w' × (w.requests < w'.requests) × (w'.requests ≤ w.requests + left)

  Accounts-later :
      (url : String) (left n : ℕ) (e : Error) (w : World P) (r : Result P) (w' : World P)
      → Accounts url left
          (pause settings jitter quotient server e n (send settings jitter quotient server n w))
          (r, w')
      → Accounts url (suc left) w (r, w')
  unfolding pause send
  Accounts-later url left n e w (returned (some p)) w' (h, sent, few) =
      (h, omega (arith, sent), omega (arith, few))
  Accounts-later url left n e w (returned none) w' (h, sent, few) =
      (h, omega (arith, sent), omega (arith, few))
  Accounts-later url left n e w interrupted w' (h, sent, few) =
      (h, omega (arith, sent), omega (arith, few))

  conclude-Accounts :
      (url : String) (left n : ℕ) (w : World P) (retry : Error → Result P × World P) (a : Attempt P)
      → n + left ≡ settings.retry_attempts
      → ((e : Error)
          → 1 ≤ left
          → Accounts url left
              (pause settings jitter quotient server e n (send settings jitter quotient server n w))
              (retry e))
      → Accounts url (suc left) w (
          conclude settings jitter quotient server url n
            (send settings jitter quotient server n w)
            retry
            a)
  unfolding conclude succeed send
  conclude-Accounts url left n w retry (succeeds p) count later =
      ((refl, refl, refl), omega arith, omega arith)
  conclude-Accounts url left n w retry escapes count later =
      ((refl, refl, refl), omega arith, omega arith)
  conclude-Accounts url left n w retry (errs e) count later =
      if_holds (Accounts url (suc left) w)
        (not (is_retryable_exception e) || leb settings.retry_attempts n)
        (λ last. unfold fail in ((refl, refl, refl), omega arith, omega arith))
        (λ more. Accounts-later url left n e w (retry e).0 (retry e).1 (
          later e
            (retries_left settings.retry_attempts n left (is_retryable_exception e) count more)))

  attempts-Accounts :
      (url : String) (left n : ℕ) (w : World P)
      → n + left ≡ settings.retry_attempts + 1
      → 1 ≤ left
      → Accounts url left w (attempts settings jitter quotient server url left n w)
  unfolding attempts
  attempts-Accounts url zero n w count some_left = absurd (omega arith)
  attempts-Accounts url (suc left) n w count some_left =
      conclude-Accounts url left n w
        (λ e.
          attempts settings jitter quotient server url left (n + 1)
            (pause settings jitter quotient server e n (send settings jitter quotient server n w)))
        (attempt_of (server n).answer) (omega arith)
        (λ e some_more. attempts-Accounts url left (n + 1) _ (omega arith) some_more)

  -- The note of the block that is cleared is no part of what a result says.
  counted-Settled :
      (url endpoint : String) (w : World P) (b : CircuitBreaker.AsyncCircuitBreaker) (left : ℕ)
      (x : Result P × World P)
      → Accounts url left
          (clear_circuit_blocked settings jitter quotient server endpoint
            (record w { breaker = b }))
          x
      → Settled url (record w { breaker = b }) x.0 x.1
        × (w.requests < x.1.requests)
        × (x.1.requests ≤ w.requests + left)
  unfolding clear_circuit_blocked
  counted-Settled url endpoint w b left (returned (some p), w') h = h
  counted-Settled url endpoint w b left (returned none, w') h = h
  counted-Settled url endpoint w b left (interrupted, w') h = h

  -- Where the guard and the breaker let a request through and at least one attempt is configured,
  -- between one and `retry_attempts` requests are sent, and the breaker that counted the request, the
  -- guard and the cache are settled by the result: a payload records one success on each and is
  -- cached, no payload records one failure on each and leaves the cache alone. Only an exception
  -- that the loop does not catch records nothing.
  pub request-settles :
      (url endpoint : String) (w : World P)
      → 1 ≤ settings.retry_attempts
      → Backoff.allow_request w.now w.backoff_guard ≡ true
      → (CircuitBreaker.allow_request w.now w.breaker).0 ≡ true
      → let counted = record w { breaker = (CircuitBreaker.allow_request w.now w.breaker).1 } in
        let (r, w') = request_json_uncached settings jitter quotient server url endpoint w in
        Settled url counted r w'
        × (w.requests < w'.requests)
        × (w'.requests ≤ w.requests + settings.retry_attempts)
  unfolding request_json_uncached
  request-settles url endpoint w some_attempt g b =
      rw (g, b)
        (counted-Settled url endpoint w (CircuitBreaker.allow_request w.now w.breaker).1
          settings.retry_attempts _
          (attempts-Accounts url settings.retry_attempts 1
            (clear_circuit_blocked settings jitter quotient server endpoint
              (record w { breaker = (CircuitBreaker.allow_request w.now w.breaker).1 }))
            (omega arith) some_attempt))

  -- Where the guard or the breaker refuses, no request is sent, the result is `None`, and only the
  -- breaker's own `allow_request` and the time of the block are noted.
  pub request-refused :
      (url endpoint : String) (w : World P)
      → Backoff.allow_request w.now w.backoff_guard
          && (CircuitBreaker.allow_request w.now w.breaker).0
        ≡ false
      → let (r, w') = request_json_uncached settings jitter quotient server url endpoint w in
        (r ≡ returned none)
        × (w'.requests ≡ w.requests)
        × (w'.bucket ≡ w.bucket)
        × (w'.cache ≡ w.cache)
        × (w'.backoff_guard ≡ w.backoff_guard)
  unfolding request_json_uncached record_circuit_blocked
  request-refused url endpoint w refused = ground (arith, refused)
