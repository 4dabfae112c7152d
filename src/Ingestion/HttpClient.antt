-- ===== src/Ingestion/HttpClient.antt =====
-- src/ingestion/resilience/resilient_http_client.py: `ResilientHttpClient`.
--
-- The shared breaker, guard and bucket, the cache and the clock stand in `World`, with a count of
-- the requests that were sent. What the server and Redis answer are arguments. Times are whole
-- nanoseconds. One task uses the client at a time here; SingleFlight is about several.
pub mod Outcomes
pub mod Cached
use chainmonitor.Prelude.{
  ℕ, zero, suc, ◌+◌, ◌-◌, ◌*◌, ◌/◌, max, String, ap, Bool, not, ◌&&◌, ◌||◌, Option, none, some, ltb,
  leb, if◌then◌else◌, set,
}
use chainmonitor.Dict
use chainmonitor.Dict.{Dict}
use chainmonitor.Prelude.Int.{ℤ}
use chainmonitor.Resilience.CircuitBreaker
use chainmonitor.Resilience.CircuitBreaker.{AsyncCircuitBreaker}
use chainmonitor.Resilience.Backoff
use chainmonitor.Resilience.Backoff.{BackoffGuard}
use chainmonitor.Resilience.RateLimiter
use chainmonitor.Resilience.RateLimiter.{AsyncTokenBucket}
use chainmonitor.Ingestion.CacheStore
use chainmonitor.Ingestion.CacheStore.{ResponseCacheStore}
use chainmonitor.Ingestion.RetryPolicy.{
  Error, timeout, transport, parse, status_error, is_retryable_status, is_retryable_exception,
  retry_sleep_seconds,
}

pub record Settings : Type 0 where
  pub retry_attempts : ℕ
  pub retry_base_seconds : ℕ
  pub retry_max_sleep_seconds : ℕ

abbrev pub millisecond : ℕ
millisecond = 1_000_000

-- How `client.get(url)` goes: an answer with its status, its Retry-After header and its JSON object,
-- if the body is one; a timeout or another HTTP error; or an exception of another kind, such as the
-- cancellation of the task.
pub data Answer (P : Type 0) : Type 0 where
  responds : ℕ → Option ℤ → Option P → Answer P
  times_out breaks interrupts : Answer P

pub record Reply (P : Type 0) : Type 0 where
  pub took : ℕ
  pub answer : Answer P

pub record World (P : Type 0) : Type 0 where
  pub now : ℕ
  pub breaker : AsyncCircuitBreaker
  pub bucket : AsyncTokenBucket
  pub backoff_guard : BackoffGuard
  pub blocked_since_by_endpoint : Dict ℕ
  pub cache : ResponseCacheStore P
  pub requests : ℕ

-- What an attempt comes to: a payload, an exception that the loop catches, or one that it does not.
pub data Attempt (P : Type 0) : Type 0 where
  succeeds : P → Attempt P
  errs : Error → Attempt P
  escapes : Attempt P

pub data Result (P : Type 0) : Type 0 where
  returned : Option P → Result P
  interrupted : Result P

-- `raise_for_status` raises for every status that is not 2xx.
abbrev pub is_success : ℕ → Bool
is_success status = leb 200 status && ltb status 300

unfoldable pub json : {P : Type 0} → Option P → Attempt P
json none = errs parse
json (some payload) = succeeds payload

unfoldable pub attempt_of : {P : Type 0} → Answer P → Attempt P
unfolding json
attempt_of (responds status header body) =
    if is_retryable_status status
    then errs (status_error status header)
    else if not (is_success status)
    then errs (status_error status header)
    else json body
attempt_of times_out = errs timeout
attempt_of breaks = errs transport
attempt_of interrupts = escapes

-- `quotient` is that of the bucket.
module _ {P : Type 0} (settings : Settings) (jitter : ℕ → ℕ) (quotient : ℕ → ℕ → ℕ)
    (server : ℕ → Reply P) where
  -- The bounds that the constructor and the request put on the settings.
  abbrev pub backoff_base_seconds : ℕ
  backoff_base_seconds = max (100 * millisecond) settings.retry_base_seconds

  abbrev pub backoff_max_seconds : ℕ
  backoff_max_seconds = max (500 * millisecond) settings.retry_max_sleep_seconds

  -- `await self._bucket.acquire()` and `await client.get(url)`
  unfoldable pub send : ℕ → World P → World P
  send attempt w =
      let (later, bucket) = RateLimiter.acquire quotient w.now w.bucket in
      record w { now = later + (server attempt).took; bucket = bucket; requests = w.requests + 1 }

  unfoldable pub succeed : String → P → World P → World P
  succeed url payload w = record w {
    breaker = CircuitBreaker.record_success w.breaker;
    backoff_guard = Backoff.record_success w.backoff_guard;
    cache = CacheStore.set w.now url payload w.cache;
  }

  unfoldable pub fail : World P → World P
  fail w = record w {
    breaker = CircuitBreaker.record_failure w.now w.breaker;
    backoff_guard =
        Backoff.record_failure w.now backoff_base_seconds backoff_max_seconds w.backoff_guard;
  }

  unfoldable pub pause : Error → ℕ → World P → World P
  pause e attempt w = record w {
    now =
        w.now
        + retry_sleep_seconds e (jitter attempt)
            (max (50 * millisecond) settings.retry_base_seconds) attempt
            (max (50 * millisecond) settings.retry_max_sleep_seconds);
  }

  -- What follows an attempt; `retry` is the rest of the loop.
  unfoldable pub conclude :
      String → ℕ → World P → (Error → Result P × World P) → Attempt P → Result P × World P
  unfolding succeed fail
  conclude url attempt w retry (succeeds payload) = (returned (some payload), succeed url payload w)
  conclude url attempt w retry escapes = (interrupted, w)
  conclude url attempt w retry (errs e) =
      if not (is_retryable_exception e) || leb settings.retry_attempts attempt
      then (returned none, fail w)
      else retry e

  -- The attempts that are left, from the given one on.
  unfoldable pub attempts : String → ℕ → ℕ → World P → Result P × World P
  unfolding conclude send pause
  attempts url zero attempt w = (returned none, w)
  attempts url (suc left) attempt w =
      conclude url attempt (send attempt w)
        (λ e. attempts url left (attempt + 1) (pause e attempt (send attempt w)))
        (attempt_of (server attempt).answer)

  unfoldable pub record_circuit_blocked : String → World P → World P
  record_circuit_blocked endpoint w = record w {
    blocked_since_by_endpoint = Dict.put w.blocked_since_by_endpoint endpoint w.now;
  }

  unfoldable pub clear_circuit_blocked : String → World P → World P
  clear_circuit_blocked endpoint w = record w {
    blocked_since_by_endpoint = Dict.remove w.blocked_since_by_endpoint endpoint;
  }

  unfoldable pub request_json_uncached : String → String → World P → Result P × World P
  unfolding record_circuit_blocked clear_circuit_blocked
  request_json_uncached url endpoint w =
      if not (Backoff.allow_request w.now w.backoff_guard)
      then (returned none, record_circuit_blocked endpoint w)
      else let (allowed, breaker) = CircuitBreaker.allow_request w.now w.breaker in
        let w' = record w { breaker = breaker } in
        if not allowed
        then (returned none, record_circuit_blocked endpoint w')
        else attempts url settings.retry_attempts 1 (clear_circuit_blocked endpoint w')

  -- A miss goes on to the request, with the cache that the look-up leaves.
  unfoldable pub after_look_up :
      String → String → Option P × ResponseCacheStore P → World P → Result P × World P
  after_look_up url endpoint (some payload, cache) w =
      (returned (some payload), record w { cache = cache })
  after_look_up url endpoint (none, cache) w =
      request_json_uncached url endpoint (record w { cache = cache })

  -- `remote` is what Redis has.
  unfoldable pub get_json : Option P → String → String → World P → Result P × World P
  get_json remote url endpoint w =
      after_look_up url endpoint (CacheStore.get w.now remote url w.cache) w
