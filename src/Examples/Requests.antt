-- ===== src/Examples/Requests.antt =====
-- Requests that share a fetch, and requests over the protections, at concrete inputs.
use chainmonitor.Prelude.{
  ℕ, zero, suc, ◌+◌, ◌/◌, ◌≤◌, ◌<◌, String, ◌≡◌, refl, ◌⊎◌, none, some, [], arith, get_elem?,
}
use chainmonitor.Dict
use chainmonitor.Resilience.CircuitBreaker
use chainmonitor.Resilience.Backoff
use chainmonitor.Resilience.RateLimiter
use chainmonitor.Ingestion.CacheStore
use chainmonitor.Ingestion.SingleFlight.{
  acquire, System, waiting, ended, leading, init, join, settle, cancel, set_result, Reach, here,
  next, joins, settles,
}
use chainmonitor.Ingestion.SingleFlight.Leaders.{leader_at, one_leader}
use chainmonitor.Ingestion.SingleFlight.Waiters.{waiter_served}
use chainmonitor.Ingestion.SingleFlight.Spreads.{cancel_spreads}
use chainmonitor.Ingestion.RetryPolicy.{is_retryable_exception}
use chainmonitor.Ingestion.HttpClient.{
  after_look_up, attempts, attempt_of, Settings, Reply, World, returned, responds,
  request_json_uncached, get_json,
}
use chainmonitor.Ingestion.HttpClient.Outcomes.{Settled, request-settles}
use chainmonitor.Ingestion.HttpClient.Cached.{get_json_again}

-- Three tasks ask for "a", one for "b": the first and the last lead.
abbrev crowd : System ℕ
crowd = join "b" (join "a" (join "a" (join "a" init)))

crowd-reached : Reach 0 init crowd
crowd-reached =
    next (next (next (next here (joins "a" refl)) (joins "a" refl)) (joins "a" refl))
      (joins "b" refl)

-- The first one's request has answered.
abbrev answered : System ℕ
answered = settle 0 "a" 0 7 crowd

answered-reached : Reach 0 init answered
unfolding join acquire Dict.get Dict.put
answered-reached = next crowd-reached (settles 0 "a" 0 7 refl refl)

one_leader_example : ◌≡◌ {A = ℕ} 0 0
unfolding join acquire settle set_result Dict.get Dict.put leader_at
one_leader_example = one_leader 0 "a" 0 0 0 0 answered-reached refl refl

waiter_served_example :
    ((r : ℕ) × (get_elem? answered.group.futures 0 ≡ some (some r)))
    ⊎ ((j : ℕ) × (k : String) × (get_elem? answered.tasks j ≡ some (leading k 0)))
unfolding join acquire settle set_result Dict.get Dict.put
waiter_served_example = waiter_served 0 1 0 answered-reached refl

-- The second task is cancelled, and then the first one's request answers.
abbrev too_late : System ℕ
too_late = settle 0 "a" 0 7 (cancel 0 1 0 crowd)

cancel_spreads_example :
    (get_elem? too_late.group.futures 0 ≡ some (some 0))
    × ((get_elem? too_late.tasks 2 ≡ some (waiting 0))
        ⊎ (get_elem? too_late.tasks 2 ≡ some (ended 0)))
unfolding join acquire cancel set_result Dict.get Dict.put
cancel_spreads_example =
    cancel_spreads 0 2 0 1 crowd too_late refl refl (λ e. ground (arith, e)) refl
      (next here (settles 0 "a" 0 7 refl refl))

-- The first answer is a 503, the second a payload.
abbrev settings : Settings
settings = record { retry_attempts = 3; retry_base_seconds = 0; retry_max_sleep_seconds = 0 }

abbrev server : ℕ → Reply ℕ
server (suc zero) = record { took = 5; answer = responds 503 none none }
server _ = record { took = 5; answer = responds 200 none (some 7) }

abbrev world : World ℕ
world = record {
  now = 10;
  breaker = CircuitBreaker.init 5 60_000_000_000 1;
  bucket = RateLimiter.init 10 1 20;
  backoff_guard = Backoff.init;
  blocked_since_by_endpoint = [];
  cache = CacheStore.init 100 2;
  requests = 0;
}

-- The guard blocks until 20.
abbrev blocked : World ℕ
blocked = record world { backoff_guard = record { failure_streak = 1; opened_until = 20 } }

abbrev jitter : ℕ → ℕ
jitter _ = 0

abbrev quotient : ℕ → ℕ → ℕ
quotient missing rate = missing / rate + 1

abbrev counted : World ℕ
counted = record world { breaker = (CircuitBreaker.allow_request 10 world.breaker).1 }

request-settles_example :
    let (r, w') = request_json_uncached settings jitter quotient server "a" "e" world in
    Settled settings jitter quotient server "a" counted r w' × (0 < w'.requests) × (w'.requests ≤ 3)
unfolding Backoff.allow_request CircuitBreaker.allow_request CircuitBreaker.init
request-settles_example =
    request-settles settings jitter quotient server "a" "e" world (omega arith) refl refl

abbrev fetched : World ℕ
fetched = (get_json settings jitter quotient server none "a" "e" world).1

-- Later, the guard blocks.
abbrev refusing : World ℕ
refusing = record fetched {
  now = 60;
  backoff_guard = record { failure_streak = 1; opened_until = 90 };
}

get_json_again_example :
    let (r, w'') = get_json settings jitter quotient server none "a" "e" refusing in
    (r ≡ returned (some 7))
    × (w''.requests ≡ refusing.requests)
    × (w''.bucket ≡ refusing.bucket)
    × (w''.breaker ≡ refusing.breaker)
    × (w''.backoff_guard ≡ refusing.backoff_guard)
unfolding CacheStore.init CacheStore.get Dict.get get_json after_look_up request_json_uncached
    Backoff.allow_request CircuitBreaker.allow_request CircuitBreaker.init attempts attempt_of
    is_retryable_exception
get_json_again_example =
    get_json_again settings jitter quotient server none none "a" "e" world fetched refusing 7
      (omega arith) (omega arith) (omega arith) refl refl refl (omega arith)
