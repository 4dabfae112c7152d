-- ===== src/Ingestion/RetryPolicy.antt =====
-- src/ingestion/resilience/retry_policy.py. Times are whole nanoseconds.
use chainmonitor.Prelude.{
  ℕ, zero, suc, ◌+◌, ◌-◌, ◌*◌, ◌^◌, min, Bool, true, false, ◌&&◌, ◌||◌, Option, none, some, leb,
  ◌==◌, if◌then◌else◌,
}
use chainmonitor.Prelude.Int.{ℤ, pos, negsuc}

-- What the client may raise: a timeout, an answer with an error status and its Retry-After header
-- as it is read, if it is there and can be read, any other HTTP error, and a `ValueError`.
pub data Error : Type 0 where
  timeout transport parse : Error
  status_error : ℕ → Option ℤ → Error

pub data Reason : Type 0 where
  timed_out rate_limited upstream_5xx transport_error parse_error : Reason
  http : ℕ → Reason

-- `code in {429, 500, 502, 503, 504}`
abbrev pub is_retryable_status : ℕ → Bool
is_retryable_status code =
    (code == 429) || ((code == 500) || ((code == 502) || ((code == 503) || (code == 504))))

unfoldable pub is_retryable_exception : Error → Bool
is_retryable_exception timeout = true
is_retryable_exception (status_error code header) = is_retryable_status code
is_retryable_exception transport = true
is_retryable_exception parse = false

unfoldable pub error_reason : Error → Reason
error_reason timeout = timed_out
error_reason (status_error code header) =
    if code == 429
    then rate_limited
    else if leb 500 code && leb code 599
    then upstream_5xx
    else http code
error_reason transport = transport_error
error_reason parse = parse_error

-- The value of the header; one that is not positive is none.
unfoldable pub retry_after_seconds : Option ℤ → Option ℕ
retry_after_seconds none = none
retry_after_seconds (some (pos zero)) = none
retry_after_seconds (some (pos (suc n))) = some (suc n)
retry_after_seconds (some (negsuc n)) = none

-- The header counts only with the status 429.
unfoldable pub header_of : Error → Option ℕ
unfolding retry_after_seconds
header_of (status_error code header) = if code == 429 then retry_after_seconds header else none
header_of _ = none

-- `random.uniform(0.0, base_backoff)` gave `jitter`.
unfoldable pub retry_sleep_seconds : Error → ℕ → ℕ → ℕ → ℕ → ℕ
unfolding header_of
retry_sleep_seconds e jitter base_backoff attempt max_sleep_seconds = elim (header_of e) [
  | some after ↦ min max_sleep_seconds after
  | none ↦ min max_sleep_seconds (base_backoff * 2 ^ (attempt - 1) + jitter)
]
