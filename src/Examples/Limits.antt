-- ===== src/Examples/Limits.antt =====
-- The rate limiter, the backoff guard and the retry times at concrete inputs.
use chainmonitor.Prelude.{ℕ, ◌+◌, ◌-◌, ◌*◌, ◌/◌, ◌≤◌, String, ◌≡◌, false, [], ◌∷◌, arith}
use chainmonitor.Resilience.Backoff
use chainmonitor.Resilience.Backoff.{allow_request, cooldown}
use chainmonitor.Resilience.Backoff.Blocking.{failures, failures_block}
use chainmonitor.Resilience.RateLimiter.{AsyncTokenBucket, token, init}
use chainmonitor.Resilience.RateLimiter.Conformance.{granted, granted-le}
use chainmonitor.Resilience.RateLimiter.Registry.{RateLimiterRegistry}

abbrev second : ℕ
second = 1_000_000_000

-- The division, rounded down.
abbrev quotient : ℕ → ℕ → ℕ
quotient missing rate = missing / rate

-- Two tokens a second, five at most: six rounds at once and one a second later.
granted-le_example :
    granted quotient (0 ∷ 0 ∷ 0 ∷ 0 ∷ 0 ∷ 0 ∷ second ∷ []) (init 0 (2 * second) 5) * token
    ≤ (init 0 (2 * second) 5).tokens
      + (second - (init 0 (2 * second) 5).last_refill) * (init 0 (2 * second) 5).rate_per_second
unfolding init
granted-le_example =
    granted-le quotient (0 ∷ 0 ∷ 0 ∷ 0 ∷ 0 ∷ 0 ∷ second ∷ []) second (init 0 (2 * second) 5)
      (omega arith)

-- A bucket at three tokens a second that is a third of a token short.
abbrev short : AsyncTokenBucket
short = record {
  rate_per_second = 3_000_000_000;
  capacity = token;
  tokens = 666_666_666_666_666_666;
  last_refill = 7;
}

failures_block_example :
    allow_request 2_500_000_000 (failures second (30 * second) (0 ∷ second ∷ []) Backoff.init)
    ≡ false
unfolding cooldown
failures_block_example =
    failures_block second (30 * second) second 2_500_000_000 (0 ∷ []) Backoff.init (omega arith)

abbrev as_is : String → String
as_is s = s

abbrev no_buckets : RateLimiterRegistry
no_buckets = record { objects = []; buckets = [] }
