-- ===== src/Resilience/RateLimiter.antt =====
-- src/shared/resilience/rate_limiter.py: `AsyncTokenBucket` and its registry.
--
-- Clock readings are whole nanoseconds, rates whole billionths of a token in a second, and token
-- counts whole multiples of 10^-18 of a token, so that `elapsed * rate_per_second` is exact. The
-- code's floats round these products; the model does not. `quotient` is the sleep that
-- `missing / rate_per_second` asks for, with the rounding of the float division and the time by
-- which the sleep ends late; nothing is known of it.
pub mod Conformance
pub mod Waiting
pub mod Registry
use chainmonitor.Prelude.{
  ℕ, zero, suc, ◌+◌, ◌-◌, ◌*◌, ◌/◌, ◌^◌, min, max, ap, not, Option, none, some, leb, if◌then◌else◌,
}

pub record AsyncTokenBucket : Type 0 where
  pub rate_per_second : ℕ
  pub capacity : ℕ
  pub tokens : ℕ
  pub last_refill : ℕ

-- One token.
abbrev pub token : ℕ
token = 1_000_000_000_000_000_000

-- `max(0.01, rate_per_second)`
abbrev pub normal_rate : ℕ → ℕ
normal_rate = max 10_000_000

unfoldable pub init : ℕ → ℕ → ℕ → AsyncTokenBucket
init now rate_per_second capacity = record {
  rate_per_second = normal_rate rate_per_second;
  capacity = max 1 capacity * token;
  tokens = max 1 capacity * token;
  last_refill = now;
}

-- The refill; `max(0.0, now - last_refill)` is the truncated subtraction.
unfoldable pub refill : ℕ → AsyncTokenBucket → AsyncTokenBucket
refill now b = record b {
  tokens = min b.capacity (b.tokens + (now - b.last_refill) * b.rate_per_second);
  last_refill = now;
}

module _ (quotient : ℕ → ℕ → ℕ) where
  -- At least a millisecond.
  unfoldable pub wait_seconds : AsyncTokenBucket → ℕ
  wait_seconds b = max 1_000_000 (quotient (token - b.tokens) b.rate_per_second)

  -- One round of the loop of `acquire`, under the lock: `none` is the return with a token taken,
  -- `some w` the sleep of `w` that follows when there is none.
  unfoldable pub take : ℕ → AsyncTokenBucket → Option ℕ × AsyncTokenBucket
  unfolding refill wait_seconds
  take now b =
      let b' = refill now b in
      if leb token b'.tokens
      then (none, record b' { tokens = b'.tokens - token })
      else (some (wait_seconds b'), b')

  -- The loop, when no other task takes tokens meanwhile; it returns the clock reading at its end.
  -- `none` is that the rounds ran out.
  unfoldable pub acquire_rounds : ℕ → ℕ → AsyncTokenBucket → Option (ℕ × AsyncTokenBucket)
  acquire_rounds zero now b = none
  acquire_rounds (suc rounds) now b =
      let (wait, b') = take now b in
      elim wait [ none ↦ some (now, b') | some w ↦ acquire_rounds rounds (now + w) b' ]

  -- `acquire`: a round without a token waits a millisecond at least, in which the least rate brings
  -- in a hundred-thousandth of a token (`Waiting`).
  unfoldable pub acquire : ℕ → AsyncTokenBucket → ℕ × AsyncTokenBucket
  acquire now b = elim (acquire_rounds 100_001 now b) [ none ↦ (now, b) | some r ↦ r ]
