-- ===== src/Resilience/RateLimiter/Waiting.antt =====
-- `acquire` returns, however its sleeps are rounded.
use chainmonitor.Prelude.{ℕ, ◌≤◌, ◌≡◌, some, arith}
use chainmonitor.Resilience.RateLimiter.{AsyncTokenBucket, token, init, take, acquire_rounds}

pub record IsValid (b : AsyncTokenBucket) : Type 0 where
  pub rate_pos : 10_000_000 ≤ b.rate_per_second
  pub room : token ≤ b.capacity
  pub within : b.tokens ≤ b.capacity

-- What the least rate brings in during the least wait.
abbrev gain : ℕ
gain = 10_000_000_000_000

pub init-IsValid : (now rate capacity : ℕ) → IsValid (init now rate capacity)
unfolding init
init-IsValid now rate capacity = ground arith

module _ (quotient : ℕ → ℕ → ℕ) where
  pub take-IsValid : (now : ℕ) (b : AsyncTokenBucket) → IsValid b → IsValid (take quotient now b).1
  unfolding take
  take-IsValid now b v = ground arith

  -- The loop returns with a token, no sooner than it began, and leaves a valid bucket.
  Returns : ℕ → ℕ → AsyncTokenBucket → Type 0
  Returns rounds now b =
      (r : ℕ × AsyncTokenBucket) × (acquire_rounds quotient rounds now b ≡ some r)
      × (now ≤ r.0)
      × IsValid r.1
