-- ===== src/Resilience/Retry.antt =====
-- src/shared/resilience/retry.py. The random jitter is an argument; times are whole nanoseconds.
use native.Mathlib.Nat.{pow-suc, mul-le-mul, le_refl}
use native.Mathlib.Numerals.{unary_clauses}
use chainmonitor.Prelude.{ℕ, zero, suc, ◌+◌, ◌-◌, ◌*◌, ◌^◌, ◌≤◌, min, arith}

-- The wait before the next attempt; `random.uniform(0.0, base_seconds)` gave `jitter`.
unfoldable pub retry_sleep_seconds : ℕ → ℕ → ℕ → ℕ → ℕ
retry_sleep_seconds jitter attempt base_seconds max_seconds =
    min max_seconds (base_seconds * 2 ^ (attempt - 1) + jitter)

pow_pos : (k : ℕ) → 1 ≤ 2 ^ k
pow_pos zero = omega arith
pow_pos (suc k) = rw pow-suc (omega (arith, pow_pos k))

doubled :
    (attempt base jitter : ℕ)
    → 1 ≤ attempt
    → jitter ≤ base
    → base * 2 ^ (attempt - 1) + jitter ≤ base * 2 ^ (attempt + 1 - 1)
doubled zero base jitter h j = absurd (omega arith)
doubled (suc k) base jitter h j =
    simp (unary_clauses, pow-suc) (omega (arith, mul-le-mul (le_refl base) (pow_pos k)))

-- The wait never passes the maximum, it is at most twice the base before the first retry, and
-- before a later one it is no shorter than before any one in front of it, whatever the jitters.
pub retry_sleep_bounds :
    (jitter other attempt base top : ℕ)
    → jitter ≤ base
    → 1 ≤ attempt
    → (retry_sleep_seconds jitter attempt base top ≤ top)
      × (retry_sleep_seconds jitter 1 base top ≤ 2 * base)
      × (retry_sleep_seconds jitter attempt base top
          ≤ retry_sleep_seconds other (attempt + 1) base top)
unfolding retry_sleep_seconds
retry_sleep_bounds jitter other attempt base top h first =
    (omega arith, omega arith, omega (arith, doubled attempt base jitter first h))
