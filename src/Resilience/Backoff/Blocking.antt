-- ===== src/Resilience/Backoff/Blocking.antt =====
-- How long a guard blocks.
use native.Mathlib.Nat.{mul-le-mul, le_refl}
use chainmonitor.Prelude.{
  ℕ, ◌+◌, ◌≤◌, ◌<◌, min, max, ◌≡◌, refl, ◌↔◌, true, false, List, [], ◌∷◌, ◌++◌, arith, length,
}
use chainmonitor.Resilience.Backoff.{
  BackoffGuard, tenth, allow_request, remaining_blocked_seconds, cooldown, record_failure,
  record_success,
}

-- Failures in a row, at the given clock readings.
pub failures : ℕ → ℕ → List ℕ → BackoffGuard → BackoffGuard
failures base top [] g = g
failures base top (now ∷ times) g = failures base top times (record_failure now base top g)

-- The clock readings do not fall along the list, which starts no earlier than the first argument,
-- and end at the last argument.
abbrev pub Ascends : ℕ → List ℕ → ℕ → Type 0
Ascends start [] end = start ≤ end
Ascends start (t ∷ ts) end = (start ≤ t) × Ascends t ts end

-- A guard lets a request through exactly when it has no blocked time left.
pub allow_request_iff :
    (now : ℕ) (g : BackoffGuard)
    → (allow_request now g ≡ true) ↔ (remaining_blocked_seconds now g ≡ 0)
unfolding allow_request remaining_blocked_seconds
allow_request_iff now g = ground arith

-- The cooldown does not fall as the streak grows, never passes the maximum, and is at its largest
-- from the eighth failure on.
pub cooldown_mono :
    (base top m n : ℕ)
    → m ≤ n
    → (cooldown base top m ≤ cooldown base top n)
      × (cooldown base top n ≤ top)
      × (cooldown base top n ≤ cooldown base top 8)
unfolding cooldown
cooldown_mono base top m n h =
    let up : min 8 (max 1 m) ≤ min 8 (max 1 n) = omega arith in
    let below : min 8 (max 1 n) ≤ 8 = omega arith in
    (
      omega (arith, mul-le-mul (le_refl (max tenth base)) up),
      omega arith,
      omega (arith, mul-le-mul (le_refl (max tenth base)) below),
    )

streak-failures :
    (base top : ℕ) (times : List ℕ) (g : BackoffGuard)
    → (failures base top times g).failure_streak ≡ g.failure_streak + length times
unfolding failures record_failure
streak-failures base top [] g = omega arith
streak-failures base top (now ∷ times) g =
    omega (arith, streak-failures base top times (record_failure now base top g))

cooldown-le : (base top n : ℕ) → cooldown base top n ≤ top
unfolding cooldown
cooldown-le base top n = omega arith

failures-within :
    (base top start end : ℕ) (times : List ℕ) (g : BackoffGuard)
    → Ascends start times end
    → g.opened_until ≤ start + top
    → (failures base top times g).opened_until ≤ end + top
unfolding failures record_failure
failures-within base top start end [] g a h = omega arith
failures-within base top start end (t ∷ times) g (a, b) h =
    failures-within base top t end times (record_failure t base top g) b
      (omega (arith, cooldown-le base top (g.failure_streak + 1)))

failures-append :
    (base top now : ℕ) (times : List ℕ) (g : BackoffGuard)
    → failures base top (times ++ now ∷ []) g
      ≡ record_failure now base top (failures base top times g)
unfolding failures
failures-append base top now [] g = refl
failures-append base top now (t ∷ times) g =
    failures-append base top now times (record_failure t base top g)

-- After `times` failures in a row and one more at `now`, the guard refuses every request in the
-- cooldown of that many failures.
pub failures_block :
    (base top now t : ℕ) (times : List ℕ) (g : BackoffGuard)
    → t < now + cooldown base top (g.failure_streak + length times + 1)
    → allow_request t (failures base top (times ++ now ∷ []) g) ≡ false
failures_block base top now t times g h =
    rw (failures-append base top now times g)
      (unfold allow_request record_failure in ground (arith, streak-failures base top times g))

-- However many failures there were, once `max_seconds` have passed since the last one at `now` the
-- guard lets every request through, if it was not blocked for longer than that at the start.
pub failures_expire :
    (base top now t start : ℕ) (times : List ℕ) (g : BackoffGuard)
    → Ascends start times now
    → g.opened_until ≤ start + top
    → now + top ≤ t
    → allow_request t (failures base top (times ++ now ∷ []) g) ≡ true
failures_expire base top now t start times g a h late = rw (failures-append base top now times g) (
    unfold allow_request record_failure in
    ground (
      arith,
      cooldown-le base top ((failures base top times g).failure_streak + 1),
      failures-within base top start now times g a h,
    ))

-- A success lets every later request through, and the next failure blocks for no more than a first
-- failure does.
pub record_success-reset :
    (now t base top : ℕ) (g : BackoffGuard)
    → (allow_request t (record_success g) ≡ true)
      × ((record_failure now base top (record_success g)).opened_until ≡ now + cooldown base top 1)
unfolding allow_request record_success record_failure
record_success-reset now t base top g = ground arith
