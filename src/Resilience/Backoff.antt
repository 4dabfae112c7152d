-- ===== src/Resilience/Backoff.antt =====
-- src/shared/resilience/backoff.py: `BackoffGuard` and its registry. Times are whole nanoseconds.
pub mod Blocking
pub mod Registry
use chainmonitor.Prelude.{ℕ, suc, ◌+◌, ◌-◌, ◌*◌, ◌/◌, min, max, Bool, leb}

pub record BackoffGuard : Type 0 where
  pub failure_streak : ℕ
  pub opened_until : ℕ

abbrev pub init : BackoffGuard
init = record { failure_streak = 0; opened_until = 0 }

-- 0.1 seconds
abbrev pub tenth : ℕ
tenth = 100_000_000

unfoldable pub allow_request : ℕ → BackoffGuard → Bool
allow_request now g = leb g.opened_until now

-- `max(0.0, opened_until - now)` is the truncated subtraction.
unfoldable pub remaining_blocked_seconds : ℕ → BackoffGuard → ℕ
remaining_blocked_seconds now g = g.opened_until - now

-- The time that the guard blocks for after the given number of failures in a row.
unfoldable pub cooldown : ℕ → ℕ → ℕ → ℕ
cooldown base_seconds max_seconds streak =
    min max_seconds (max tenth base_seconds * min 8 (max 1 streak))

unfoldable pub record_failure : ℕ → ℕ → ℕ → BackoffGuard → BackoffGuard
record_failure now base_seconds max_seconds g =
    let streak = g.failure_streak + 1 in
    record {
      failure_streak = streak;
      opened_until = max g.opened_until (now + cooldown base_seconds max_seconds streak);
    }

unfoldable pub record_success : BackoffGuard → BackoffGuard
record_success g = record { failure_streak = 0; opened_until = 0 }
