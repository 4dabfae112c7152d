-- ===== src/Resilience.antt =====
-- shared/resilience: the protections that stand between a caller and an unreliable upstream.
pub mod CircuitBreaker
pub mod Backoff
pub mod RateLimiter
pub mod Retry
pub mod Executor
