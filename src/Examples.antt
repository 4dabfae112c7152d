-- ===== src/Examples.antt =====
-- The theorems at concrete inputs, and runs of the definitions.
mod Breaker
mod Limits
mod Execution
mod Scoring
mod Scans
mod Runs
mod Caching
mod Requests
mod Sources
mod Signals
mod Trading
mod Configuration
