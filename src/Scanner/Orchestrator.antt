-- ===== src/Scanner/Orchestrator.antt =====
-- src/scanner/orchestrator.py: `ScannerOrchestrator`.
--
-- A method is an action that changes `Scanner` and ends in a value or in an exception. What is
-- outside comes from an `Environment`: the clock, the client and the notifier. Its answers may
-- depend on how often the clock was read before; durations are in microseconds.
pub mod Actions
pub mod Chain
pub mod Security
pub mod Cycle
pub mod Silence
