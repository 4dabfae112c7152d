-- ===== src/Scanner.antt =====
-- scanner: trending tokens are fetched, filtered, scored and turned into signals.
pub mod Models
pub mod Detector
pub mod Cooldown
pub mod Events
pub mod SnapshotStore
pub mod Orchestrator
