-- ===== src/Ingestion.antt =====
-- src/ingestion: the resilience of the ingestion clients.
pub mod CacheStore
pub mod SingleFlight
pub mod RetryPolicy
pub mod HttpClient
pub mod Sources
