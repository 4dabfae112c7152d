-- ===== src/Pipeline.antt =====
-- src/app/services and src/shared/db: the runs of the chain pipeline.
pub mod Runs
pub mod Schemas
pub mod Features
pub mod Scoring
pub mod Tables
pub mod Service
pub mod Claiming
pub mod Scheduler
