-- ===== src/Backtest.antt =====
-- src/backtest: runs of the strategy over past minutes, and what is made of their trades.
pub mod Schemas
pub mod Costs
pub mod Metrics
pub mod Engine
pub mod Validator
pub mod Optimizer
pub mod Batch
pub mod Attribution
