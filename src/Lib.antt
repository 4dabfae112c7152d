-- ===== src/Lib.antt =====
-- A verification library for ChainMonitor: the protections of its calls to unreliable upstreams,
-- its scanner of trending tokens, the sources of its market ticks, the runs of its chain pipeline,
-- and its backtest.
--
-- Parts, and the code that they are about:
--
-- * Resilience (src/shared/resilience): CircuitBreaker, Backoff, RateLimiter and Retry stand for
--   circuit_breaker.py, backoff.py, rate_limiter.py and retry.py, each class a record and each
--   method a function from the object to the object that it leaves. Executor stands for
--   executor.py, which uses the four: `ResilientExecutor.execute` asks the guard and the breaker,
--   then calls under the limiter until a call returns, and records the outcome on both.
--   The Registry modules, and Executor.Construction, are about the tables through which objects
--   are shared by name: a table holds references to a store of objects.
-- * Scanner (src/scanner): Models, Detector, Cooldown, Events, SnapshotStore and Orchestrator stand
--   for models.py, detector.py, cooldown.py, events.py, snapshot_store.py and orchestrator.py.
--   A scan (`_run_chain`) is an action on the orchestrator's state that may raise; it fetches
--   tokens, checks some of them, lets the scorer detect signals, sends those that are not cooling,
--   publishes events and saves the snapshot. `run_cycle` is a loop of scans.
-- * Pipeline (src/app/services, src/shared/db, src/shared/schemas/pipeline.py): Runs and Tables
--   stand for shared/db/repository.py, each table a list of rows and each statement a function;
--   Schemas has the rows. Service stands for `run_claimed` of chain_pipeline_service.py, which
--   fetches, gates, scores and saves within time limits and marks the run; Claiming for `run_once`
--   and `replay`, which claim the run first; Scheduler for the due windows of chain_scheduler.py.
-- * Ingestion (src/ingestion): under resilience, CacheStore stands for cache_store.py, an
--   OrderedDict of responses in front of Redis, RetryPolicy for retry_policy.py, and HttpClient for
--   `ResilientHttpClient.get_json`, which looks into the cache and else asks the guard and the
--   breaker and then the server, until an attempt succeeds. SingleFlight stands for singleflight.py
--   and the tasks of `get_json` that share a request through it, as a relation of steps.
--   Sources stands for the sources of market ticks: Fallback for the chain that asks one source
--   after another (fallback/fallback_source_chain.py), Live for a source over a provider's adapter
--   (strategies/base_live_source_strategy.py) with the quality policy of contracts, Factory for the
--   making of a chain of the enabled sources (factory/source_strategy_factory.py).
-- * Pipeline.Features and Pipeline.Scoring stand for feature/feature_engine.py and
--   scoring/scoring_engine.py (under src), which a run of the pipeline calls and the backtest too.
-- * Backtest (src/backtest): Engine stands for engine.py, which makes ticks for each minute of a
--   period, scores them and trades on the scores; Costs for cost_model.py and Metrics for the
--   figures of the trades. Validator, Optimizer, Batch and Attribution stand for the files of those
--   names; Validator and Optimizer take the engine's run as an argument, Batch the outcome of a run
--   for each config.
-- * Config stands for src/shared/config/ingestion.py: how a limit of a chain and a provider is read
--   from the settings and their overrides.
-- * Prelude, Dict, Float and Signed: shared helpers, Python's dict with string keys, and the
--   interfaces of floats that the definitions are generic in. Examples evaluates the definitions at
--   concrete inputs.
--
-- Numbers. In Resilience, Pipeline and Ingestion a clock reading or a duration is a whole number of
-- nanoseconds (of minutes for the windows of the scheduler), a rate a whole number of billionths of
-- a token a second, and a count of tokens a whole multiple of 10^-18 of a token: the products of
-- the code are then exact, while its floats round them. In the scanner a time is in microseconds.
-- There, in the pipeline, the sources and the backtest, ratios and amounts are values of an
-- abstract type of floats; the scores of the scanner are integers. Counts do not overflow, as in
-- Python. Clock readings and random numbers are arguments, and so is what the limiter's float
-- division gives, with the time by which the sleep of that length ends late; a sleep does not end
-- early.
--
-- Loops. The loop of `acquire` has 100,001 rounds of fuel. Each round without a token sleeps a
-- millisecond or more, in which the least rate, a hundredth of a token a second, brings in a
-- hundred-thousandth of a token; so these are enough, whatever the division gives, when no other
-- task takes tokens meanwhile. The retry loop recurs on the attempts left. The loop of the
-- due windows has as fuel the minutes since the next window, and one, which is enough as each step
-- is a minute or more. The loop over the minutes of a backtest has as fuel the minutes of the
-- period's end since 1970, and one. All other loops are over lists.
--
-- Concurrency. The methods of a breaker, a guard or a bucket hold a lock, so a history of several
-- tasks is a sequence of steps; Conformance, HalfOpen and Invariant are about any such sequence,
-- and Pipeline.Runs.Claims about any sequence of statements of the database. Ingestion.SingleFlight
-- is about tasks that come, end, wake and are cancelled in any order.
-- `execute`, a scan and `run_claimed` are modelled as running alone; a transaction that outlives the
-- wait for it is committed in a step of its own. The update that marks a run as failed may take any
-- time, be rolled back, or be left to its thread by a cancellation.
--
-- Not modelled: HTTP, subprocesses, the database driver, JSON, logging, Prometheus metrics and the
-- formatting of messages; the adapters and strategies of the providers, the other settings, and the
-- backtest's service and reports.
pub mod Prelude
pub mod Dict
pub mod Float
pub mod Signed
pub mod Resilience
pub mod Scanner
pub mod Pipeline
pub mod Ingestion
pub mod Backtest
pub mod Config
mod Examples
