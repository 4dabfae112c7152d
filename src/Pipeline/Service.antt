-- ===== src/Pipeline/Service.antt =====
-- src/app/services/chain_pipeline_service.py: `ChainPipelineService.run_claimed`.
--
-- The market source, the engines and what the database takes for a transaction come from
-- `Components`, and so does how the update that marks the run as failed goes; `perf_counter()` and
-- the wall clock are the one clock `now`, in nanoseconds. The two engines are objects of the
-- component registry, which a caller may replace. Metrics and logging are left out.
pub mod Outcomes
pub mod Deadline
use chainmonitor.Prelude.{
  ℕ, suc, ◌+◌, ◌-◌, ◌*◌, ◌/◌, min, max, String, ap, Bool, false, not, ◌&&◌, Option, none, some,
  List, [], ◌∷◌, ltb, leb, if◌then◌else◌, length, set, sum,
}
use chainmonitor.Float.{Float}
use chainmonitor.Pipeline.Schemas.{MarketTickInput, FeatureRowInput, ScoreRowInput}
use chainmonitor.Pipeline.Tables
use chainmonitor.Pipeline.Tables.{Tables, is_candidate}
use chainmonitor.Pipeline.Runs
use chainmonitor.Pipeline.Runs.{
  PipelineRun, Window, Status, success, failed, ErrorMessage, Update, mark_pipeline_run_status,
}

-- `asyncio.CancelledError`, `TimeoutError`, `IngestionFetchError` with its reason and trace, and
-- any other exception, with its type and text.
pub data Error : Type 0 where
  cancelled timeout_error : Error
  fetch_error : String → String → Error
  other : String → Error

pub data Outcome (A : Type 0) : Type 0 where
  gives : A → Outcome A
  fails : Error → Outcome A

-- How a stage goes that nothing stops: after which time it ends, and how.
pub record Reply (A : Type 0) : Type 0 where
  pub took : ℕ
  pub outcome : Outcome A

-- How a transaction in a thread goes: after which time it ends, with which exception if it is rolled back,
-- and when the task that awaits it is cancelled, if it is.
pub record Transaction : Type 0 where
  pub took : ℕ
  pub rolled_back : Option Error
  pub cancelled_after : Option ℕ

abbrev pub second : ℕ
second = 1_000_000_000

module _ (float : Float) where
  open float use {F, le}

  pub record PipelineSettings : Type 0 where
    pub run_timeout_seconds : ℕ
    pub fetch_timeout_seconds : ℕ
    pub feature_timeout_seconds : ℕ
    pub score_timeout_seconds : ℕ
    pub persist_timeout_seconds : ℕ
    pub min_liquidity_usd : F
    pub min_volume_5m_usd : F
    pub min_tx_1m : ℕ

  pub record Components : Type 0 where
    pub fetch_market_ticks : ℕ → Reply (List (MarketTickInput F))
    pub build_features : List (MarketTickInput F) → Reply (List (FeatureRowInput F))
    pub score :
        List (MarketTickInput F)
        → List (FeatureRowInput F)
        → String
        → Reply (List (ScoreRowInput F))
    pub transaction : Transaction
    pub marking : Transaction

  pub record World : Type 0 where
    pub now : ℕ
    pub runs : List PipelineRun
    pub tables : Tables float

  -- What the first stages give.
  pub record Prepared : Type 0 where
    pub ticks : List (MarketTickInput F)
    pub features : List (FeatureRowInput F)
    pub scores : List (ScoreRowInput F)

  pub record PipelineRunSummary : Type 0 where
    pub run_id : String
    pub window : Window
    pub tick_count : ℕ
    pub candidate_count : ℕ
    pub trigger : String

  pub data Result : Type 0 where
    returned : PipelineRunSummary → Result
    raised : Error → Result

-- `none` is the exception, when nothing remains.
unfoldable pub bounded_timeout : ℕ → ℕ → ℕ → Option ℕ
bounded_timeout stage_timeout deadline now =
    if leb deadline now then none else some (max (second / 2) (min stage_timeout (deadline - now)))

-- `asyncio.wait_for`: the outcome and the clock at its end.
unfoldable pub wait_for : {A : Type 0} → ℕ → Reply A → ℕ → Outcome A × ℕ
wait_for timeout reply now =
    if ltb timeout reply.took
    then (fails timeout_error, now + timeout)
    else (reply.outcome, now + reply.took)

unfoldable pub stage : {A : Type 0} → ℕ → ℕ → Reply A → ℕ → Outcome A × ℕ
unfolding bounded_timeout wait_for
stage stage_timeout deadline reply now = elim (bounded_timeout stage_timeout deadline now) [
  | none ↦ (fails timeout_error, now)
  | some timeout ↦ wait_for timeout reply now
]

-- The stage, and what follows when it gives a value.
abbrev pub follow : {A B : Type 0} → (A → ℕ → Outcome B × ℕ) → Outcome A × ℕ → Outcome B × ℕ
follow next (gives a, now) = next a now
follow next (fails e, now) = (fails e, now)

-- The message of a run that fails before it is persisted.
unfoldable pub prepare_message : Error → ErrorMessage
prepare_message cancelled = ErrorMessage.cancelled
prepare_message timeout_error = ErrorMessage.timeout
prepare_message (fetch_error reason trace) = ErrorMessage.ingestion reason trace
prepare_message (other text) = ErrorMessage.prepare text

unfoldable pub persist_message : Error → ErrorMessage
persist_message cancelled = ErrorMessage.cancelled
persist_message timeout_error = ErrorMessage.persist_timeout
persist_message (fetch_error reason trace) = ErrorMessage.persist reason
persist_message (other text) = ErrorMessage.persist text

module _ (float : Float) (settings : PipelineSettings float) where
  open float use {F, le}

  unfoldable pub apply_gate : List (MarketTickInput F) → List (MarketTickInput F)
  apply_gate [] = []
  apply_gate (t ∷ ts) =
      let rest = apply_gate ts in
      if le settings.min_liquidity_usd t.liquidity_usd
        && (le settings.min_volume_5m_usd t.volume_5m && leb settings.min_tx_1m t.tx_count_1m)
      then t ∷ rest
      else rest

  unfoldable pub candidate_count : List (ScoreRowInput F) → ℕ
  candidate_count [] = 0
  candidate_count (s ∷ ss) = (if is_candidate float s.tier then 1 else 0) + candidate_count ss

  module _ (parts : Components float) (w : Window) (run_id trigger : String) where
    -- The deadline of a run that starts at the given time.
    abbrev pub deadline_of : ℕ → ℕ
    deadline_of started_at = started_at + max (5 * second) settings.run_timeout_seconds

    unfoldable scored_at :
        List (MarketTickInput F)
        → List (FeatureRowInput F)
        → List (ScoreRowInput F)
        → ℕ
        → Outcome (Prepared float) × ℕ
    scored_at ticks features scores now =
        (gives (record { ticks = ticks; features = features; scores = scores }), now)

    unfoldable featured_at :
        ℕ → List (MarketTickInput F) → List (FeatureRowInput F) → ℕ → Outcome (Prepared float) × ℕ
    unfolding scored_at
    featured_at deadline ticks features now = follow (scored_at ticks features) (
        stage (max second settings.score_timeout_seconds) deadline
          (parts.score ticks features w.strategy_version) now)

    unfoldable fetched_at : ℕ → List (MarketTickInput F) → ℕ → Outcome (Prepared float) × ℕ
    unfolding featured_at
    fetched_at deadline fetched now =
        let ticks = apply_gate fetched in
        follow (featured_at deadline ticks) (
          stage (max second settings.feature_timeout_seconds) deadline (parts.build_features ticks)
            now)

    -- The first `try`, up to the scores.
    unfoldable pub prepare : ℕ → ℕ → Outcome (Prepared float) × ℕ
    unfolding fetched_at
    prepare deadline now = follow (fetched_at deadline) (
        stage (max second settings.fetch_timeout_seconds) deadline
          (parts.fetch_market_ticks w.ts_minute) now)

    -- Whether the task is cancelled before the given time has passed.
    abbrev pub is_cancelled : Option ℕ → ℕ → Bool
    is_cancelled none time = false
    is_cancelled (some c) time = ltb c time

    abbrev pub cancel_time : Option ℕ → ℕ
    cancel_time none = 0
    cancel_time (some c) = c

    -- What is left to be committed when the task stops waiting.
    abbrev pub left_over : {A : Type 0} → A → Option Error → Option A
    left_over a none = some a
    left_over a (some e) = none

    -- The update that marks the run as failed.
    abbrev pub failure : ℕ → ErrorMessage → ℕ → Update
    failure tick_count message now = record {
      status = failed;
      ended_at = now;
      tick_count = tick_count;
      candidate_count = 0;
      error_message = some message;
    }

    -- The update in a thread, which is awaited: the exception that it raises, if any.
    unfoldable pub mark_failed : ℕ → ErrorMessage → World float → Option Error × World float
    mark_failed tick_count message s =
        let m = parts.marking in
        if is_cancelled m.cancelled_after m.took
        then (some cancelled, record s { now = s.now + cancel_time m.cancelled_after })
        else elim m.rolled_back [
          | some e ↦ (some e, record s { now = s.now + m.took })
          | none ↦ (
            none,
            record s {
              now = s.now + m.took;
              runs =
                  (mark_pipeline_run_status w (some run_id) (failure tick_count message s.now)
                    s.runs).1;
            },
          )
        ]

    -- The update of a cancelled `mark_failed`, which its thread still makes.
    abbrev pub late_update : Update → Option Update
    late_update u =
        let m = parts.marking in
        if is_cancelled m.cancelled_after m.took then left_over u m.rolled_back else none

    -- The transaction, when it is committed.
    unfoldable pub persist_success : Prepared float → World float → Bool × World float
    persist_success p s =
        let tables = Tables.save_scores_and_candidates float p.scores (
          Tables.save_features float p.features
            (Tables.save_market_ticks float p.ticks s.tables)) in
        let (found, runs) =
          mark_pipeline_run_status w (some run_id)
            (record {
              status = success;
              ended_at = s.now;
              tick_count = length p.ticks;
              candidate_count = candidate_count p.scores;
              error_message = none;
            })
            s.runs in
        (found, record s { runs = runs; tables = tables })

    abbrev pub summary : Prepared float → PipelineRunSummary float
    summary p = record {
      run_id = run_id;
      window = w;
      tick_count = length p.ticks;
      candidate_count = candidate_count p.scores;
      trigger = trigger;
    }

    -- What a run leaves: its result, the world, and what is still to be committed, by a thread that
    -- nothing stops and nobody awaits any more: the data of the transaction, and the update that
    -- marks the run as failed.
    pub record Ending : Type 0 where
      pub result : Result float
      pub world : World float
      pub pending : Option (Prepared float)
      pub unmarked : Option Update

    -- The exception that leaves an `except` branch.
    abbrev pub propagated : Error → Option Error → Error
    propagated e none = e
    propagated e (some m) = m

    -- An `except` branch: the run is marked, and the exception raised again.
    unfoldable pub fail_with :
        ℕ → Error → ErrorMessage → Option (Prepared float) → World float → Ending
    fail_with tick_count e message pending s =
        let (raises, s') = mark_failed tick_count message s in
        record {
          result = raised (propagated e raises);
          world = s';
          pending = pending;
          unmarked = late_update (failure tick_count message s.now);
        }

    -- The end of the transaction within its timeout.
    unfoldable pub finish : Prepared float → Option Error → World float → Ending
    unfolding persist_success
    finish p (some e) s = fail_with (length p.ticks) e (persist_message e) none s
    finish p none s = record {
      result = returned (summary p);
      world = (persist_success p s).1;
      pending = none;
      unmarked = none;
    }

    -- The second `try`, once its timeout is known.
    unfoldable pub await_transaction : Prepared float → ℕ → World float → Ending
    await_transaction p timeout s =
        let t = parts.transaction in
        let later = λ (time : ℕ). record s { now = s.now + time } in
        let cut = λ (e : Error) (time : ℕ).
          fail_with (length p.ticks) e (persist_message e) (left_over p t.rolled_back)
            (later time) in
        if is_cancelled t.cancelled_after (min timeout t.took)
        then cut cancelled (cancel_time t.cancelled_after)
        else if ltb timeout t.took
        then cut timeout_error timeout
        else finish p t.rolled_back (later t.took)

    unfoldable pub persist : ℕ → Prepared float → World float → Ending
    persist deadline p s =
        elim (bounded_timeout (max second settings.persist_timeout_seconds) deadline s.now) [
          | none ↦ fail_with (length p.ticks) timeout_error ErrorMessage.persist_timeout none s
          | some timeout ↦ await_transaction p timeout s
        ]

    abbrev pub conclude : ℕ → World float → Outcome (Prepared float) × ℕ → Ending
    conclude deadline s (gives p, now) = persist deadline p (record s { now = now })
    conclude deadline s (fails e, now) =
        fail_with 0 e (prepare_message e) none (record s { now = now })

    unfoldable pub run_claimed : World float → Ending
    run_claimed s = conclude (deadline_of s.now) s (prepare (deadline_of s.now) s.now)

    -- The transaction that was pending is committed.
    unfoldable pub commit_pending : Prepared float → World float → World float
    commit_pending p s = (persist_success p s).1
