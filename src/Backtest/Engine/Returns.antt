-- ===== src/Backtest/Engine/Returns.antt =====
-- That a run returns, and what its trades are.
use chainmonitor.Prelude.{
  ℕ, ◌≤◌, String, ◌≡◌, refl, false, none, List, [], ◌∷◌, ◌++◌, arith, str_eq, ltb, length, All,
  if_holds,
}
use chainmonitor.Float.{Float}
use chainmonitor.Signed.{Signed}
use chainmonitor.Pipeline.Schemas.{MarketTickInput, ScoreRowInput}
use chainmonitor.Pipeline.Scoring.{rows_of, resolved}
use chainmonitor.Pipeline.Scoring.Rows.{score-build_features}
use chainmonitor.Backtest.Schemas.{BacktestConfig, BacktestTradeResult, BacktestMetrics}
use chainmonitor.Backtest.Costs.{TradeCost}
use chainmonitor.Backtest.Metrics.{build_metrics}
use chainmonitor.Backtest.Engine.{
  BacktestEngine, Trades, fetch_ticks, apply_gate, trade_of, trade_rows, minute_scores, run_minutes,
  with_metrics, run, iter_minutes,
}

All-append :
    {A : Type 0} (P : A → Type 0) (xs : List A) (a : A) → All P xs → P a → All P (xs ++ a ∷ [])
All-append P [] a all p = (p, tt)
All-append P (x ∷ xs) a all p = (all.0, All-append P xs a all.1 p)

module _ (float : Float) (signed : Signed float) (digest : String → ℕ)
    (isoformat : ℕ → String) where
  open float use {F, lt}

  counted :
      (trades : List (BacktestTradeResult F)) (costs : List (TradeCost F)) (size : F)
      → (build_metrics float signed trades costs size).trade_count ≡ length trades
  unfolding build_metrics
  counted [] costs size = refl
  counted (t ∷ ts) costs size = refl

  -- A trade is of a conviction that is not below the threshold, on the engine's chain.
  abbrev pub IsTaken : BacktestEngine F → BacktestConfig F → BacktestTradeResult F → Type 0
  IsTaken engine config t =
      (lt t.conviction config.conviction_threshold ≡ false) × (t.chain_id ≡ engine.chain_id)

  trade_rows-IsTaken :
      (engine : BacktestEngine F) (config : BacktestConfig F) (rows : List (ScoreRowInput F))
      (t : Trades F)
      → All (IsTaken engine config) t.trades
      → All
          (IsTaken engine config)
          (trade_rows float signed digest isoformat engine.chain_id config rows t).trades
  unfolding trade_rows trade_of
  trade_rows-IsTaken engine config [] t all = all
  trade_rows-IsTaken engine config (row ∷ rows) t all = trade_rows-IsTaken engine config rows _ (
      if_holds (λ (x : Trades F). All (IsTaken engine config) x.trades)
        (lt row.conviction config.conviction_threshold) (λ _. all)
        (λ high. All-append (IsTaken engine config) t.trades _ all (high, refl)))

  minute_scores-returns :
      (engine : BacktestEngine F) (ticks : List (MarketTickInput F))
      → str_eq engine.strategy_version "" ≡ false
      → (rows : List (ScoreRowInput F)) × (minute_scores float signed digest isoformat engine ticks
          ≡ rows_of rows)
  unfolding minute_scores resolved
  minute_scores-returns engine [] named = ([], refl)
  minute_scores-returns engine (tick ∷ ticks) named =
      let (rows, done, same) =
        score-build_features float signed engine.tiers engine.strategy_version (tick ∷ ticks) none
          named in
      (rows, done)

  run_minutes-returns :
      (lower : String → String) (engine : BacktestEngine F) (config : BacktestConfig F)
      (minutes : List ℕ) (t : Trades F)
      → str_eq engine.strategy_version "" ≡ false
      → All (IsTaken engine config) t.trades
      → (out : Trades F) × (run_minutes float signed digest isoformat lower engine config minutes t
          ≡ rows_of out)
        × All (IsTaken engine config) out.trades
  unfolding run_minutes
  run_minutes-returns lower engine config [] t named all = (t, refl, all)
  run_minutes-returns lower engine config (ts ∷ minutes) t named all =
      let (rows, scored) =
        minute_scores-returns engine
          (apply_gate float signed digest isoformat engine
            (fetch_ticks float signed digest isoformat lower engine.chain_id engine.symbols ts))
          named in
      let (out, done, taken) =
        run_minutes-returns lower engine config minutes
          (trade_rows float signed digest isoformat engine.chain_id config rows t) named
          (trade_rows-IsTaken engine config rows t all) in
      (out, rw (scored, run_minutes) done, taken)

  -- A run of a period that does not end before it starts, with a strategy version that is not empty,
  -- returns: no minute's scoring fails. Its trades are on the engine's chain, each of a score whose
  -- conviction is not below the config's threshold, and the metrics count them.
  pub run-returns :
      (lower : String → String) (engine : BacktestEngine F) (config : BacktestConfig F)
      → config.period_start ≤ config.period_end
      → str_eq engine.strategy_version "" ≡ false
      → (trades : List (BacktestTradeResult F)) × (metrics : BacktestMetrics F) × (run float signed
            digest isoformat lower engine config
          ≡ rows_of (trades, metrics))
        × All (IsTaken engine config) trades
        × (metrics.trade_count ≡ length trades)
  unfolding run with_metrics
  run-returns lower engine config ordered named =
      let (t, done, taken) =
        run_minutes-returns lower engine config (iter_minutes config.period_start config.period_end)
          (record { trades = []; costs = [] }) named tt in
      let in_order : ltb config.period_end config.period_start ≡ false = ground (arith, ordered) in
      (
        t.trades,
        build_metrics float signed t.trades t.costs config.trade_size_usd,
        rw (in_order, done) refl,
        taken,
        counted t.trades t.costs config.trade_size_usd,
      )
