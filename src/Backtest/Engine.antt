-- ===== src/Backtest/Engine.antt =====
-- src/backtest/engine.py: `BacktestEngine`, over the feature and scoring engines.
--
-- `digest` is the number of the first twelve hexadecimal digits of `sha256(text)`, `isoformat` and
-- `lower` are the methods of datetimes and strings. The state of the engine is fixed.
pub mod Period
pub mod Unread
pub mod Returns
use chainmonitor.Prelude.{
  ℕ, zero, suc, ◌+◌, ◌-◌, ◌*◌, ◌/◌, ◌%◌, ◌^◌, min, max, String, sym, ap, Bool, false, ◌&&◌, none,
  List, [], ◌∷◌, ◌++◌, ltb, leb, if◌then◌else◌, set, append,
}
use chainmonitor.Float.{Float}
use chainmonitor.Signed.{Signed, max_float, min_float}
use chainmonitor.Pipeline.Schemas.{MarketTickInput, ScoreRowInput}
use chainmonitor.Pipeline.Features.{build_features}
use chainmonitor.Pipeline.Scoring.{TierSettings, Scored, rows_of, value_error, key_error, score}
use chainmonitor.Backtest.Schemas.{BacktestConfig, BacktestTradeResult, BacktestMetrics}
use chainmonitor.Backtest.Costs.{TradeCost, cost_total, estimate}
use chainmonitor.Backtest.Metrics.{build_metrics, filter}

abbrev pub minute : ℕ
minute = 60_000_000_000

-- `replace(second=0, microsecond=0)`
abbrev pub whole_minute : ℕ → ℕ
whole_minute t = t / minute * minute

-- The loop of `_iter_minutes`, with fuel.
unfoldable pub minutes_from : ℕ → ℕ → ℕ → List ℕ
minutes_from zero cursor stop = []
minutes_from (suc fuel) cursor stop =
    let rest = minutes_from fuel (cursor + minute) stop in
    if leb cursor stop then cursor ∷ rest else []

unfoldable pub iter_minutes : ℕ → ℕ → List ℕ
unfolding minutes_from
iter_minutes start end =
    minutes_from (whole_minute end / minute + 1) (whole_minute start) (whole_minute end)

-- The state of the engine, and the thresholds of the pipeline's settings.
pub record BacktestEngine (F : Type 0) : Type 0 where
  pub chain_id : String
  pub symbols : List String
  pub strategy_version : String
  pub tiers : TierSettings F
  pub min_liquidity_usd : F
  pub min_volume_5m_usd : F
  pub min_tx_1m : ℕ

-- The variables of the loop over the minutes.
pub record Trades (F : Type 0) : Type 0 where
  pub trades : List (BacktestTradeResult F)
  pub costs : List (TradeCost F)

module _ (float : Float) (signed : Signed float) (digest : String → ℕ)
    (isoformat : ℕ → String) where
  open float use {F, lt, le, add, mul, div, lit, of_int}
  open signed use {sub, neg, round}

  abbrev pub seed : String → ℕ → ℕ
  seed symbol ts = digest (append symbol (append ":" (isoformat ts)))

  -- The tick of a symbol by its seed.
  unfoldable pub tick_of : String → String → ℕ → ℕ → MarketTickInput F
  tick_of chain_id token_id target_ts seed =
      let volume_1m = 5_000 + seed % 80_000 in
      let buys = 20 + seed % 80 in
      let sells = 10 + seed % 60 in
      record {
        chain_id = chain_id;
        token_id = token_id;
        ts_minute = target_ts;
        price_usd = round (add (of_int 1) (div (of_int (seed % 50_000)) (of_int 1_000))) 6;
        volume_1m = of_int volume_1m;
        volume_5m = mul (of_int volume_1m) (add (lit 11 1) (div (of_int (seed % 30)) (of_int 100)));
        liquidity_usd = of_int (100_000 + seed % 900_000);
        buys_1m = buys;
        sells_1m = sells;
        tx_count_1m = buys + sells + seed % 20;
      }

  unfoldable pub fetch_ticks :
      (String → String) → String → List String → ℕ → List (MarketTickInput F)
  unfolding tick_of
  fetch_ticks lower chain_id [] ts = []
  fetch_ticks lower chain_id (s ∷ ss) ts =
      tick_of chain_id (append chain_id (append "_" (lower s))) (whole_minute ts)
        (seed s (whole_minute ts))
      ∷ fetch_ticks lower chain_id ss ts

  unfoldable pub apply_gate : BacktestEngine F → List (MarketTickInput F) → List (MarketTickInput F)
  apply_gate engine ticks =
      filter
        (λ tick.
          le engine.min_liquidity_usd tick.liquidity_usd
          && (le engine.min_volume_5m_usd tick.volume_5m && leb engine.min_tx_1m tick.tx_count_1m))
        ticks

  -- `_stable_unit_value`
  unfoldable pub stable_unit_value : String → F
  stable_unit_value payload = div (of_int (digest payload)) (of_int (16 ^ 12 - 1))

  unfoldable pub expected_return_pct : String → ℕ → String → F → F → F
  unfolding stable_unit_value
  expected_return_pct token_id ts_minute strategy_version stop_loss_pct take_profit_pct =
      let seed = stable_unit_value (
        append strategy_version
          (append ":" (append token_id (append ":" (isoformat ts_minute))))) in
      let raw = sub (mul seed (lit 20 2)) (lit 8 2) in
      max_float float signed (neg stop_loss_pct) (min_float float signed take_profit_pct raw)

  unfoldable pub is_failed_trade : String → ℕ → F → Bool
  unfolding stable_unit_value
  is_failed_trade token_id ts_minute fail_probability =
      if le fail_probability (of_int 0)
      then false
      else lt
          (stable_unit_value (append "fail:" (append token_id (append ":" (isoformat ts_minute)))))
          fail_probability

  unfoldable pub trade_of : String → BacktestConfig F → ScoreRowInput F → BacktestTradeResult F
  unfolding expected_return_pct is_failed_trade
  trade_of chain_id config row =
      let expected_return =
        expected_return_pct row.token_id row.ts_minute config.strategy_version config.stop_loss_pct
          config.take_profit_pct in
      let failed = is_failed_trade row.token_id row.ts_minute config.fail_probability in
      let gross_pnl = (if failed then lit 0 1 else mul config.trade_size_usd expected_return) in
      let cost = cost_total float signed (estimate float signed config config.trade_size_usd) in
      record {
        chain_id = chain_id;
        token_id = row.token_id;
        ts_minute = row.ts_minute;
        conviction = row.conviction;
        expected_return_pct = round expected_return 8;
        gross_pnl_usd = round gross_pnl 8;
        cost_usd = round cost 8;
        net_pnl_usd = round (sub gross_pnl cost) 8;
        failed = failed;
      }

  -- `for score in score_rows`
  unfoldable pub trade_rows :
      String → BacktestConfig F → List (ScoreRowInput F) → Trades F → Trades F
  unfolding trade_of
  trade_rows chain_id config [] t = t
  trade_rows chain_id config (row ∷ rows) t = trade_rows chain_id config rows (
      if lt row.conviction config.conviction_threshold then t else record {
        trades = t.trades ++ trade_of chain_id config row ∷ [];
        costs = t.costs ++ estimate float signed config config.trade_size_usd ∷ [];
      })

  -- A minute's scores; no ticks, no scores.
  unfoldable pub minute_scores :
      BacktestEngine F → List (MarketTickInput F) → Scored (List (ScoreRowInput F))
  minute_scores engine [] = rows_of []
  minute_scores engine (tick ∷ ticks) =
      score float signed engine.tiers engine.strategy_version (tick ∷ ticks)
        (build_features float signed (tick ∷ ticks)) none

  unfoldable pub run_minutes :
      (String → String)
      → BacktestEngine F
      → BacktestConfig F
      → List ℕ
      → Trades F
      → Scored (Trades F)
  unfolding apply_gate fetch_ticks minute_scores trade_rows
  run_minutes lower engine config [] t = rows_of t
  run_minutes lower engine config (ts ∷ minutes) t =
      elim (minute_scores engine
        (apply_gate engine (fetch_ticks lower engine.chain_id engine.symbols ts))) [
          | rows_of rows ↦
              run_minutes lower engine config minutes (trade_rows engine.chain_id config rows t)
          | value_error ↦ value_error
          | key_error ↦ key_error
        ]

  unfoldable pub with_metrics :
      BacktestConfig F
      → Scored (Trades F)
      → Scored (List (BacktestTradeResult F) × BacktestMetrics F)
  with_metrics config (rows_of t) =
      rows_of (t.trades, build_metrics float signed t.trades t.costs config.trade_size_usd)
  with_metrics config value_error = value_error
  with_metrics config key_error = key_error

  unfoldable pub run :
      (String → String)
      → BacktestEngine F
      → BacktestConfig F
      → Scored (List (BacktestTradeResult F) × BacktestMetrics F)
  unfolding run_minutes with_metrics
  run lower engine config =
      if ltb config.period_end config.period_start
      then value_error
      else with_metrics config (
          run_minutes lower engine config (iter_minutes config.period_start config.period_end)
            (record { trades = []; costs = [] }))
