-- ===== src/Examples/Trading.antt =====
-- The backtest at concrete configs, in thousandths.
use chainmonitor.Prelude.{
  ℕ, zero, suc, ◌+◌, ◌-◌, ◌*◌, ◌<◌, String, ◌≡◌, refl, true, false, some, List, [], ◌∷◌, ◌++◌, map,
  arith, length, All,
}
use chainmonitor.Prelude.Int.{◌+ℤ◌, ℤ, pos, ◌-ℤ◌, ltb_ℤ}
use chainmonitor.Signed.{sum_from, signed_float, signed_thousandths}
use chainmonitor.Pipeline.Scoring.{Scored, rows_of, value_error, key_error}
use chainmonitor.Backtest.Schemas.{
  BacktestConfig, BacktestMetrics, BacktestTradeResult, Gate2CheckResult, SearchCandidate,
}
use chainmonitor.Backtest.Engine.{BacktestEngine, minute, iter_minutes, run}
use chainmonitor.Backtest.Engine.Period.{iter_minutes-split}
use chainmonitor.Backtest.Engine.Returns.{IsTaken, run-returns}
use chainmonitor.Backtest.Validator.{check, result_of, report_of, window_of, walk_forward_check}
use chainmonitor.Backtest.Validator.Gate.{check-passed}
use chainmonitor.Backtest.Optimizer.{trial_configs, candidates_of}
use chainmonitor.Backtest.Optimizer as Optimizer
use chainmonitor.Backtest.Optimizer.Holding.{doubled, Figures, figures, trials-doubled}
use chainmonitor.Backtest.Batch.{
  partial_failed, Outcome, report_of as done, error_of, submit, get_job,
}
use chainmonitor.Backtest.Batch.Jobs.{raises, outcome, told, submit-counts}
use chainmonitor.Backtest.Attribution.{build}
use chainmonitor.Backtest.Attribution.Groups.{trades_of, build-counts}

abbrev config : BacktestConfig ℤ
config = record {
  chain_id = "bsc";
  strategy_version = "v1";
  period_start = 0;
  period_end = 1 * minute;
  conviction_threshold = pos 10_000;
  hold_minutes = 5;
  stop_loss_pct = pos 60;
  take_profit_pct = pos 120;
  trade_size_usd = pos 1000_000;
  fee_bps = pos 20_000;
  slippage_bps = pos 30_000;
  gas_usd_per_trade = pos 1500;
  latency_bps = pos 5000;
  fail_probability = pos 0;
}

abbrev engine : BacktestEngine ℤ
engine = record {
  chain_id = "bsc";
  symbols = "A" ∷ [];
  strategy_version = "v1";
  tiers = record {
    tier_a_threshold = pos 85_000;
    tier_b_threshold = pos 70_000;
    tier_c_threshold = pos 55_000;
  };
  min_liquidity_usd = pos 0;
  min_volume_5m_usd = pos 0;
  min_tx_1m = 0;
}

abbrev digest : String → ℕ
digest text = 40_017

abbrev isoformat : ℕ → String
isoformat t = "t"

abbrev same : String → String
same s = s

iter_minutes-split_example :
    iter_minutes 5 (2 * minute) ++ iter_minutes (3 * minute) (4 * minute)
    ≡ iter_minutes 5 (4 * minute)
iter_minutes-split_example =
    iter_minutes-split 5 (2 * minute) (4 * minute) (omega arith) (omega arith)

abbrev tried : List (SearchCandidate ℤ)
tried =
    elim (candidates_of signed_float signed_thousandths
      (run signed_float signed_thousandths digest isoformat same engine)
      (trial_configs signed_float signed_thousandths config)) [
        | rows_of cs ↦ cs
        | value_error ↦ []
        | key_error ↦ []
      ]

trials_return :
    candidates_of signed_float signed_thousandths
      (run signed_float signed_thousandths digest isoformat same engine)
      (trial_configs signed_float signed_thousandths config)
    ≡ rows_of tried
unfolding candidates_of trial_configs Optimizer.flat_map run iter_minutes
    chainmonitor.Backtest.Metrics.filter ◌+ℤ◌ chainmonitor.Pipeline.Scoring.score
    chainmonitor.Dict.get chainmonitor.Pipeline.Features.build_features chainmonitor.Dict.put
trials_return = refl

trials-doubled_example :
    (fs : List (Figures ℤ)) × (length fs ≡ 12) × (map figures tried ≡ doubled fs)
trials-doubled_example =
    trials-doubled signed_float signed_thousandths digest isoformat same engine config tried
      trials_return

run-returns_example :
    (trades : List (BacktestTradeResult ℤ)) × (metrics : BacktestMetrics ℤ) × (run signed_float
        signed_thousandths digest isoformat same engine config
      ≡ rows_of (trades, metrics))
    × All (IsTaken signed_float signed_thousandths digest isoformat engine config) trades
    × (metrics.trade_count ≡ length trades)
run-returns_example =
    run-returns signed_float signed_thousandths digest isoformat same engine config (omega arith)
      refl

-- An engine whose runs all have these metrics.
abbrev good : BacktestMetrics ℤ
good = record {
  trade_count = 2;
  win_count = 2;
  lose_count = 0;
  win_rate = pos 1000;
  net_pnl_usd = pos 5000;
  gross_profit_usd = pos 5000;
  gross_loss_usd = pos 0;
  pf = pos 2000;
  expectancy = pos 500;
  max_dd_pct = pos 0;
  cost_breakdown = record {
    total_fee_usd = pos 1;
    total_slippage_usd = pos 1;
    total_latency_usd = pos 1;
    total_gas_usd = pos 1;
    total_cost_usd = pos 4;
  };
}

abbrev always : BacktestConfig ℤ → Scored (ℕ × BacktestMetrics ℤ)
always c = rows_of (0, good)

abbrev long : BacktestConfig ℤ
long = record config { period_end = 10 * minute }

abbrev judged : Gate2CheckResult ℤ
judged = result_of signed_float signed_thousandths good good (
    report_of signed_float signed_thousandths (window_of signed_float signed_thousandths good good)
      (window_of signed_float signed_thousandths good good))

checked : check signed_float signed_thousandths always long ≡ rows_of judged
unfolding check
checked = refl

no_difference :
    (x : ℤ) → signed_float.le (signed_thousandths.abs (signed_thousandths.sub x x)) (pos 0) ≡ true
unfolding ◌-ℤ◌
no_difference x = ground arith

check-passed_example :
    (out : ℕ × BacktestMetrics ℤ) × (always long ≡ rows_of out)
    × (judged.metrics ≡ out.1)
    × (ltb_ℤ (pos 1200) judged.metrics.pf ≡ true)
    × (ltb_ℤ (pos 0) judged.metrics.expectancy ≡ true)
    × (walk_forward_check signed_float signed_thousandths always long ≡ rows_of judged.walk_forward)
    × (judged.walk_forward.passed ≡ true)
    × (2 * minute < 10 * minute - 0)
unfolding result_of ◌-ℤ◌ ◌+ℤ◌ report_of window_of sum_from
check-passed_example = check-passed signed_float signed_thousandths always long judged checked refl

abbrev first : BacktestConfig ℤ
first = record config {
  conviction_threshold = pos 55_000;
  stop_loss_pct = pos 40;
  hold_minutes = 3;
}

-- The second of three runs raises.
abbrev runner : ℕ → Outcome ℕ
runner (suc zero) = error_of "no data"
runner n = done n

abbrev text : ℕ → String
text n = "n"

submit-counts_example :
    let (report, jobs) = submit text runner "job" "bsc" (0 ∷ 1 ∷ 2 ∷ []) [] in
    (report.failed ≡ 1)
    × (report.succeeded + report.failed ≡ report.total)
    × (report.status ≡ partial_failed)
    × (map outcome report.items ≡ map (λ c. told (runner c)) (0 ∷ 1 ∷ 2 ∷ []))
    × (get_job "job" jobs ≡ some report)
unfolding raises
submit-counts_example = submit-counts text runner "job" "bsc" (0 ∷ 1 ∷ 2 ∷ []) []

abbrev trade : String → BacktestTradeResult ℤ
trade token = record {
  chain_id = "bsc";
  token_id = token;
  ts_minute = 0;
  conviction = pos 80_000;
  expected_return_pct = pos 10;
  gross_pnl_usd = pos 5;
  cost_usd = pos 1;
  net_pnl_usd = pos 4;
  failed = false;
}

abbrev trades : List (BacktestTradeResult ℤ)
trades = trade "a" ∷ trade "b" ∷ trade "a" ∷ []

build-counts_example :
    let report = build signed_float signed_thousandths isoformat trades in
    (trades_of signed_float signed_thousandths report.by_token ≡ 3)
    × (trades_of signed_float signed_thousandths report.by_hour ≡ 3)
    × (trades_of signed_float signed_thousandths report.by_regime ≡ 3)
build-counts_example = build-counts signed_float signed_thousandths isoformat trades
