-- ===== src/Backtest/Schemas.antt =====
-- src/shared/schemas/backtest.py, over a type F of floats. Times are whole nanoseconds.
use chainmonitor.Prelude.{ℕ, String, Bool, List}

pub record BacktestConfig (F : Type 0) : Type 0 where
  pub chain_id : String
  pub strategy_version : String
  pub period_start : ℕ
  pub period_end : ℕ
  pub conviction_threshold : F
  pub hold_minutes : ℕ
  pub stop_loss_pct : F
  pub take_profit_pct : F
  pub trade_size_usd : F
  pub fee_bps : F
  pub slippage_bps : F
  pub gas_usd_per_trade : F
  pub latency_bps : F
  pub fail_probability : F

pub record CostBreakdown (F : Type 0) : Type 0 where
  pub total_fee_usd : F
  pub total_slippage_usd : F
  pub total_latency_usd : F
  pub total_gas_usd : F
  pub total_cost_usd : F

pub record BacktestTradeResult (F : Type 0) : Type 0 where
  pub chain_id : String
  pub token_id : String
  pub ts_minute : ℕ
  pub conviction : F
  pub expected_return_pct : F
  pub gross_pnl_usd : F
  pub cost_usd : F
  pub net_pnl_usd : F
  pub failed : Bool

pub record BacktestMetrics (F : Type 0) : Type 0 where
  pub trade_count : ℕ
  pub win_count : ℕ
  pub lose_count : ℕ
  pub win_rate : F
  pub net_pnl_usd : F
  pub gross_profit_usd : F
  pub gross_loss_usd : F
  pub pf : F
  pub expectancy : F
  pub max_dd_pct : F
  pub cost_breakdown : CostBreakdown F

pub record WalkForwardReport (F : Type 0) : Type 0 where
  pub window_count : ℕ
  pub pf_values : List F
  pub expectancy_values : List F
  pub parameter_stability_score : F
  pub passed : Bool

pub record Gate2CheckResult (F : Type 0) : Type 0 where
  pub reproducibility_passed : Bool
  pub cost_consistency_passed : Bool
  pub anti_overfitting_passed : Bool
  pub strategy_threshold_passed : Bool
  pub reproducibility_diff : F
  pub walk_forward : WalkForwardReport F
  pub metrics : BacktestMetrics F
  pub passed : Bool

pub record SearchCandidate (F : Type 0) : Type 0 where
  pub conviction_threshold : F
  pub stop_loss_pct : F
  pub take_profit_pct : F
  pub hold_minutes : ℕ
  pub pf : F
  pub expectancy : F
  pub net_pnl_usd : F
  pub passed : Bool

pub record AttributionBucket (F : Type 0) : Type 0 where
  pub key : String
  pub trade_count : ℕ
  pub net_pnl_usd : F
  pub win_rate : F
