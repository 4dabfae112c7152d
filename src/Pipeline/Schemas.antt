-- ===== src/Pipeline/Schemas.antt =====
-- src/shared/schemas/pipeline.py, over a type F of floats. Times are whole nanoseconds.
use chainmonitor.Prelude.{ℕ, String, Bool, List}

pub record MarketTickInput (F : Type 0) : Type 0 where
  pub chain_id : String
  pub token_id : String
  pub ts_minute : ℕ
  pub price_usd : F
  pub volume_1m : F
  pub volume_5m : F
  pub liquidity_usd : F
  pub buys_1m : ℕ
  pub sells_1m : ℕ
  pub tx_count_1m : ℕ

pub record FeatureRowInput (F : Type 0) : Type 0 where
  pub chain_id : String
  pub token_id : String
  pub ts_minute : ℕ
  pub netflow_usd_5m : F
  pub netflow_usd_30m : F
  pub large_buy_count_30m : ℕ
  pub new_holder_30m : ℕ
  pub holder_churn_24h : F
  pub contract_risk_score : F
  pub lp_concentration : F
  pub holder_concentration_top10 : F
  pub wash_trade_score : F
  pub honeypot_flag : Bool

pub record ScoreRowInput (F : Type 0) : Type 0 where
  pub strategy_version : String
  pub chain_id : String
  pub token_id : String
  pub ts_minute : ℕ
  pub alpha_score : F
  pub momentum_score : F
  pub smart_money_score : F
  pub narrative_score : F
  pub risk_penalty : F
  pub final_score : F
  pub conviction : F
  pub confidence : F
  pub tier : String
  pub reason_codes : List String
