-- ===== src/Scanner/Models.antt =====
-- src/scanner/models.py, over a type F of floats. Counts and ranks are natural numbers, and a time
-- is a whole number of microseconds.
use chainmonitor.Prelude.{ℕ, String, Bool, Option, List}
use chainmonitor.Prelude.Int.{ℤ}

pub record TrendingToken (F : Type 0) : Type 0 where
  pub address : String
  pub symbol : String
  pub name : String
  pub price_usd : F
  pub volume_1m : Option F
  pub volume_1h : Option F
  pub market_cap : Option F
  pub liquidity : Option F
  pub smart_degen_count : Option ℕ
  pub rank : ℕ
  pub chain : String
  pub also_in_1h : Bool

pub record Snapshot (F : Type 0) : Type 0 where
  pub chain : String
  pub interval : String
  pub tokens : List (TrendingToken F)
  pub taken_at : ℕ

pub record TokenRisk (F : Type 0) : Type 0 where
  pub rug_risk : F
  pub is_honeypot : Bool
  pub bundler_ratio : F
  pub rat_ratio : F
  pub sniper_count : ℕ
  pub top10_holder_pct : F

-- The text of `FilterResult.reason`, with the numbers that it prints.
pub data Reason (F : Type 0) : Type 0 where
  empty : Reason F
  low_liquidity : F → F → Reason F
  honeypot : Reason F
  high_rug_risk : F → Reason F
  high_bundler_rat : F → Reason F

pub record FilterResult (F : Type 0) : Type 0 where
  pub passed : Bool
  pub reason : Reason F

-- The seven entries of the `breakdown` dictionary; the penalty is its only signed one.
pub record Breakdown : Type 0 where
  pub smart_money : ℕ
  pub rank_momentum : ℕ
  pub volume_quality : ℕ
  pub volume_acceleration : ℕ
  pub structure : ℕ
  pub timeframe : ℕ
  pub risk_penalty : ℤ

pub record ScoredToken (F : Type 0) : Type 0 where
  pub token : TrendingToken F
  pub score : ℕ
  pub breakdown : Breakdown
  pub risk : Option (TokenRisk F)

pub data Level : Type 0 where
  high medium observe : Level

pub record AlphaSignal (F : Type 0) : Type 0 where
  pub token : ScoredToken F
  pub level : Level
  pub chain : String
  pub interval : String
  pub detected_at : ℕ
