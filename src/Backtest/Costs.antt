-- ===== src/Backtest/Costs.antt =====
-- src/backtest/cost_model.py: `TradeCostModel`.
use chainmonitor.Prelude.{List, map}
use chainmonitor.Float.{Float}
use chainmonitor.Signed.{Signed, sum_float}
use chainmonitor.Backtest.Schemas.{BacktestConfig, CostBreakdown}

pub record TradeCost (F : Type 0) : Type 0 where
  pub fee_usd : F
  pub slippage_usd : F
  pub latency_usd : F
  pub gas_usd : F

module _ (float : Float) (signed : Signed float) where
  open float use {F, add, mul, div, of_int}
  open signed use {round}

  -- `TradeCost.total`
  unfoldable pub cost_total : TradeCost F → F
  cost_total c = add (add (add c.fee_usd c.slippage_usd) c.latency_usd) c.gas_usd

  unfoldable pub estimate : BacktestConfig F → F → TradeCost F
  estimate config notional_usd = record {
    fee_usd = round (mul notional_usd (div config.fee_bps (of_int 10_000))) 8;
    slippage_usd = round (mul notional_usd (div config.slippage_bps (of_int 10_000))) 8;
    latency_usd = round (mul notional_usd (div config.latency_bps (of_int 10_000))) 8;
    gas_usd = round config.gas_usd_per_trade 8;
  }

  unfoldable pub summarize : List (TradeCost F) → CostBreakdown F
  summarize costs =
      let total_fee = sum_float float signed (map (λ c. c.fee_usd) costs) in
      let total_slippage = sum_float float signed (map (λ c. c.slippage_usd) costs) in
      let total_latency = sum_float float signed (map (λ c. c.latency_usd) costs) in
      let total_gas = sum_float float signed (map (λ c. c.gas_usd) costs) in
      record {
        total_fee_usd = round total_fee 8;
        total_slippage_usd = round total_slippage 8;
        total_latency_usd = round total_latency 8;
        total_gas_usd = round total_gas 8;
        total_cost_usd = round (add (add (add total_fee total_slippage) total_latency) total_gas) 8;
      }
