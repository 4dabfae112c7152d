-- ===== src/Pipeline/Features.antt =====
-- src/feature/feature_engine.py: `FeatureEngine`.
pub mod Ranges
use chainmonitor.Prelude.{ℕ, ◌+◌, ◌-◌, ◌/◌, ◌%◌, min, max, false, List, [], ◌∷◌}
use chainmonitor.Prelude.Int.{ℤ, sub_ℕ}
use chainmonitor.Float.{Float}
use chainmonitor.Signed.{Signed, max_float, min_float}
use chainmonitor.Pipeline.Schemas.{MarketTickInput, FeatureRowInput}

module _ (float : Float) (signed : Signed float) where
  open float use {F, add, mul, div, lit, of_int}
  open signed use {of_ℤ, round}

  -- Names of the loop's variables.
  unfoldable pub churn : MarketTickInput F → F
  churn tick =
      let buy_sell_ratio = div (of_int tick.buys_1m) (of_int (max tick.sells_1m 1)) in
      min_float float signed (lit 95 2) (
        max_float float signed (lit 1 2)
          (div (lit 10 1) (max_float float signed buy_sell_ratio (lit 10 1))))

  -- `min(1.0, base + (n % m) / 100)`
  unfoldable pub risk : F → ℕ → ℕ → F
  risk base n m = min_float float signed (lit 10 1) (add base (div (of_int (n % m)) (of_int 100)))

  unfoldable pub wash_trade : MarketTickInput F → F
  wash_trade tick =
      min_float float signed (lit 10 1) (div (of_int (tick.tx_count_1m % 30)) (of_int 100))

  unfoldable pub feature_of : MarketTickInput F → FeatureRowInput F
  unfolding churn risk wash_trade
  feature_of tick = record {
    chain_id = tick.chain_id;
    token_id = tick.token_id;
    ts_minute = tick.ts_minute;
    netflow_usd_5m = mul (mul (of_ℤ (sub_ℕ tick.buys_1m tick.sells_1m)) tick.price_usd) (of_int 4);
    netflow_usd_30m =
        mul (mul (of_ℤ (sub_ℕ tick.buys_1m tick.sells_1m)) tick.price_usd) (of_int 20);
    large_buy_count_30m = max 0 (tick.buys_1m / 6);
    new_holder_30m = max 1 (tick.tx_count_1m / 4);
    holder_churn_24h = round (churn tick) 6;
    contract_risk_score = round (risk (lit 1 1) tick.tx_count_1m 15) 6;
    lp_concentration = round (risk (lit 2 1) tick.buys_1m 50) 6;
    holder_concentration_top10 = round (risk (lit 35 2) tick.sells_1m 45) 6;
    wash_trade_score = round (wash_trade tick) 6;
    honeypot_flag = false;
  }

  unfoldable pub build_features : List (MarketTickInput F) → List (FeatureRowInput F)
  unfolding feature_of
  build_features [] = []
  build_features (tick ∷ ticks) = feature_of tick ∷ build_features ticks
