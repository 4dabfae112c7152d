-- ===== src/Backtest/Metrics.antt =====
-- src/backtest/engine.py: `_build_metrics` and `_max_drawdown_pct`.
use chainmonitor.Prelude.{Bool, List, [], ◌∷◌, map, if◌then◌else◌, length}
use chainmonitor.Float.{Float}
use chainmonitor.Signed.{Signed, sum_float}
use chainmonitor.Backtest.Schemas.{BacktestTradeResult, BacktestMetrics}
use chainmonitor.Backtest.Costs.{TradeCost, summarize}

-- `[x for x in xs if test(x)]`
unfoldable pub filter {ℓ} : {A : Type ℓ} → (A → Bool) → List A → List A
filter test [] = []
filter test (x ∷ xs) = let rest = filter test xs in if test x then x ∷ rest else rest

module _ (float : Float) (signed : Signed float) where
  open float use {F, lt, le, add, mul, div, lit, of_int}
  open signed use {sub, abs, round}

  -- The loop of `_max_drawdown_pct`, from the equity, its peak and the largest drawdown so far.
  unfoldable pub drawdown_from : F → F → F → List F → F
  drawdown_from equity peak max_dd [] = max_dd
  drawdown_from equity peak max_dd (pnl ∷ pnls) =
      let equity' = add equity pnl in
      let peak' = if lt peak equity' then equity' else peak in
      let dd = div (sub peak' equity') peak' in
      drawdown_from equity' peak'
        (if le peak' (of_int 0) then max_dd else if lt max_dd dd then dd else max_dd) pnls

  unfoldable pub max_drawdown_pct : List F → F → F
  unfolding drawdown_from
  max_drawdown_pct net_values trade_size_usd =
      drawdown_from (mul trade_size_usd (lit 100 1)) (mul trade_size_usd (lit 100 1)) (lit 0 1)
        net_values

  abbrev pub wins_of : List F → List F
  wins_of = filter (λ v. lt (of_int 0) v)

  abbrev pub losses_of : List F → List F
  losses_of = filter (λ v. le v (of_int 0))

  -- `total / len(values) if values else 0.0`
  unfoldable pub mean_or_zero : F → List F → F
  mean_or_zero total [] = lit 0 1
  mean_or_zero total (v ∷ vs) = div total (of_int (length (v ∷ vs)))

  unfoldable pub build_metrics :
      List (BacktestTradeResult F) → List (TradeCost F) → F → BacktestMetrics F
  unfolding max_drawdown_pct mean_or_zero
  build_metrics [] costs trade_size_usd = record {
    trade_count = 0;
    win_count = 0;
    lose_count = 0;
    win_rate = lit 0 1;
    net_pnl_usd = lit 0 1;
    gross_profit_usd = lit 0 1;
    gross_loss_usd = lit 0 1;
    pf = lit 0 1;
    expectancy = lit 0 1;
    max_dd_pct = lit 0 1;
    cost_breakdown = summarize float signed costs;
  }
  build_metrics (trade ∷ trades) costs trade_size_usd =
      let net_values = map (λ row. row.net_pnl_usd) (trade ∷ trades) in
      let wins = wins_of net_values in
      let losses = losses_of net_values in
      let gross_profit = sum_float float signed wins in
      let gross_loss_abs = abs (sum_float float signed losses) in
      let pf =
        (if lt (of_int 0) gross_loss_abs then div gross_profit gross_loss_abs else lit 990 1) in
      let win_rate = div (of_int (length wins)) (of_int (length (trade ∷ trades))) in
      let avg_win = mean_or_zero gross_profit wins in
      let avg_loss = mean_or_zero gross_loss_abs losses in
      let lose_rate = sub (lit 10 1) win_rate in
      let expectancy = sub (mul win_rate avg_win) (mul lose_rate avg_loss) in
      record {
        trade_count = length (trade ∷ trades);
        win_count = length wins;
        lose_count = length losses;
        win_rate = round win_rate 8;
        net_pnl_usd = round (sum_float float signed net_values) 8;
        gross_profit_usd = round gross_profit 8;
        gross_loss_usd = round gross_loss_abs 8;
        pf = round pf 8;
        expectancy = round expectancy 8;
        max_dd_pct = round (max_drawdown_pct net_values trade_size_usd) 8;
        cost_breakdown = summarize float signed costs;
      }
