-- ===== src/Backtest/Validator.antt =====
-- src/backtest/validator.py: `Gate2Validator`. Its engine's `run` is an argument.
pub mod Gate
use chainmonitor.Prelude.{
  ℕ, ◌+◌, ◌-◌, ◌*◌, ◌/◌, ◌%◌, min, max, ap, Bool, true, false, not, ◌&&◌, ◌||◌, List, [], ◌∷◌, ◌++◌,
  ltb, leb, ◌==◌, if◌then◌else◌, length, sum, append,
}
use chainmonitor.Float.{Float}
use chainmonitor.Signed.{Signed, sum_float, max_float, min_float}
use chainmonitor.Pipeline.Scoring.{Scored, rows_of, value_error, key_error}
use chainmonitor.Backtest.Engine.{minute}
use chainmonitor.Backtest.Schemas.{
  BacktestConfig, CostBreakdown, BacktestMetrics, WalkForwardReport, Gate2CheckResult,
}

-- An error ends a computation.
unfoldable pub and_then : {A B : Type 0} → Scored A → (A → Scored B) → Scored B
and_then (rows_of a) f = f a
and_then value_error f = value_error
and_then key_error f = key_error

-- `total_span / 2`, which rounds half a microsecond to the even one.
unfoldable pub half_span : ℕ → ℕ
half_span span = let n = span / 1000 in let q = n / 2 in (q + n % 2 * (q % 2)) * 1000

module _ (float : Float) (signed : Signed float) where
  open float use {F, lt, le, add, div, lit, of_int}
  open signed use {sub, abs, round}

  abbrev pub mean : List F → F
  mean xs = div (sum_float float signed xs) (of_int (length xs))

  -- The smallest and the largest of a list that is not empty.
  unfoldable pub min_of : F → List F → F
  min_of x [] = x
  min_of x (y ∷ ys) = min_of (min_float float signed x y) ys

  unfoldable pub max_of : F → List F → F
  max_of x [] = x
  max_of x (y ∷ ys) = max_of (max_float float signed x y) ys

  -- `if metrics.trade_count > 0: active_variant_pfs.append(metrics.pf)`
  unfoldable pub active_pf : BacktestMetrics F → List F
  active_pf m = if ltb 0 m.trade_count then m.pf ∷ [] else []

  unfoldable pub mean_active : List F → List F
  mean_active [] = []
  mean_active (x ∷ xs) = mean (x ∷ xs) ∷ []

  -- What the two variants of a window add to the lists.
  pub record Window : Type 0 where
    pub pf_value : F
    pub expectancy_value : F
    pub active_pf_values : List F

  unfoldable pub window_of : BacktestMetrics F → BacktestMetrics F → Window
  unfolding active_pf mean_active
  window_of a b = record {
    pf_value = mean (a.pf ∷ b.pf ∷ []);
    expectancy_value = mean (a.expectancy ∷ b.expectancy ∷ []);
    active_pf_values = mean_active (active_pf a ++ active_pf b);
  }

  unfoldable pub stability_of : List F → F
  unfolding min_of max_of
  stability_of [] = lit 0 1
  stability_of (x ∷ xs) =
      let pf_min = min_of x xs in
      let pf_max = max_of x xs in
      if le pf_max (of_int 0)
      then lit 0 1
      else max_float float signed (lit 0 1) (sub (lit 10 1) (div (sub pf_max pf_min) pf_max))

  -- `all(value > 1.0 for value in values)`
  unfoldable pub all_above_one : List F → Bool
  all_above_one [] = true
  all_above_one (x ∷ xs) = lt (lit 10 1) x && all_above_one xs

  unfoldable pub passes : List F → Bool
  unfolding stability_of all_above_one
  passes [] = false
  passes (x ∷ xs) = all_above_one (x ∷ xs) && le (lit 4 1) (stability_of (x ∷ xs))

  unfoldable pub report_of : Window → Window → WalkForwardReport F
  unfolding stability_of passes
  report_of a b =
      let active = a.active_pf_values ++ b.active_pf_values in
      record {
        window_count = 2;
        pf_values = round a.pf_value 8 ∷ round b.pf_value 8 ∷ [];
        expectancy_values = round a.expectancy_value 8 ∷ round b.expectancy_value 8 ∷ [];
        parameter_stability_score = round (stability_of active) 8;
        passed = passes active;
      }

  abbrev pub too_short : WalkForwardReport F
  too_short = record {
    window_count = 0;
    pf_values = [];
    expectancy_values = [];
    parameter_stability_score = lit 0 1;
    passed = false;
  }

  abbrev pub variant : BacktestConfig F → ℕ → ℕ → F → BacktestConfig F
  variant config start end threshold = record config {
    period_start = start;
    period_end = end;
    conviction_threshold = threshold;
  }

  unfoldable pub is_consistent : BacktestMetrics F → Bool
  is_consistent m =
      let cost = m.cost_breakdown in
      let total_cost =
        add (add (add cost.total_fee_usd cost.total_slippage_usd) cost.total_latency_usd)
          cost.total_gas_usd in
      (m.trade_count == 0)
      || (le (abs (sub total_cost cost.total_cost_usd)) (lit 1 8)
          && lt (of_int 0) cost.total_cost_usd)

  unfoldable pub result_of :
      BacktestMetrics F → BacktestMetrics F → WalkForwardReport F → Gate2CheckResult F
  unfolding is_consistent
  result_of metrics_a metrics_b walk_forward =
      let reproducibility_diff = abs (sub metrics_a.net_pnl_usd metrics_b.net_pnl_usd) in
      let reproducibility_passed = le reproducibility_diff (lit 1 9) in
      let strategy_threshold_passed =
        lt (lit 12 1) metrics_a.pf && lt (of_int 0) metrics_a.expectancy in
      record {
        reproducibility_passed = reproducibility_passed;
        cost_consistency_passed = is_consistent metrics_a;
        anti_overfitting_passed = walk_forward.passed;
        strategy_threshold_passed = strategy_threshold_passed;
        reproducibility_diff = round reproducibility_diff 10;
        walk_forward = walk_forward;
        metrics = metrics_a;
        passed =
            reproducibility_passed
            && (is_consistent metrics_a && (walk_forward.passed && strategy_threshold_passed));
      }

  module _ {T : Type 0} (run : BacktestConfig F → Scored (T × BacktestMetrics F)) where
    -- The two variants of the threshold in a window.
    unfoldable pub run_window : BacktestConfig F → ℕ → ℕ → Scored Window
    unfolding and_then window_of
    run_window config start end =
        let higher =
          min_float float signed (lit 950 1) (add config.conviction_threshold (lit 20 1)) in
        and_then (run (variant config start end config.conviction_threshold))
          (λ a. and_then (run (variant config start end higher)) (λ b. rows_of (window_of a.1 b.1)))

    unfoldable pub walk_forward_check : BacktestConfig F → Scored (WalkForwardReport F)
    unfolding and_then run_window report_of half_span
    walk_forward_check config =
        let total_span = config.period_end - config.period_start in
        let split_point = config.period_start + half_span total_span in
        if leb total_span (2 * minute)
        then rows_of too_short
        else and_then (run_window config config.period_start split_point) (λ a.
          and_then (run_window config (split_point + minute) config.period_end)
            (λ b. rows_of (report_of a b)))

    unfoldable pub check : BacktestConfig F → Scored (Gate2CheckResult F)
    unfolding and_then walk_forward_check result_of
    check config = and_then (run config) (λ a. and_then (run config) (λ b.
        and_then (walk_forward_check config)
          (λ walk_forward. rows_of (result_of a.1 b.1 walk_forward))))
