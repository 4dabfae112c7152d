-- ===== src/Backtest/Optimizer.antt =====
-- src/backtest/optimizer.py: `BacktestParameterOptimizer`. Its engine's `run` is an argument.
pub mod Search
pub mod Holding
use chainmonitor.Prelude.{
  ℕ, zero, suc, ◌+◌, ◌-◌, ◌/◌, ◌<◌, min, max, String, ap, Bool, not, ◌&&◌, ◌||◌, Option, none, some,
  List, [], ◌∷◌, ◌++◌, map, if◌then◌else◌, length,
}
use chainmonitor.Float.{Float}
use chainmonitor.Signed.{Signed, max_float, min_float}
use chainmonitor.Pipeline.Scoring.{Scored, rows_of, value_error, key_error}
use chainmonitor.Backtest.Schemas.{BacktestConfig, BacktestMetrics, SearchCandidate}
use chainmonitor.Backtest.Validator.{and_then}

pub record ParameterSearchReport (F : Type 0) : Type 0 where
  pub chain_id : String
  pub strategy_version : String
  pub tested_count : ℕ
  pub best : SearchCandidate F
  pub leaderboard : List (SearchCandidate F)

unfoldable pub flat_map {ℓ κ} : {A : Type ℓ} {B : Type κ} → (A → List B) → List A → List B
flat_map f [] = []
flat_map f (x ∷ xs) = f x ++ flat_map f xs

-- `candidates[:n]`
unfoldable pub take {ℓ} : {A : Type ℓ} → ℕ → List A → List A
take zero xs = []
take (suc n) [] = []
take (suc n) (x ∷ xs) = x ∷ take n xs

module _ (float : Float) (signed : Signed float) where
  open float use {F, lt, add, lit, of_int}
  open signed use {sub}

  unfoldable pub thresholds : BacktestConfig F → List F
  thresholds config =
      max_float float signed (lit 550 1) (sub config.conviction_threshold (of_int 5))
      ∷ config.conviction_threshold
      ∷ min_float float signed (lit 900 1) (add config.conviction_threshold (of_int 5))
      ∷ []

  unfoldable pub stop_losses : BacktestConfig F → List F
  stop_losses config =
      max_float float signed (lit 2 2) (sub config.stop_loss_pct (lit 2 2))
      ∷ config.stop_loss_pct
      ∷ []

  unfoldable pub take_profits : BacktestConfig F → List F
  take_profits config =
      config.take_profit_pct
      ∷ min_float float signed (lit 20 2) (add config.take_profit_pct (lit 3 2))
      ∷ []

  unfoldable pub hold_times : BacktestConfig F → List ℕ
  hold_times config = max 3 (config.hold_minutes - 2) ∷ config.hold_minutes ∷ []

  -- The configs of `product(...)`, in its order.
  unfoldable pub trial_configs : BacktestConfig F → List (BacktestConfig F)
  unfolding thresholds stop_losses take_profits hold_times
  trial_configs config =
      flat_map
        (λ threshold.
          flat_map
            (λ stop_loss.
              flat_map
                (λ take_profit.
                  map
                    (λ hold. record config {
                      conviction_threshold = threshold;
                      stop_loss_pct = stop_loss;
                      take_profit_pct = take_profit;
                      hold_minutes = hold;
                    })
                    (hold_times config))
                (take_profits config))
            (stop_losses config))
        (thresholds config)

  unfoldable pub candidate_of : BacktestConfig F → BacktestMetrics F → SearchCandidate F
  candidate_of config metrics = record {
    conviction_threshold = config.conviction_threshold;
    stop_loss_pct = config.stop_loss_pct;
    take_profit_pct = config.take_profit_pct;
    hold_minutes = config.hold_minutes;
    pf = metrics.pf;
    expectancy = metrics.expectancy;
    net_pnl_usd = metrics.net_pnl_usd;
    passed = lt (lit 12 1) metrics.pf && lt (of_int 0) metrics.expectancy;
  }

  -- `key(a) < key(b)` of the tuples, without NaN.
  unfoldable pub less : SearchCandidate F → SearchCandidate F → Bool
  less a b =
      let by_pnl = lt a.net_pnl_usd b.net_pnl_usd in
      let by_expectancy =
        lt a.expectancy b.expectancy || (not (lt b.expectancy a.expectancy) && by_pnl) in
      let by_pf = lt a.pf b.pf || (not (lt b.pf a.pf) && by_expectancy) in
      (not a.passed && b.passed) || ((b.passed || not a.passed) && by_pf)

  -- `candidates.sort(key=..., reverse=True)`: stable.
  unfoldable pub insert_candidate :
      SearchCandidate F → List (SearchCandidate F) → List (SearchCandidate F)
  unfolding less
  insert_candidate c [] = c ∷ []
  insert_candidate c (d ∷ ds) =
      let rest = insert_candidate c ds in if less c d then d ∷ rest else c ∷ d ∷ ds

  unfoldable pub sort_candidates : List (SearchCandidate F) → List (SearchCandidate F)
  unfolding insert_candidate
  sort_candidates [] = []
  sort_candidates (c ∷ cs) = insert_candidate c (sort_candidates cs)

  module _ {T : Type 0} (run : BacktestConfig F → Scored (T × BacktestMetrics F)) where
    unfoldable pub candidates_of : List (BacktestConfig F) → Scored (List (SearchCandidate F))
    unfolding and_then candidate_of
    candidates_of [] = rows_of []
    candidates_of (config ∷ configs) = and_then (run config) (λ out.
        and_then (candidates_of configs) (λ rest. rows_of (candidate_of config out.1 ∷ rest)))

  -- `candidates[0]`; the list is never empty.
  unfoldable pub report_of :
      BacktestConfig F → List (SearchCandidate F) → Option (ParameterSearchReport F)
  report_of config [] = none
  report_of config (c ∷ cs) = some (record {
    chain_id = config.chain_id;
    strategy_version = config.strategy_version;
    tested_count = length (c ∷ cs);
    best = c;
    leaderboard = take 10 (c ∷ cs);
  })

  -- `none` would be an `IndexError`.
  unfoldable pub grid_search :
      {T : Type 0}
      → (BacktestConfig F → Scored (T × BacktestMetrics F))
      → BacktestConfig F
      → Scored (Option (ParameterSearchReport F))
  unfolding and_then candidates_of sort_candidates report_of trial_configs
  grid_search run config =
      and_then (candidates_of run (trial_configs config))
        (λ candidates. rows_of (report_of config (sort_candidates candidates)))
