-- ===== src/Backtest/Optimizer/Holding.antt =====
-- What the parameter search learns of the holding time.
use chainmonitor.Prelude.{
  ℕ, suc, ◌-◌, max, String, ◌≡◌, refl, sym, ap, ◌∙◌, Bool, List, [], ◌∷◌, map, length,
}
use chainmonitor.Float.{Float}
use chainmonitor.Signed.{Signed}
use chainmonitor.Pipeline.Scoring.{rows_of}
use chainmonitor.Backtest.Schemas.{BacktestConfig, SearchCandidate}
use chainmonitor.Backtest.Engine.{BacktestEngine, run}
use chainmonitor.Backtest.Engine.Unread.{run-hold_minutes}
use chainmonitor.Backtest.Validator.Gate.{and_then-rows, rows_of-eq}
use chainmonitor.Backtest.Optimizer.{
  trial_configs, candidate_of, candidates_of, flat_map, thresholds, stop_losses, take_profits,
  hold_times,
}

-- Each element twice in a row.
unfoldable pub doubled {ℓ} : {A : Type ℓ} → List A → List A
doubled [] = []
doubled (x ∷ xs) = x ∷ x ∷ doubled xs

-- What a candidate is ranked by.
pub record Figures (F : Type 0) : Type 0 where
  pub pf : F
  pub expectancy : F
  pub net_pnl_usd : F
  pub passed : Bool

abbrev pub figures : {F : Type 0} → SearchCandidate F → Figures F
figures c = record {
  pf = c.pf;
  expectancy = c.expectancy;
  net_pnl_usd = c.net_pnl_usd;
  passed = c.passed;
}

module _ (float : Float) (signed : Signed float) where
  open float use {F}

  -- Each config with the one and with the other holding time.
  each_held : ℕ → ℕ → List (BacktestConfig F) → List (BacktestConfig F)
  each_held a b [] = []
  each_held a b (c ∷ cs) =
      record c { hold_minutes = a } ∷ record c { hold_minutes = b } ∷ each_held a b cs

  -- The trials without their holding times.
  bases : BacktestConfig F → List (BacktestConfig F)
  bases config =
      flat_map
        (λ threshold.
          flat_map
            (λ stop_loss.
              map
                (λ take_profit. record config {
                  conviction_threshold = threshold;
                  stop_loss_pct = stop_loss;
                  take_profit_pct = take_profit;
                })
                (take_profits float signed config))
            (stop_losses float signed config))
        (thresholds float signed config)

  trial_configs-bases :
      (config : BacktestConfig F)
      → trial_configs float signed config
        ≡ each_held (max 3 (config.hold_minutes - 2)) config.hold_minutes (bases config)
  unfolding trial_configs flat_map thresholds stop_losses take_profits hold_times each_held bases
  trial_configs-bases config = refl

  length-bases : (config : BacktestConfig F) → length (bases config) ≡ 12
  unfolding flat_map thresholds stop_losses take_profits bases
  length-bases config = refl

  module _ (digest : String → ℕ) (isoformat : ℕ → String) (lower : String → String)
      (engine : BacktestEngine F) where
    held :
        (a b : ℕ) (configs : List (BacktestConfig F)) (cs : List (SearchCandidate F))
        → candidates_of float signed
            (run float signed digest isoformat lower engine)
            (each_held a b configs)
          ≡ rows_of cs
        → (fs : List (Figures F)) × (length fs ≡ length configs) × (map figures cs ≡ doubled fs)
    unfolding candidates_of candidate_of each_held doubled
    held a b [] cs e = ([], refl, ap (map figures) (sym (rows_of-eq [] cs e)))
    held a b (c ∷ configs) cs e =
        let r = run float signed digest isoformat lower engine in
        let (x, ran, e1) = and_then-rows (r (record c { hold_minutes = a })) _ cs e in
        let (xs, first, e2) =
          and_then-rows
            (candidates_of float signed r (record c { hold_minutes = b } ∷ each_held a b configs)) _
            cs e1 in
        let (y, again, e3) = and_then-rows (r (record c { hold_minutes = b })) _ xs first in
        let (rest, more, e4) =
          and_then-rows (candidates_of float signed r (each_held a b configs)) _ xs e3 in
        let (fs, count, twice) = held a b configs rest more in
        let same : x ≡ y = rows_of-eq x y (
          sym ran
          ∙ run-hold_minutes float signed digest isoformat lower engine a c
          ∙ sym (run-hold_minutes float signed digest isoformat lower engine b c)
          ∙ again) in
        let f = figures (candidate_of float signed c y.1) in
        (
          f ∷ fs,
          ap suc count,
          ap (map figures) (sym (rows_of-eq _ cs e2))
              ∙ ap (λ p. figures (candidate_of float signed c p.1) ∷ map figures xs) same
              ∙ ap (λ zs. f ∷ map figures zs) (sym (rows_of-eq _ xs e4))
              ∙ ap (λ zs. f ∷ f ∷ zs) twice,
        )

    -- When the engine's run of each trial returns, the 24 candidates of a parameter search have 12
    -- different sets of figures at most, each twice in a row: the two holding times that are tried
    -- with the same other parameters make no difference to what the candidates are ranked by.
    pub trials-doubled :
        (config : BacktestConfig F) (cs : List (SearchCandidate F))
        → candidates_of float signed
            (run float signed digest isoformat lower engine)
            (trial_configs float signed config)
          ≡ rows_of cs
        → (fs : List (Figures F)) × (length fs ≡ 12) × (map figures cs ≡ doubled fs)
    trials-doubled config cs e =
        let trials = trial_configs-bases config in
        let (fs, count, twice) = held _ _ (bases config) cs (
          ap (candidates_of float signed (run float signed digest isoformat lower engine))
            (sym trials)
          ∙ e) in
        (fs, count ∙ length-bases config, twice)
