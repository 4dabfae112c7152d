-- ===== src/Backtest/Optimizer/Search.antt =====
-- What the parameter search finds.
use chainmonitor.Prelude.{◌≡◌, Bool, true, false, ◌&&◌, ◌||◌, List, [], ◌∷◌}
use chainmonitor.Float.{Float}
use chainmonitor.Signed.{Signed}
use chainmonitor.Pipeline.Scoring.{Scored, rows_of}
use chainmonitor.Backtest.Schemas.{BacktestConfig, BacktestMetrics, SearchCandidate}

module _ (float : Float) (signed : Signed float) where
  open float use {F, lt, lit, of_int}

  -- Whether a candidate of the list passed, and whether the first one did.
  unfoldable pub any_passed : List (SearchCandidate F) → Bool
  any_passed [] = false
  any_passed (c ∷ cs) = c.passed || any_passed cs

  unfoldable pub first_passed : List (SearchCandidate F) → Bool
  first_passed [] = false
  first_passed (c ∷ cs) = c.passed

  module _ {T : Type 0} (run : BacktestConfig F → Scored (T × BacktestMetrics F)) where
    -- An independent description: whether the run of a config meets the threshold of the gate.
    abbrev pub Meets : BacktestConfig F → Type 0
    Meets config =
        (out : T × BacktestMetrics F) × (run config ≡ rows_of out)
        × (lt (lit 12 1) out.1.pf && lt (of_int 0) out.1.expectancy ≡ true)
