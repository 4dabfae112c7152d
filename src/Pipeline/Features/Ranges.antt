-- ===== src/Pipeline/Features/Ranges.antt =====
-- The ranges of the features.
use chainmonitor.Prelude.{suc, ◌≡◌, refl, ap, true, List, [], ◌∷◌, arith, length, All}
use chainmonitor.Float.{Float}
use chainmonitor.Signed.{Signed, IsOrdered, IsBetween, clamp_down-IsBetween, round_min-le}
use chainmonitor.Pipeline.Schemas.{MarketTickInput, FeatureRowInput}
use chainmonitor.Pipeline.Features.{churn, risk, wash_trade, feature_of, build_features}

module _ (float : Float) (signed : Signed float) where
  open float use {F, le, lit}

  abbrev pub IsNormal : FeatureRowInput F → Type 0
  IsNormal row =
      IsBetween float signed (lit 1 2) (lit 95 2) row.holder_churn_24h
      × (le row.contract_risk_score (lit 10 1) ≡ true)
      × (le row.lp_concentration (lit 10 1) ≡ true)
      × (le row.holder_concentration_top10 (lit 10 1) ≡ true)
      × (le row.wash_trade_score (lit 10 1) ≡ true)

  -- Whatever the ticks are, there is a feature row for each, and in each the holder churn is from
  -- 0.01 to 0.95, and the four risk features are at most 1.
  pub build_features-IsNormal :
      IsOrdered float signed
      → (ticks : List (MarketTickInput F))
      → All IsNormal (build_features float signed ticks)
        × (length (build_features float signed ticks) ≡ length ticks)
  unfolding build_features feature_of churn risk wash_trade
  build_features-IsNormal o [] = (tt, refl)
  build_features-IsNormal o (tick ∷ ticks) =
      let (rest, count) = build_features-IsNormal o ticks in
      (
        (
          (
            clamp_down-IsBetween float signed o 1 95 2 6 _ (omega arith) (omega arith),
            round_min-le float signed o 10 1 6 _ (omega arith),
            round_min-le float signed o 10 1 6 _ (omega arith),
            round_min-le float signed o 10 1 6 _ (omega arith),
            round_min-le float signed o 10 1 6 _ (omega arith),
          ),
          rest,
        ),
        ap suc count,
      )
