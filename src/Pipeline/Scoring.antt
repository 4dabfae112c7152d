-- ===== src/Pipeline/Scoring.antt =====
-- src/scoring/scoring_engine.py: `ScoringEngine`.
pub mod Rows
pub mod Candidates
use chainmonitor.Prelude.{
  ℕ, ◌+◌, ◌-◌, ◌/◌, min, max, String, false, Option, none, some, List, [], ◌∷◌, ◌++◌, str_eq, ltb,
  if◌then◌else◌, set,
}
use chainmonitor.Prelude.Int.{ℤ, sub_ℕ}
use chainmonitor.Float.{Float}
use chainmonitor.Signed.{Signed, max_float, min_float}
use chainmonitor.Dict
use chainmonitor.Dict.{Dict}
use chainmonitor.Pipeline.Schemas.{MarketTickInput, FeatureRowInput, ScoreRowInput}

pub record TierSettings (F : Type 0) : Type 0 where
  pub tier_a_threshold : F
  pub tier_b_threshold : F
  pub tier_c_threshold : F

-- What `score` comes to: rows, a `ValueError`, or the `KeyError` of a token without a feature.
pub data Scored (A : Type 0) : Type 0 where
  rows_of : A → Scored A
  value_error key_error : Scored A

-- `reasons or ["insufficient_signal"]`
unfoldable pub or_insufficient : List String → List String
or_insufficient [] = "insufficient_signal" ∷ []
or_insufficient (r ∷ rs) = r ∷ rs

-- `strategy_version or self.strategy_version`; `none` and "" are false.
unfoldable pub resolved : Option String → String → String
resolved none own = own
resolved (some given) own = if str_eq given "" then own else given

module _ (float : Float) (signed : Signed float) where
  open float use {F, lt, le, add, mul, div, lit, of_int}
  open signed use {sub, of_ℤ, round}

  unfoldable pub alpha_of : MarketTickInput F → F
  alpha_of tick = min_float float signed (lit 1000 1) (
      add (add (of_int 35) (div tick.volume_5m (of_int 2000)))
        (div tick.liquidity_usd (of_int 50_000)))

  unfoldable pub momentum_of : MarketTickInput F → F
  momentum_of tick =
      min_float float signed (lit 1000 1)
        (add (of_int 20) (mul (of_ℤ (sub_ℕ tick.buys_1m tick.sells_1m)) (lit 15 1)))

  unfoldable pub smart_money_of : FeatureRowInput F → F
  smart_money_of feature =
      min_float float signed (lit 1000 1)
        (add (of_int 15) (mul (of_int feature.large_buy_count_30m) (lit 22 1)))

  unfoldable pub narrative_of : MarketTickInput F → F
  narrative_of tick =
      min_float float signed (lit 1000 1)
        (add (of_int 10) (mul (of_int tick.tx_count_1m) (lit 8 1)))

  unfoldable pub risk_penalty_of : FeatureRowInput F → F
  risk_penalty_of feature =
      add
        (add
          (add
            (add (mul feature.contract_risk_score (of_int 20))
              (mul feature.lp_concentration (of_int 12)))
            (mul feature.holder_concentration_top10 (of_int 12)))
          (mul feature.wash_trade_score (of_int 8)))
        (of_int (if feature.honeypot_flag then 40 else 0))

  unfoldable pub final_score_of : MarketTickInput F → FeatureRowInput F → F
  unfolding alpha_of momentum_of smart_money_of narrative_of risk_penalty_of
  final_score_of tick feature =
      sub
        (add
          (add (add (mul (lit 55 2) (alpha_of tick)) (mul (lit 20 2) (momentum_of tick)))
            (mul (lit 15 2) (smart_money_of feature)))
          (mul (lit 10 2) (narrative_of tick)))
        (risk_penalty_of feature)

  unfoldable pub confidence_of : FeatureRowInput F → F
  confidence_of feature =
      max_float float signed (lit 50 2) (
        min_float float signed (lit 98 2) (sub (lit 85 2) (mul feature.wash_trade_score (lit 2 1))))

  unfoldable pub conviction_of : MarketTickInput F → FeatureRowInput F → F
  unfolding final_score_of confidence_of
  conviction_of tick feature = max_float float signed (lit 0 1) (
      min_float float signed (lit 1000 1)
        (mul (final_score_of tick feature) (confidence_of feature)))

  unfoldable pub tier : TierSettings F → F → String
  tier settings conviction =
      if le settings.tier_a_threshold conviction
      then "A"
      else if le settings.tier_b_threshold conviction
      then "B"
      else if le settings.tier_c_threshold conviction
      then "C"
      else "C"

  unfoldable pub reason_codes_of : MarketTickInput F → FeatureRowInput F → F → List String
  unfolding or_insufficient
  reason_codes_of tick feature conviction = or_insufficient (
      (if le (of_int 250_000) tick.liquidity_usd then "liquidity_ok" ∷ [] else [])
      ++ (if lt (of_int 0) feature.netflow_usd_30m then "positive_netflow" ∷ [] else [])
      ++ (if ltb tick.sells_1m tick.buys_1m then "buy_pressure" ∷ [] else [])
      ++ (if lt conviction (of_int 55) then "low_conviction" ∷ [] else []))

  unfoldable pub score_of :
      TierSettings F → String → MarketTickInput F → FeatureRowInput F → ScoreRowInput F
  unfolding conviction_of tier reason_codes_of
  score_of settings strategy_version tick feature = record {
    strategy_version = strategy_version;
    chain_id = tick.chain_id;
    token_id = tick.token_id;
    ts_minute = tick.ts_minute;
    alpha_score = round (alpha_of tick) 6;
    momentum_score = round (momentum_of tick) 6;
    smart_money_score = round (smart_money_of feature) 6;
    narrative_score = round (narrative_of tick) 6;
    risk_penalty = round (risk_penalty_of feature) 6;
    final_score = round (final_score_of tick feature) 6;
    conviction = round (conviction_of tick feature) 6;
    confidence = round (confidence_of feature) 6;
    tier = tier settings (conviction_of tick feature);
    reason_codes = reason_codes_of tick feature (conviction_of tick feature);
  }

  -- `{f.token_id: f for f in features}`
  unfoldable pub by_token :
      List (FeatureRowInput F) → Dict (FeatureRowInput F) → Dict (FeatureRowInput F)
  by_token [] d = d
  by_token (f ∷ fs) d = by_token fs (Dict.put d f.token_id f)

  unfoldable pub score_rows :
      TierSettings F
      → String
      → Dict (FeatureRowInput F)
      → List (MarketTickInput F)
      → Scored (List (ScoreRowInput F))
  unfolding score_of
  score_rows settings strategy_version features [] = rows_of []
  score_rows settings strategy_version features (tick ∷ ticks) =
      elim (Dict.get features tick.token_id) [
        | none ↦ key_error
        | some feature ↦ elim (score_rows settings strategy_version features ticks) [
          | rows_of rows ↦ rows_of (score_of settings strategy_version tick feature ∷ rows)
          | value_error ↦ value_error
          | key_error ↦ key_error
        ]
      ]

  unfoldable pub score :
      TierSettings F
      → String
      → List (MarketTickInput F)
      → List (FeatureRowInput F)
      → Option String
      → Scored (List (ScoreRowInput F))
  unfolding by_token score_rows resolved
  score settings own ticks features given =
      if str_eq (resolved given own) ""
      then value_error
      else score_rows settings (resolved given own) (by_token features []) ticks
