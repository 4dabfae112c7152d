-- ===== src/Examples/Signals.antt =====
-- The feature and scoring engines at concrete ticks, in thousandths.
use chainmonitor.Prelude.{◌≡◌, refl, true, none, List, [], ◌∷◌, map, length, All}
use chainmonitor.Prelude.Int.{ℤ, pos, ltb_ℤ, ◌+ℤ◌, ◌-ℤ◌}
use chainmonitor.Dict
use chainmonitor.Signed.{signed_float, signed_thousandths, signed_float-IsOrdered}
use chainmonitor.Pipeline.Schemas.{MarketTickInput, FeatureRowInput, ScoreRowInput}
use chainmonitor.Pipeline.Features.{feature_of, build_features}
use chainmonitor.Pipeline.Scoring.{resolved, TierSettings, rows_of, score_of, score}
use chainmonitor.Pipeline.Tables.{ranking, candidate_rows}
use chainmonitor.Pipeline.Scoring.Rows.{IsScaled, score-IsScaled, score-build_features}
use chainmonitor.Pipeline.Scoring.Candidates.{Tiered, ranked, score-candidates}

abbrev tick : MarketTickInput ℤ
tick = record {
  chain_id = "bsc";
  token_id = "bsc_a";
  ts_minute = 0;
  price_usd = pos 1000;
  volume_1m = pos 0;
  volume_5m = pos 1000;
  liquidity_usd = pos 9000;
  buys_1m = 2;
  sells_1m = 1;
  tx_count_1m = 3;
}

abbrev ticks : List (MarketTickInput ℤ)
ticks = tick ∷ []

abbrev tiers : TierSettings ℤ
tiers = record {
  tier_a_threshold = pos 85_000;
  tier_b_threshold = pos 70_000;
  tier_c_threshold = pos 55_000;
}

abbrev features : List (FeatureRowInput ℤ)
features = build_features signed_float signed_thousandths ticks

abbrev rows : List (ScoreRowInput ℤ)
rows =
    score_of signed_float signed_thousandths tiers "v1" tick
      (feature_of signed_float signed_thousandths tick)
    ∷ []

score-build_features_example :
    (out : List (ScoreRowInput ℤ)) × (score signed_float signed_thousandths tiers "v1" ticks
        features none
      ≡ rows_of out)
    × (map (λ row. row.token_id) out ≡ "bsc_a" ∷ [])
unfolding resolved
score-build_features_example =
    score-build_features signed_float signed_thousandths tiers "v1" ticks none refl

scored : score signed_float signed_thousandths tiers "v1" ticks features none ≡ rows_of rows
unfolding score build_features Dict.get Dict.put feature_of
scored = refl

score-IsScaled_example : All (IsScaled signed_float signed_thousandths) rows
score-IsScaled_example =
    score-IsScaled signed_float signed_thousandths signed_float-IsOrdered tiers "v1" ticks features
      none rows scored

score-candidates_example :
    let order = ranking signed_float rows in
    All (Tiered signed_float signed_thousandths tiers) order
    × (candidate_rows signed_float 1 order ≡ ranked signed_float signed_thousandths 1 order)
    × (length (candidate_rows signed_float 1 order) ≡ 1)
score-candidates_example =
    score-candidates signed_float signed_thousandths tiers "v1" ticks features none rows scored

-- The conviction is below the threshold of tier C.
low :
    ltb_ℤ
      (score_of signed_float signed_thousandths tiers "v1" tick
        (feature_of signed_float signed_thousandths tick)).conviction
      (pos 55_000)
    ≡ true
unfolding score_of feature_of ◌+ℤ◌ ◌-ℤ◌
low = refl
