-- ===== src/Backtest/Attribution.antt =====
-- src/backtest/attribution.py: `BacktestAttribution`. `hour_of` is the key "%H:00" of a time.
pub mod Groups
use chainmonitor.Prelude.{
  ℕ, ◌+◌, ◌-◌, ◌/◌, ◌%◌, min, String, ap, List, [], ◌∷◌, ◌++◌, map, if◌then◌else◌, length, sum,
  append,
}
use chainmonitor.Float.{Float}
use chainmonitor.Signed.{Signed, sum_float}
use chainmonitor.Dict
use chainmonitor.Dict.{Dict, get_or}
use chainmonitor.Backtest.Schemas.{BacktestTradeResult, AttributionBucket}
use chainmonitor.Backtest.Metrics.{filter}

module _ {A : Type 0} where
  -- `groups[key].append(item)` of a `defaultdict(list)`
  unfoldable pub append_to : Dict (List A) → String → A → Dict (List A)
  append_to groups key item = Dict.put groups key (get_or groups key [] ++ item ∷ [])

  -- `for key, item in zip(keys, items)`
  unfoldable pub group : List String → List A → Dict (List A) → Dict (List A)
  unfolding append_to
  group [] items groups = groups
  group (key ∷ keys) [] groups = groups
  group (key ∷ keys) (item ∷ items) groups = group keys items (append_to groups key item)

pub record AttributionReport (F : Type 0) : Type 0 where
  pub by_token : List (AttributionBucket F)
  pub by_hour : List (AttributionBucket F)
  pub by_regime : List (AttributionBucket F)

module _ (float : Float) (signed : Signed float) where
  open float use {F, lt, le, div, lit, of_int}
  open signed use {round}

  unfoldable pub rate_of : ℕ → List (BacktestTradeResult F) → F
  rate_of wins [] = lit 0 1
  rate_of wins (t ∷ ts) = round (div (of_int wins) (of_int (length (t ∷ ts)))) 8

  unfoldable pub bucket_of : String × List (BacktestTradeResult F) → AttributionBucket F
  unfolding rate_of
  bucket_of (key, items) =
      let wins = length (filter (λ item. lt (of_int 0) item.net_pnl_usd) items) in
      record {
        key = key;
        trade_count = length items;
        net_pnl_usd = round (sum_float float signed (map (λ item. item.net_pnl_usd) items)) 8;
        win_rate = rate_of wins items;
      }

  -- `rows.sort(key=..., reverse=True)`: stable, and rows without NaN.
  unfoldable pub insert_bucket :
      AttributionBucket F → List (AttributionBucket F) → List (AttributionBucket F)
  insert_bucket b [] = b ∷ []
  insert_bucket b (c ∷ cs) =
      let rest = insert_bucket b cs in
      if lt b.net_pnl_usd c.net_pnl_usd then c ∷ rest else b ∷ c ∷ cs

  unfoldable pub sort_buckets : List (AttributionBucket F) → List (AttributionBucket F)
  unfolding insert_bucket
  sort_buckets [] = []
  sort_buckets (b ∷ bs) = insert_bucket b (sort_buckets bs)

  unfoldable pub aggregate : List String → List (BacktestTradeResult F) → List (AttributionBucket F)
  unfolding group bucket_of sort_buckets
  aggregate keys trades = sort_buckets (map bucket_of (group keys trades []))

  unfoldable pub regime_key : F → String
  regime_key conviction =
      if le (of_int 85) conviction
      then "risk_on"
      else if le (of_int 70) conviction
      then "neutral"
      else "risk_off"

  unfoldable pub build : (ℕ → String) → List (BacktestTradeResult F) → AttributionReport F
  unfolding aggregate regime_key
  build hour_of trades = record {
    by_token = aggregate (map (λ t. t.token_id) trades) trades;
    by_hour = aggregate (map (λ t. hour_of t.ts_minute) trades) trades;
    by_regime = aggregate (map (λ t. regime_key t.conviction) trades) trades;
  }
