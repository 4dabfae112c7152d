-- ===== src/Backtest/Attribution/Groups.antt =====
-- No trade is lost or counted twice.
use chainmonitor.Prelude.{
  ℕ, suc, ◌+◌, String, ◌≡◌, refl, List, [], ◌∷◌, map, arith, length, length-append, sum,
}
use chainmonitor.Float.{Float}
use chainmonitor.Signed.{Signed}
use chainmonitor.Dict
use chainmonitor.Dict.{Dict, get_or}
use chainmonitor.Backtest.Schemas.{BacktestTradeResult, AttributionBucket}
use chainmonitor.Backtest.Attribution.{
  append_to, group, bucket_of, insert_bucket, sort_buckets, aggregate, regime_key, build,
}

module _ {A : Type 0} where
  -- The items of all groups.
  unfoldable size : Dict (List A) → ℕ
  size [] = 0
  size ((k, items) ∷ groups) = length items + size groups

  size-append_to :
      (groups : Dict (List A)) (key : String) (item : A)
      → size (append_to groups key item) ≡ suc (size groups)
  unfolding size append_to Dict.put Dict.get
  size-append_to [] key item = omega arith
  size-append_to ((k, items) ∷ groups) key item =
      ground (arith, length-append items (item ∷ []), size-append_to groups key item)

  size-group :
      (f : A → String) (items : List A) (groups : Dict (List A))
      → size (group (map f items) items groups) ≡ size groups + length items
  unfolding group
  size-group f [] groups = omega arith
  size-group f (item ∷ items) groups = omega (
    arith,
    size-group f items (append_to groups (f item) item),
    size-append_to groups (f item) item,
  )

module _ (float : Float) (signed : Signed float) where
  open float use {F, lt}

  abbrev pub trades_of : List (AttributionBucket F) → ℕ
  trades_of buckets = sum (map (λ b. b.trade_count) buckets)

  trades_of-insert_bucket :
      (b : AttributionBucket F) (bs : List (AttributionBucket F))
      → trades_of (insert_bucket float signed b bs) ≡ b.trade_count + trades_of bs
  unfolding insert_bucket
  trades_of-insert_bucket b [] = refl
  trades_of-insert_bucket b (c ∷ cs) = ground (arith, trades_of-insert_bucket b cs)

  trades_of-sort_buckets :
      (bs : List (AttributionBucket F)) → trades_of (sort_buckets float signed bs) ≡ trades_of bs
  unfolding sort_buckets
  trades_of-sort_buckets [] = refl
  trades_of-sort_buckets (b ∷ bs) =
      omega
        (arith, trades_of-insert_bucket b (sort_buckets float signed bs), trades_of-sort_buckets bs)

  trades_of-groups :
      (groups : Dict (List (BacktestTradeResult F)))
      → trades_of (map (bucket_of float signed) groups) ≡ size groups
  unfolding bucket_of size
  trades_of-groups [] = refl
  trades_of-groups ((k, items) ∷ groups) = omega (arith, trades_of-groups groups)

  trades_of-aggregate :
      (f : BacktestTradeResult F → String) (trades : List (BacktestTradeResult F))
      → trades_of (aggregate float signed (map f trades) trades) ≡ length trades
  unfolding aggregate size
  trades_of-aggregate f trades = omega (
    arith,
    trades_of-sort_buckets (map (bucket_of float signed) (group (map f trades) trades [])),
    trades_of-groups (group (map f trades) trades []),
    size-group f trades [],
  )

  -- In each of the three tables of an attribution, by token, by hour and by regime, the trades of
  -- the buckets add up to all trades.
  pub build-counts :
      (hour_of : ℕ → String) (trades : List (BacktestTradeResult F))
      → let report = build float signed hour_of trades in
        (trades_of report.by_token ≡ length trades)
        × (trades_of report.by_hour ≡ length trades)
        × (trades_of report.by_regime ≡ length trades)
  unfolding build
  build-counts hour_of trades = (
    trades_of-aggregate (λ t. t.token_id) trades,
    trades_of-aggregate (λ t. hour_of t.ts_minute) trades,
    trades_of-aggregate (λ t. regime_key float signed t.conviction) trades,
  )
