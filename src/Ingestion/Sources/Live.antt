-- ===== src/Ingestion/Sources/Live.antt =====
-- src/ingestion/strategies/base_live_source_strategy.py, contracts/pair_quality_policy.py and
-- contracts/normalized_pair.py: `BaseLiveSourceStrategy` with its quality policy.
--
-- `lower` and `strip` are the methods of strings, `contains` is `keyword in text`, `now` is `time()`.
-- What the provider's adapter answers is an argument, and so are the chain's settings.
pub mod Rows
use chainmonitor.Prelude.{
  ℕ, ◌+◌, ◌-◌, ◌/◌, min, max, String, sym, ap, Bool, false, not, ◌&&◌, ◌||◌, Option, none, some,
  List, [], ◌∷◌, str_eq, ltb, if◌then◌else◌, set, append,
}
use chainmonitor.Prelude.Int.{ℤ, pos, pos_part, max_ℤ, ltb_ℤ, ◌+ℤ◌}
use chainmonitor.Float.{Float}
use chainmonitor.Signed.{Signed, max_float}
use chainmonitor.Dict
use chainmonitor.Dict.{Dict}
use chainmonitor.Pipeline.Schemas.{MarketTickInput}
use chainmonitor.Ingestion.Sources.{
  IngestionFetchError, Fetched, returned, fetch_failed, raised, is_in,
}

pub record NormalizedPair (F : Type 0) : Type 0 where
  pub price_usd : F
  pub volume_5m : F
  pub liquidity_usd : F
  pub buys_5m : ℤ
  pub sells_5m : ℤ
  pub pair_created_at_ms : Option ℤ
  pub dex_id : String
  pub pair_address : String
  pub url : String

-- The settings of the policy, for the chain.
pub record QualitySettings (F : Type 0) : Type 0 where
  pub dex_blacklist_ids_set : List String
  pub route_blacklist_keywords_tuple : List String
  pub min_pair_age_seconds : ℕ
  pub max_volume_liquidity_ratio : F

-- What `fetch_pair_by_symbol` comes to; `errs` is an exception, which `gather` returns.
pub data Looked (F : Type 0) : Type 0 where
  pair_of : NormalizedPair F → Looked F
  no_pair errs : Looked F

pub record ProviderAdapter (F : Type 0) : Type 0 where
  pub fetch_pairs_by_addresses : Dict String → Fetched (Dict (NormalizedPair F))
  pub fetch_pair_by_symbol : String → Looked F

-- `any(keyword in text for keyword in keywords)`
unfoldable pub has_keyword : (String → String → Bool) → List String → String → Bool
has_keyword contains [] text = false
has_keyword contains (k ∷ ks) text = contains k text || has_keyword contains ks text

module _ (float : Float) (signed : Signed float) where
  open float use {F, lt, le, div, lit, of_int}
  open signed use {sub, of_ℤ, to_ℤ}

  module _ (lower strip : String → String) (contains : String → String → Bool) where
    unfoldable pub is_acceptable : QualitySettings F → F → NormalizedPair F → Bool
    unfolding has_keyword is_in
    is_acceptable settings now pair =
        let dex_id = lower (strip pair.dex_id) in
        let route_signal = append (lower pair.pair_address) (append "|" (lower pair.url)) in
        if not (str_eq dex_id "") && is_in dex_id settings.dex_blacklist_ids_set
        then false
        else if has_keyword contains settings.route_blacklist_keywords_tuple route_signal
        then false
        else elim pair.pair_created_at_ms [
          | none ↦ false
          | some created ↦
              if lt (sub now (div (of_ℤ created) (lit 1000 0)))
                (of_int settings.min_pair_age_seconds)
              then false
              else if le pair.price_usd (of_int 0)
              then false
              else if lt pair.volume_5m (of_int 0)
                  || (lt pair.liquidity_usd (of_int 0)
                      || (ltb_ℤ pair.buys_5m (pos 0) || ltb_ℤ pair.sells_5m (pos 0)))
              then false
              else not (
                  lt (of_int 0) pair.liquidity_usd
                  && lt settings.max_volume_liquidity_ratio (div pair.volume_5m pair.liquidity_usd))
        ]

  -- `max(0, int(n / 5))`
  abbrev pub fifth : ℤ → ℕ
  fifth n = pos_part (to_ℤ (div (of_ℤ n) (of_int 5)))

  unfoldable pub to_row : String → String → ℕ → NormalizedPair F → MarketTickInput F
  to_row chain_id token_id ts_minute pair = record {
    chain_id = chain_id;
    token_id = token_id;
    ts_minute = ts_minute;
    price_usd = pair.price_usd;
    volume_1m = max_float float signed (lit 0 1) (div pair.volume_5m (lit 50 1));
    volume_5m = max_float float signed (lit 0 1) pair.volume_5m;
    liquidity_usd = max_float float signed (lit 0 1) pair.liquidity_usd;
    buys_1m = fifth pair.buys_5m;
    sells_1m = fifth pair.sells_5m;
    tx_count_1m = fifth (pair.buys_5m +ℤ pair.sells_5m);
  }

  -- `identify` is `_token_id`, `accept` is the policy.
  unfoldable pub to_rows :
      (NormalizedPair F → Bool)
      → (String → String)
      → String
      → List String
      → Dict (NormalizedPair F)
      → ℕ
      → List (MarketTickInput F)
  unfolding to_row
  to_rows accept identify chain_id [] pairs ts_minute = []
  to_rows accept identify chain_id (s ∷ ss) pairs ts_minute =
      let rest = to_rows accept identify chain_id ss pairs ts_minute in
      elim (Dict.get pairs s) [
        | none ↦ rest
        | some pair ↦
            if not (accept pair) then rest else to_row chain_id (identify s) ts_minute pair ∷ rest
      ]

-- `[symbol for symbol in symbols if symbol not in pairs_by_symbol]`
unfoldable pub remaining : {F : Type 0} → List String → Dict (NormalizedPair F) → List String
remaining [] pairs = []
remaining (s ∷ ss) pairs =
    let rest = remaining ss pairs in elim (Dict.get pairs s) [ none ↦ s ∷ rest | some pair ↦ rest ]

-- `for symbol, result in zip(remaining, results)`
unfoldable pub add_results :
    {F : Type 0}
    → (String → Looked F)
    → List String
    → Dict (NormalizedPair F)
    → Dict (NormalizedPair F)
add_results look_up [] pairs = pairs
add_results look_up (s ∷ ss) pairs = elim (look_up s) [
  | pair_of pair ↦ add_results look_up ss (Dict.put pairs s pair)
  | no_pair ↦ add_results look_up ss pairs
  | errs ↦ add_results look_up ss pairs
]

unfoldable pub by_addresses :
    {F : Type 0} → ProviderAdapter F → Dict String → Fetched (Dict (NormalizedPair F))
by_addresses adapter [] = returned []
by_addresses adapter (a ∷ addresses) = adapter.fetch_pairs_by_addresses (a ∷ addresses)

unfoldable pub collect_pairs :
    {F : Type 0} → ProviderAdapter F → Dict String → List String → Fetched (Dict (NormalizedPair F))
unfolding by_addresses remaining add_results
collect_pairs adapter addresses symbols = elim (by_addresses adapter addresses) [
  | returned pairs ↦
      returned (add_results adapter.fetch_pair_by_symbol (remaining symbols pairs) pairs)
  | fetch_failed e ↦ fetch_failed e
  | raised ↦ raised
]

abbrev pub no_valid_rows : String → String → IngestionFetchError
no_valid_rows chain_id trace_id = record {
  reason = "no_valid_rows";
  detail = "all pairs filtered by quality gates";
  chain_id = chain_id;
  trace_id = trace_id;
}

unfoldable pub some_rows :
    {F : Type 0} → String → String → List (MarketTickInput F) → Fetched (List (MarketTickInput F))
some_rows chain_id trace_id [] = fetch_failed (no_valid_rows chain_id trace_id)
some_rows chain_id trace_id (row ∷ rows) = returned (row ∷ rows)

module _ (float : Float) (signed : Signed float) where
  open float use {F}

  unfoldable pub fetch_market_ticks :
      ProviderAdapter F
      → (NormalizedPair F → Bool)
      → (String → String)
      → String
      → String
      → Dict String
      → List String
      → ℕ
      → Fetched (List (MarketTickInput F))
  unfolding collect_pairs some_rows to_rows
  fetch_market_ticks adapter accept identify chain_id trace_id addresses symbols target_ts =
      elim (collect_pairs adapter addresses symbols) [
        | returned pairs ↦
            some_rows chain_id trace_id
              (to_rows float signed accept identify chain_id symbols pairs target_ts)
        | fetch_failed e ↦ fetch_failed e
        | raised ↦ raised
      ]
