-- ===== src/Examples/Sources.antt =====
-- The sources of market ticks at concrete answers, in thousandths.
use chainmonitor.Prelude.{
  ℕ, ◌≤◌, String, ◌≡◌, refl, Bool, some, List, [], ◌∷◌, arith, str_eq, if◌then◌else◌, length,
}
use chainmonitor.Prelude.Int.{ℤ, pos, ◌-ℤ◌}
use chainmonitor.Dict
use chainmonitor.Dict.{Dict}
use chainmonitor.Signed.{signed_float, signed_thousandths}
use chainmonitor.Pipeline.Schemas.{MarketTickInput}
use chainmonitor.Ingestion.Sources.{returned, fetch_failed, raised, token_id}
use chainmonitor.Ingestion.Sources.Fallback.{Source, FallbackSourceChain, failure}
use chainmonitor.Ingestion.Sources.Fallback as Fallback
use chainmonitor.Ingestion.Sources.Fallback.Choice.{
  AllAnswer, none_left, answers, all_some, first_row, value, fetch-first_row,
}
use chainmonitor.Ingestion.Sources.Live as Live
use chainmonitor.Ingestion.Sources.Live.{
  is_acceptable, NormalizedPair, QualitySettings, Looked, pair_of, no_pair, ProviderAdapter,
  is_acceptable, collect_pairs,
}
use chainmonitor.Ingestion.Sources.Live.Rows.{Picked, fetch-Picked}

abbrev same : String → String
same s = s

abbrev tick : String → MarketTickInput ℤ
tick token = record {
  chain_id = "bsc";
  token_id = token;
  ts_minute = 0;
  price_usd = pos 1000;
  volume_1m = pos 0;
  volume_5m = pos 1000;
  liquidity_usd = pos 9000;
  buys_1m = 2;
  sells_1m = 1;
  tx_count_1m = 3;
}

-- The first source fails, the second has a row for A, the third for both.
abbrev fails : Source ℤ
fails ts = fetch_failed (failure "no_valid_rows" "" "bsc" "t1")

abbrev has_a : Source ℤ
has_a ts = returned (tick "bsc_A" ∷ [])

abbrev has_both : Source ℤ
has_both ts = returned (tick "bsc_B" ∷ tick "bsc_A" ∷ [])

abbrev chain : FallbackSourceChain ℤ
chain = record { chain_id = "bsc"; sources = fails ∷ has_a ∷ has_both ∷ [] }

abbrev text : ℕ → String
text n = "n"

all_answer : AllAnswer 0 chain.sources
all_answer =
    answers (λ e. ground (arith, e))
      (answers (λ e. ground (arith, e)) (answers (λ e. ground (arith, e)) none_left))

fetch-first_row_example :
    (value (Fallback.fetch_market_ticks text (token_id same "bsc") chain ("A" ∷ "B" ∷ []) 0)
      ≡ all_some (λ s. first_row 0 (token_id same "bsc" s) chain.sources) ("A" ∷ "B" ∷ []))
    × (Fallback.fetch_market_ticks text (token_id same "bsc") chain ("A" ∷ "B" ∷ []) 0 ≡ raised → ⊥)
fetch-first_row_example =
    fetch-first_row text (token_id same "bsc") chain ("A" ∷ "B" ∷ []) 0 all_answer

fetch_run :
    Fallback.fetch_market_ticks text (token_id same "bsc") chain ("A" ∷ "B" ∷ []) 0
    ≡ returned (tick "bsc_A" ∷ tick "bsc_B" ∷ [])
unfolding Fallback.fetch_market_ticks Dict.get token_id Dict.put
fetch_run = refl

abbrev pair : NormalizedPair ℤ
pair = record {
  price_usd = pos 1000;
  volume_5m = pos 5000;
  liquidity_usd = pos 9000;
  buys_5m = pos 10;
  sells_5m = pos 5;
  pair_created_at_ms = some (pos 0);
  dex_id = "dex";
  pair_address = "0x";
  url = "u";
}

abbrev quality : QualitySettings ℤ
quality = record {
  dex_blacklist_ids_set = "bad" ∷ [];
  route_blacklist_keywords_tuple = [];
  min_pair_age_seconds = 10;
  max_volume_liquidity_ratio = pos 1000;
}

abbrev adapter : ProviderAdapter ℤ
adapter = record {
  fetch_pairs_by_addresses = λ addresses. returned [];
  fetch_pair_by_symbol = λ symbol. if str_eq symbol "A" then pair_of pair else no_pair;
}

abbrev contains : String → String → Bool
contains a b = str_eq a b

abbrev live_rows : List (MarketTickInput ℤ)
live_rows = Live.to_row signed_float signed_thousandths "bsc" "A" 0 pair ∷ []

fetch-Picked_example :
    (pairs : Dict (NormalizedPair ℤ)) × (collect_pairs adapter [] ("A" ∷ "B" ∷ []) ≡ returned pairs)
    × Picked signed_float signed_thousandths quality
        (pos 20_000)
        same
        "bsc"
        0
        pairs
        ("A" ∷ "B" ∷ [])
        live_rows
    × (1 ≤ length live_rows)
unfolding Live.fetch_market_ticks Dict.get Dict.put is_acceptable ◌-ℤ◌
fetch-Picked_example =
    fetch-Picked signed_float signed_thousandths quality (pos 20_000) same "bsc" 0 same same
      contains adapter "t" [] ("A" ∷ "B" ∷ []) live_rows refl
