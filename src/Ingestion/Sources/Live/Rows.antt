-- ===== src/Ingestion/Sources/Live/Rows.antt =====
-- Which pairs become rows.
use chainmonitor.Prelude.{
  ℕ, ◌≤◌, String, ◌≡◌, refl, inl, inr, Bool, true, false, not, some, List, [], ◌∷◌, arith,
  Option-cases, length, if_holds, option_holds,
}
use mathlib.Core.Path.{subst}
use chainmonitor.Prelude.Int.{ℤ, pos, ltb_ℤ}
use chainmonitor.Float.{Float}
use chainmonitor.Signed.{Signed}
use chainmonitor.Dict
use chainmonitor.Dict.{Dict}
use chainmonitor.Pipeline.Schemas.{MarketTickInput}
use chainmonitor.Ingestion.Sources.{Fetched, returned, fetch_failed, raised}
use chainmonitor.Ingestion.Sources.Live.{
  NormalizedPair, QualitySettings, ProviderAdapter, is_acceptable, to_row, to_rows, collect_pairs,
  some_rows, fetch_market_ticks,
}

module _ (float : Float) (signed : Signed float) where
  open float use {F, lt, le, div, lit, of_int}
  open signed use {sub, of_ℤ}

  -- A pair that is young by no measure, priced, and with a volume that its liquidity can carry.
  pub record IsTradable (settings : QualitySettings F) (now : F) (pair : NormalizedPair F)
      : Type 0 where
    created :
        (ms : ℤ) × (pair.pair_created_at_ms ≡ some ms)
        × (lt (sub now (div (of_ℤ ms) (lit 1000 0))) (of_int settings.min_pair_age_seconds) ≡ false)
    priced : le pair.price_usd (of_int 0) ≡ false
    volume : lt pair.volume_5m (of_int 0) ≡ false
    liquidity : lt pair.liquidity_usd (of_int 0) ≡ false
    buys : ltb_ℤ pair.buys_5m (pos 0) ≡ false
    sells : ltb_ℤ pair.sells_5m (pos 0) ≡ false
    carried :
        lt (of_int 0) pair.liquidity_usd ≡ true
        → lt settings.max_volume_liquidity_ratio (div pair.volume_5m pair.liquidity_usd) ≡ false

  module _ (lower strip : String → String) (contains : String → String → Bool) where
    is_acceptable-IsTradable :
        (settings : QualitySettings F) (now : F) (pair : NormalizedPair F)
        → is_acceptable float signed lower strip contains settings now pair ≡ true
        → IsTradable settings now pair
    unfolding is_acceptable
    is_acceptable-IsTradable settings now pair h = elim (Option-cases pair.pair_created_at_ms) [
      | inl unknown ↦ absurd (ground (arith, unknown, h))
      | inr (ms, known) ↦ record {
        created = (ms, known, ground (arith, known, h));
        priced = ground (arith, known, h);
        volume = ground (arith, known, h);
        liquidity = ground (arith, known, h);
        buys = ground (arith, known, h);
        sells = ground (arith, known, h);
        carried = λ some_liquidity. ground (arith, known, h, some_liquidity);
      }
    ]

  module _ (settings : QualitySettings F) (now : F) (identify : String → String) (chain_id : String)
      (ts : ℕ) where
    -- The rows of some of the symbols, in their order: one for each that is picked, from the pair
    -- that the provider gave for it, which is tradable.
    pub data Picked (pairs : Dict (NormalizedPair F))
        : List String → List (MarketTickInput F) → Type 0 where
      done : Picked pairs [] []
      skips :
          {symbol : String} {symbols : List String} {rows : List (MarketTickInput F)}
          → Picked pairs symbols rows
          → Picked pairs (symbol ∷ symbols) rows
      picks :
          {symbol : String} {symbols : List String} {rows : List (MarketTickInput F)}
          → (pair : NormalizedPair F) → Dict.get pairs symbol ≡ some pair
          → IsTradable settings now pair
          → Picked pairs symbols rows
          → Picked pairs
              (symbol ∷ symbols)
              (to_row float signed chain_id (identify symbol) ts pair ∷ rows)

    module _ (lower strip : String → String) (contains : String → String → Bool) where
      abbrev accept : NormalizedPair F → Bool
      accept = is_acceptable float signed lower strip contains settings now

      to_rows-Picked :
          (symbols : List String) (pairs : Dict (NormalizedPair F))
          → Picked pairs symbols (to_rows float signed accept identify chain_id symbols pairs ts)
      unfolding to_rows
      to_rows-Picked [] pairs = done
      to_rows-Picked (symbol ∷ symbols) pairs =
          let rest = to_rows-Picked symbols pairs in
          option_holds (Picked pairs (symbol ∷ symbols)) (Dict.get pairs symbol) (λ _. skips rest)
            (λ pair found.
              if_holds (Picked pairs (symbol ∷ symbols)) (not (accept pair)) (λ _. skips rest)
                (λ ok.
                  picks pair found
                    (is_acceptable-IsTradable lower strip contains settings now pair
                      (ground (arith, ok)))
                    rest))

      some_rows-eq :
          (trace_id : String) (rows out : List (MarketTickInput F))
          → some_rows chain_id trace_id rows ≡ returned out
          → (rows ≡ out) × (1 ≤ length out)
      unfolding some_rows
      some_rows-eq trace_id [] out e = absurd (ground (arith, e))
      some_rows-eq trace_id (row ∷ rows) out e =
          let same : row ∷ rows ≡ out = ground (arith, e) in
          (same, subst (λ (x : List (MarketTickInput F)). 1 ≤ length x) same (omega arith))

      listed :
          (trace_id : String) (symbols : List String) (rows : List (MarketTickInput F))
          (collected : Fetched (Dict (NormalizedPair F)))
          → (elim collected [
            | returned pairs ↦
                some_rows chain_id trace_id
                  (to_rows float signed accept identify chain_id symbols pairs ts)
            | fetch_failed e ↦ fetch_failed e
            | raised ↦ raised
          ])
            ≡ returned rows
          → (pairs : Dict (NormalizedPair F)) × (collected ≡ returned pairs)
            × Picked pairs symbols rows
            × (1 ≤ length rows)
      listed trace_id symbols rows (returned pairs) e =
          let (same, some_row) = some_rows-eq trace_id _ rows e in
          (pairs, refl, subst (Picked pairs symbols) same (to_rows-Picked symbols pairs), some_row)
      listed trace_id symbols rows (fetch_failed f) e = absurd (ground (arith, e))
      listed trace_id symbols rows raised e = absurd (ground (arith, e))

      -- What the source returns under the default quality policy: one row at least, and at most one
      -- for each place in the list of symbols, in their order. Each row is made from the pair that
      -- was collected for its symbol. That pair's age is known and not below the least one, its
      -- price is not zero or below, its volume, liquidity and counts are not below zero, and where
      -- there is liquidity the ratio of volume to it is not above the limit, as floats compare.
      pub fetch-Picked :
          (adapter : ProviderAdapter F) (trace_id : String) (addresses : Dict String)
          (symbols : List String) (rows : List (MarketTickInput F))
          → fetch_market_ticks float signed adapter accept identify chain_id trace_id addresses
              symbols ts
            ≡ returned rows
          → (pairs : Dict (NormalizedPair F)) × (collect_pairs adapter addresses symbols
              ≡ returned pairs)
            × Picked pairs symbols rows
            × (1 ≤ length rows)
      unfolding fetch_market_ticks
      fetch-Picked adapter trace_id addresses symbols rows e =
          listed trace_id symbols rows (collect_pairs adapter addresses symbols) e
