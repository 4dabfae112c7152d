-- ===== src/Ingestion/Sources/Fallback.antt =====
-- src/ingestion/fallback/fallback_source_chain.py: `FallbackSourceChain`.
--
-- A source is what its `fetch_market_ticks` comes to at a time; a fetch calls it once at most.
-- `text` is `str` of a number, `identify` is `_token_id`, `chain_symbols` is `_symbols()`.
pub mod Choice
use chainmonitor.Prelude.{
  ℕ, ◌+◌, ◌-◌, ◌/◌, String, sym, ap, Bool, true, false, not, Option, none, some, List, [], ◌∷◌,
  ◌++◌, ◌==◌, if◌then◌else◌, set, append,
}
use chainmonitor.Dict
use chainmonitor.Dict.{Dict}
use chainmonitor.Pipeline.Schemas.{MarketTickInput}
use chainmonitor.Ingestion.Sources.{
  IngestionFetchError, Fetched, returned, fetch_failed, raised, is_in,
}

abbrev pub Source : Type 0 → Type 0
Source F = ℕ → Fetched (List (MarketTickInput F))

pub record FallbackSourceChain (F : Type 0) : Type 0 where
  pub chain_id : String
  pub sources : List (Source F)

-- `none` is a `ValueError`.
unfoldable pub construct :
    {F : Type 0} → List String → String → List (Source F) → Option (FallbackSourceChain F)
unfolding is_in
construct supported_chains chain_id sources =
    if not (is_in chain_id supported_chains) then none else elim sources [
      | [] ↦ none
      | s ∷ ss ↦ some (record { chain_id = chain_id; sources = s ∷ ss })
    ]

-- `separator.join(texts)`
unfoldable pub join : String → List String → String
join separator [] = ""
join separator (t ∷ []) = t
join separator (t ∷ u ∷ ts) = append t (append separator (join separator (u ∷ ts)))

-- The variables of the loop.
pub record Collected (F : Type 0) : Type 0 where
  pub by_token : Dict (MarketTickInput F)
  pub source_errors : List String
  pub trace_id : String

abbrev pub failure : String → String → String → String → IngestionFetchError
failure reason detail chain_id trace_id = record {
  reason = reason;
  detail = detail;
  chain_id = chain_id;
  trace_id = trace_id;
}

module _ {F : Type 0} where
  -- `for row in source_rows: by_token.setdefault(row.token_id, row)`
  unfoldable pub set_defaults :
      List (MarketTickInput F) → Dict (MarketTickInput F) → Dict (MarketTickInput F)
  set_defaults [] d = d
  set_defaults (row ∷ rows) d = elim (Dict.get d row.token_id) [
    | none ↦ set_defaults rows (Dict.put d row.token_id row)
    | some r ↦ set_defaults rows d
  ]

module _ {F : Type 0} (text : ℕ → String) where
  -- What a source's answer adds; `more` is the rest of the loop.
  unfoldable pub take_rows :
      ℕ
      → Collected F
      → (Collected F → Fetched (Collected F))
      → Fetched (List (MarketTickInput F))
      → Fetched (Collected F)
  unfolding set_defaults
  take_rows index c more (returned rows) =
      more (record c { by_token = set_defaults rows c.by_token })
  take_rows index c more (fetch_failed e) = more (record c {
    source_errors =
        c.source_errors ++ append "s" (append (text (index + 1)) (append ":" e.reason)) ∷ [];
    trace_id = e.trace_id;
  })
  take_rows index c more raised = raised

module _ {F : Type 0} (identify : String → String) where
  -- `[symbol for symbol in symbols if self._token_id(symbol) not in by_token]`
  unfoldable pub missing : List String → Dict (MarketTickInput F) → List String
  missing [] d = []
  missing (s ∷ ss) d =
      let rest = missing ss d in
      elim (Dict.get d (identify s)) [ none ↦ s ∷ rest | some row ↦ rest ]

  -- `[by_token[self._token_id(symbol)] for symbol in symbols]`; a `KeyError` where one is not there.
  unfoldable pub rows_of :
      List String → Dict (MarketTickInput F) → Fetched (List (MarketTickInput F))
  rows_of [] d = returned []
  rows_of (s ∷ ss) d = elim (Dict.get d (identify s)) [
    | none ↦ raised
    | some row ↦ elim (rows_of ss d) [
      | returned rows ↦ returned (row ∷ rows)
      | fetch_failed e ↦ fetch_failed e
      | raised ↦ raised
    ]
  ]

  -- `source_errors and len(by_token) == 0`
  abbrev pub all_failed : List String → Dict (MarketTickInput F) → Bool
  all_failed [] d = false
  all_failed (e ∷ es) [] = true
  all_failed (e ∷ es) (_ ∷ _) = false

  unfoldable pub conclude :
      String → List String → Fetched (Collected F) → Fetched (List (MarketTickInput F))
  unfolding missing rows_of join
  conclude chain_id chain_symbols (returned c) = elim (missing chain_symbols c.by_token) [
    | [] ↦ rows_of chain_symbols c.by_token
    | s ∷ ss ↦ fetch_failed (
        if all_failed c.source_errors c.by_token
        then failure "all_sources_failed" (join ";" c.source_errors) chain_id c.trace_id
        else failure "incomplete_fallback" (append "missing=" (join "," (s ∷ ss))) chain_id
            c.trace_id)
  ]
  conclude chain_id chain_symbols (fetch_failed e) = fetch_failed e
  conclude chain_id chain_symbols raised = raised

module _ {F : Type 0} (text : ℕ → String) (identify : String → String) where
  unfoldable pub ask_sources :
      ℕ → List String → ℕ → List (Source F) → Collected F → Fetched (Collected F)
  unfolding missing take_rows
  ask_sources target_ts chain_symbols index [] c = returned c
  ask_sources target_ts chain_symbols index (s ∷ ss) c =
      elim (missing identify chain_symbols c.by_token) [
        | [] ↦ returned c
        | _ ∷ _ ↦
            take_rows text index c (ask_sources target_ts chain_symbols (index + 1) ss)
              (s target_ts)
      ]

  unfoldable pub fetch_market_ticks :
      FallbackSourceChain F → List String → ℕ → Fetched (List (MarketTickInput F))
  unfolding ask_sources conclude
  fetch_market_ticks chain chain_symbols target_ts =
      conclude identify chain.chain_id chain_symbols (
        ask_sources target_ts chain_symbols 0 chain.sources
          (record { by_token = []; source_errors = []; trace_id = "fallback-missing" }))
