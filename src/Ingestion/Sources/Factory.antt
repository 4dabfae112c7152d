-- ===== src/Ingestion/Sources/Factory.antt =====
-- src/ingestion/factory/source_strategy_factory.py: `SourceStrategyFactory`, and
-- `enabled_ingestion_strategies` of src/shared/config/chain.py.
--
-- `registry` is the table of strategy classes, each with its constructor, which may raise for a
-- chain. The getters that `validate_settings` calls do not raise.
use chainmonitor.Prelude.{
  suc, ◌≤◌, String, ◌≡◌, sym, ap, ◌∙◌, inl, inr, Bool, true, false, not, ◌&&◌, ◌||◌, Option, none,
  some, List, [], ◌∷◌, arith, str_eq, if◌then◌else◌, Bool-cases, Option-cases, length,
}
use chainmonitor.Float.{Float}
use chainmonitor.Ingestion.Sources.{is_in, stripped}
use chainmonitor.Ingestion.Sources.Fallback.{Source, FallbackSourceChain, construct}

-- `dict.fromkeys(names)`, after the names that were seen.
unfoldable pub dedupe : List String → List String → List String
dedupe seen [] = []
dedupe seen (name ∷ names) =
    if is_in name seen then dedupe seen names else name ∷ dedupe (name ∷ seen) names

unfoldable pub enabled_ingestion_strategies :
    (String → List String) → (String → String) → (String → String) → String → List String
unfolding dedupe
enabled_ingestion_strategies split strip lower ingestion_strategy_order =
    let raw = lower (strip ingestion_strategy_order) in
    if str_eq raw "" then [] else dedupe [] (stripped strip (λ s. s) (split raw))

infixl 55 ◌>>=◌
abbrev ◌>>=◌ : {A B : Type 0} → Option A → (A → Option B) → Option B
none >>= f = none
some a >>= f = f a

module _ {F : Type 0} (registry : String → Option (String → Option (Source F))) where
  unfoldable pub all_supported : List String → Bool
  all_supported [] = true
  all_supported (name ∷ names) = elim (registry name) [
    | none ↦ false
    | some strategy ↦ all_supported names
  ]

  -- The sources of the names; `none` where a name has no class or a constructor raises.
  unfoldable pub sources_of : String → List String → Option (List (Source F))
  sources_of chain_id [] = some []
  sources_of chain_id (name ∷ names) = do
    strategy ← registry name
    source ← strategy chain_id
    rest ← sources_of chain_id names
    some (source ∷ rest)

module _ (float : Float) where
  open float use {F, le, lit}

  -- `none` is a `ValueError`.
  unfoldable pub create :
      (String → Option (String → Option (Source F)))
      → List String
      → List String
      → F
      → String
      → Option (FallbackSourceChain F)
  unfolding all_supported sources_of construct
  create registry supported_chains strategy_names min_success_ratio chain_id = elim strategy_names [
    | [] ↦ none
    | name ∷ names ↦
        if not (all_supported registry (name ∷ names))
          || not (le (lit 0 1) min_success_ratio && le min_success_ratio (lit 10 1))
        then none
        else do
          sources ← sources_of registry chain_id (name ∷ names)
          construct supported_chains chain_id sources
  ]

module _ {F : Type 0} (registry : String → Option (String → Option (Source F))) where
  length-sources_of :
      (chain_id : String) (names : List String) (sources : List (Source F))
      → sources_of registry chain_id names ≡ some sources
      → length sources ≡ length names
  unfolding sources_of
  length-sources_of chain_id [] sources e = ground (arith, e)
  length-sources_of chain_id (name ∷ names) sources e = elim (Option-cases (registry name)) [
    | inl unknown ↦ absurd (ground (arith, unknown, e))
    | inr (strategy, known) ↦ elim (Option-cases (strategy chain_id)) [
      | inl raises ↦ absurd (ground (arith, known, raises, e))
      | inr (source, made) ↦ elim (Option-cases (sources_of registry chain_id names)) [
        | inl failed ↦ absurd (ground (arith, known, made, failed, e))
        | inr (rest, built) ↦
            let same : source ∷ rest ≡ sources = ground (arith, known, made, built, e) in
            ap length (sym same) ∙ ap suc (length-sources_of chain_id names rest built)
      ]
    ]
  ]

  construct-made :
      (supported : List String) (chain_id : String) (sources : List (Source F))
      (chain : FallbackSourceChain F)
      → construct supported chain_id sources ≡ some chain
      → (is_in chain_id supported ≡ true)
        × (chain.chain_id ≡ chain_id)
        × (length chain.sources ≡ length sources)
  unfolding construct
  construct-made supported chain_id [] chain e = absurd (ground (arith, e))
  construct-made supported chain_id (s ∷ ss) chain e =
      elim (Bool-cases (is_in chain_id supported)) [
        | inl known ↦
            let same : record { chain_id = chain_id; sources = s ∷ ss } ≡ chain =
              ground (arith, known, e) in
            (
              known,
              ap (λ (c : FallbackSourceChain F). c.chain_id) (sym same),
              ap (λ (c : FallbackSourceChain F). length c.sources) (sym same),
            )
        | inr unknown ↦ absurd (ground (arith, unknown, e))
      ]

-- A chain that is created is of a supported chain id and has one source for each enabled strategy,
-- of which there is one at least.
create-sources :
    (float : Float) (registry : String → Option (String → Option (Source float.F)))
    (supported names : List String) (ratio : float.F) (chain_id : String)
    (chain : FallbackSourceChain float.F)
    → create float registry supported names ratio chain_id ≡ some chain
    → (is_in chain_id supported ≡ true)
      × (chain.chain_id ≡ chain_id)
      × (length chain.sources ≡ length names)
      × (1 ≤ length names)
unfolding create
create-sources float registry supported [] ratio chain_id chain e = absurd (ground (arith, e))
create-sources float registry supported (name ∷ names) ratio chain_id chain e =
    elim (Bool-cases (
      not (all_supported registry (name ∷ names))
      || not (float.le (float.lit 0 1) ratio && float.le ratio (float.lit 10 1)))) [
        | inl refused ↦ absurd (ground (arith, refused, e))
        | inr accepted ↦ elim (Option-cases (sources_of registry chain_id (name ∷ names))) [
          | inl failed ↦ absurd (ground (arith, accepted, failed, e))
          | inr (sources, built) ↦
              let (known, of_chain, count) =
                construct-made registry supported chain_id sources chain
                  (ground (arith, accepted, built, e)) in
              (
                known,
                of_chain,
                count ∙ length-sources_of registry chain_id (name ∷ names) sources built,
                omega arith,
              )
        ]
      ]
