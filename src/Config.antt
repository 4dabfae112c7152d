-- ===== src/Config.antt =====
-- src/shared/config/ingestion.py: `IngestionSettings`, the limits by chain and by provider.
--
-- Python's methods of strings, `int` and `float` of a text are arguments; `halves c s` is
-- `s.split(c, 1)` where c is in s, and `none` elsewhere. A text that cannot be read is `none`.
pub mod Minimums
use chainmonitor.Prelude.{
  suc, ◌-◌, ◌/◌, min, max, String, ap, Bool, not, ◌&&◌, Option, none, some, List, [], ◌∷◌, str_eq,
  if◌then◌else◌,
}
use chainmonitor.Prelude.Int.{ℤ, pos, max_ℤ}
use chainmonitor.Float.{Float}
use chainmonitor.Signed.{Signed, max_float, min_float}
use chainmonitor.Dict
use chainmonitor.Dict.{Dict}
use chainmonitor.Ingestion.Sources.{stripped}

pub record Texts (F : Type 0) : Type 0 where
  pub split : String → List String
  pub strip : String → String
  pub lower : String → String
  pub halves : String → String → Option (String × String)
  pub int_of : String → Option ℤ
  pub float_of : String → Option F

-- A limit, with its overrides by chain, by provider, and by provider and chain.
pub record Limit (A : Type 0) : Type 0 where
  pub default : A
  pub by_chain : String
  pub by_provider : String
  pub by_provider_chain : String

pub record IngestionSettings (F : Type 0) : Type 0 where
  pub retry_attempts : Limit ℤ
  pub max_concurrency : Limit ℤ
  pub rate_limit_per_second : Limit F
  pub rate_limit_capacity : Limit ℤ
  pub circuit_failure_threshold : Limit ℤ
  pub circuit_recovery_seconds : Limit F
  pub min_success_ratio : Limit F
  pub min_pair_age_seconds : Limit ℤ
  pub max_volume_liquidity_ratio : Limit F

abbrev pub both : String → String → Bool
both a b = not (str_eq a "") && not (str_eq b "")

-- A dictionary whose keys are pairs.
unfoldable pub get_pair : List ((String × String) × String) → String → String → Option String
get_pair [] provider chain_id = none
get_pair (((p, c), v) ∷ d) provider chain_id =
    if str_eq p provider && str_eq c chain_id then some v else get_pair d provider chain_id

unfoldable pub put_pair :
    List ((String × String) × String) → String → String → String → List ((String × String) × String)
put_pair [] provider chain_id v = ((provider, chain_id), v) ∷ []
put_pair (((p, c), w) ∷ d) provider chain_id v =
    if str_eq p provider && str_eq c chain_id
    then ((p, c), v) ∷ d
    else ((p, c), w) ∷ put_pair d provider chain_id v

module _ {F : Type 0} (texts : Texts F) where
  open texts use {split, strip, lower, halves, int_of, float_of}

  -- `[item.strip() for item in overrides.split(",") if item.strip()]`
  abbrev pub items_of : String → List String
  items_of overrides = stripped strip (λ s. s) (split overrides)

  -- `parsed[key] = value`, when both are there.
  unfoldable pub put_item : Option (String × String) → Dict String → Dict String
  put_item none parsed = parsed
  put_item (some (key, value)) parsed =
      if both (lower (strip key)) (strip value)
      then Dict.put parsed (lower (strip key)) (strip value)
      else parsed

  unfoldable pub parse_items : List String → Dict String → Dict String
  unfolding put_item
  parse_items [] parsed = parsed
  parse_items (item ∷ items) parsed = parse_items items (put_item (halves "=" item) parsed)

  -- `_parse_chain_override` and `_parse_provider_override`
  unfoldable pub parse_override : String → Dict String
  unfolding parse_items
  parse_override overrides = parse_items (items_of overrides) []

  unfoldable pub put_provider_chain :
      Option (String × String)
      → String
      → List ((String × String) × String)
      → List ((String × String) × String)
  put_provider_chain none value parsed = parsed
  put_provider_chain (some (provider, chain_id)) value parsed =
      if both (lower (strip provider)) (lower (strip chain_id)) && not (str_eq value "")
      then put_pair parsed (lower (strip provider)) (lower (strip chain_id)) value
      else parsed

  unfoldable pub parse_provider_chain_items :
      List String → List ((String × String) × String) → List ((String × String) × String)
  unfolding put_provider_chain
  parse_provider_chain_items [] parsed = parsed
  parse_provider_chain_items (item ∷ items) parsed = elim (halves "=" item) [
    | none ↦ parse_provider_chain_items items parsed
    | some (key, value) ↦
        parse_provider_chain_items items
          (put_provider_chain (halves ":" (lower (strip key))) (strip value) parsed)
  ]

  unfoldable pub parse_provider_chain_override : String → List ((String × String) × String)
  unfolding parse_provider_chain_items
  parse_provider_chain_override overrides = parse_provider_chain_items (items_of overrides) []

  -- `parsed.get(key)`, read as a number; `none` where it is not there or cannot be read.
  unfoldable pub read : {A : Type 0} → (String → Option A) → Option String → Option A
  read number none = none
  read number (some raw) = number raw

  -- `_chain_int_override` and `_chain_float_override`, by the `max` of their type.
  unfoldable pub chain_override :
      {A : Type 0} → (A → A → A) → (String → Option A) → String → String → A → A → A
  unfolding parse_override read
  chain_override max_of number chain_id overrides default minimum =
      elim (read number (Dict.get (parse_override overrides) chain_id)) [
        | none ↦ max_of minimum default
        | some value ↦ max_of minimum value
      ]

  abbrev pub at_least : {A : Type 0} → (A → A → A) → A → Option A → Option A
  at_least max_of minimum none = none
  at_least max_of minimum (some value) = some (max_of minimum value)

  -- `_provider_int_override` and `_provider_float_override`; `provider` is `provider or ""`.
  unfoldable pub provider_override :
      {A : Type 0}
      → (A → A → A)
      → (String → Option A)
      → String
      → String
      → String
      → String
      → A
      → Option A
  unfolding parse_override parse_provider_chain_override read
  provider_override max_of number chain_id provider provider_chain_overrides provider_overrides
        minimum =
      let provider_key = lower (strip provider) in
      if str_eq provider_key ""
      then none
      else elim (get_pair (parse_provider_chain_override provider_chain_overrides) provider_key
          chain_id) [
            | some raw ↦ at_least max_of minimum (number raw)
            | none ↦
                at_least max_of minimum
                  (read number (Dict.get (parse_override provider_overrides) provider_key))
          ]

  -- A limit of a chain and a provider: the provider's override, or else the chain's limit.
  unfoldable pub limit_of :
      {A : Type 0} → (A → A → A) → (String → Option A) → Limit A → A → String → String → A
  unfolding chain_override provider_override
  limit_of max_of number limit minimum chain_id provider =
      elim (provider_override max_of number chain_id provider limit.by_provider_chain
        limit.by_provider minimum) [
          | some value ↦ value
          | none ↦ chain_override max_of number chain_id limit.by_chain limit.default minimum
        ]

  abbrev pub int_limit : Limit ℤ → ℤ → String → ℤ
  int_limit limit minimum chain_id =
      chain_override max_ℤ int_of chain_id limit.by_chain limit.default minimum

  unfoldable pub get_retry_attempts : IngestionSettings F → String → ℤ
  unfolding chain_override
  get_retry_attempts s chain_id = int_limit s.retry_attempts (pos 1) chain_id

  unfoldable pub get_max_concurrency : IngestionSettings F → String → ℤ
  unfolding chain_override
  get_max_concurrency s chain_id = int_limit s.max_concurrency (pos 1) chain_id

  unfoldable pub get_rate_limit_capacity : IngestionSettings F → String → String → ℤ
  unfolding limit_of
  get_rate_limit_capacity s chain_id provider =
      limit_of max_ℤ int_of s.rate_limit_capacity (pos 1) chain_id provider

  unfoldable pub get_circuit_failure_threshold : IngestionSettings F → String → ℤ
  unfolding chain_override
  get_circuit_failure_threshold s chain_id = int_limit s.circuit_failure_threshold (pos 1) chain_id

  unfoldable pub get_min_pair_age_seconds : IngestionSettings F → String → ℤ
  unfolding chain_override
  get_min_pair_age_seconds s chain_id = int_limit s.min_pair_age_seconds (pos 0) chain_id

module _ (float : Float) (signed : Signed float) (texts : Texts float.F) where
  open float use {F, lit}

  abbrev pub float_limit : Limit F → F → String → F
  float_limit limit minimum chain_id =
      chain_override texts (max_float float signed) texts.float_of chain_id limit.by_chain
        limit.default minimum

  unfoldable pub get_rate_limit_per_second : IngestionSettings F → String → String → F
  unfolding limit_of
  get_rate_limit_per_second s chain_id provider =
      limit_of texts (max_float float signed) texts.float_of s.rate_limit_per_second (lit 1 2)
        chain_id provider

  unfoldable pub get_circuit_recovery_seconds : IngestionSettings F → String → F
  unfolding chain_override
  get_circuit_recovery_seconds s chain_id =
      float_limit s.circuit_recovery_seconds (lit 5 1) chain_id

  unfoldable pub get_min_success_ratio : IngestionSettings F → String → F
  unfolding chain_override
  get_min_success_ratio s chain_id =
      min_float float signed (lit 10 1) (float_limit s.min_success_ratio (lit 0 1) chain_id)

  unfoldable pub get_max_volume_liquidity_ratio : IngestionSettings F → String → F
  unfolding chain_override
  get_max_volume_liquidity_ratio s chain_id =
      float_limit s.max_volume_liquidity_ratio (lit 1 1) chain_id
