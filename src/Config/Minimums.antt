-- ===== src/Config/Minimums.antt =====
-- No configuration gets a limit below its minimum.
use chainmonitor.Prelude.{
  String, ◌≡◌, true, Option, none, some, arith, str_eq, if_holds, option_holds,
}
use chainmonitor.Prelude.Int.{ℤ, pos, max_ℤ, ◌≤ℤ◌}
use chainmonitor.Float.{Float}
use chainmonitor.Signed.{Signed, IsOrdered, max_float, max-le}
use chainmonitor.Config.{
  Texts, Limit, IngestionSettings, get_pair, parse_provider_chain_override, chain_override,
  at_least, provider_override, limit_of, get_retry_attempts, get_max_concurrency,
  get_rate_limit_capacity, get_circuit_failure_threshold, get_rate_limit_per_second,
  get_circuit_recovery_seconds, get_max_volume_liquidity_ratio,
}

-- A value that is there has the property.
IfSome : {A : Type 0} → (A → Type 0) → Option A → Type 0
IfSome P none = Unit
IfSome P (some a) = P a

or_default :
    {A : Type 0} (P : A → Type 0) (o : Option A) (a : A)
    → IfSome P o
    → P a
    → P (elim o [ some value ↦ value | none ↦ a ])
unfolding IfSome
or_default P none a p q = q
or_default P (some value) a p q = p

module _ {F : Type 0} (texts : Texts F) {A : Type 0} (P : A → Type 0) (max_of : A → A → A)
    (number : String → Option A) (minimum : A) (above : (x : A) → P (max_of minimum x)) where
  chain_above :
      (chain_id overrides : String) (default : A)
      → P (chain_override texts max_of number chain_id overrides default minimum)
  unfolding chain_override
  chain_above chain_id overrides default =
      option_holds P _ (λ _. above default) (λ value _. above value)

  at_least_above : (o : Option A) → IfSome P (at_least texts max_of minimum o)
  unfolding IfSome
  at_least_above none = tt
  at_least_above (some x) = above x

  provider_above :
      (chain_id provider by_provider_chain by_provider : String)
      → IfSome P (
          provider_override texts max_of number chain_id provider by_provider_chain by_provider
            minimum)
  unfolding provider_override
  provider_above chain_id provider by_provider_chain by_provider =
      if_holds (IfSome P) (str_eq (texts.lower (texts.strip provider)) "")
        (λ _. unfold IfSome in tt)
        (λ _.
          option_holds (IfSome P)
            (get_pair (parse_provider_chain_override texts by_provider_chain)
              (texts.lower (texts.strip provider)) chain_id)
            (λ _. at_least_above _) (λ raw _. at_least_above (number raw)))

  limit_above :
      (limit : Limit A) (chain_id provider : String)
      → P (limit_of texts max_of number limit minimum chain_id provider)
  unfolding limit_of
  limit_above limit chain_id provider =
      or_default P _ _ (provider_above chain_id provider limit.by_provider_chain limit.by_provider)
        (chain_above chain_id limit.by_chain limit.default)

max_ge : (m x : ℤ) → m ≤ℤ max_ℤ m x
max_ge m x = ground arith

module _ (float : Float) (signed : Signed float) (texts : Texts float.F) where
  open float use {F, le, lit}

  -- Whatever the settings and the texts of their overrides are, malformed ones included, each chain
  -- and provider has at least one retry attempt, one task, one token of capacity and one failure of
  -- threshold, and a rate, a recovery time and a volume ratio that are not below 0.01, 0.5 and 0.1.
  pub limits_above :
      IsOrdered float signed
      → (s : IngestionSettings F) (chain_id provider : String)
      → (pos 1 ≤ℤ get_retry_attempts texts s chain_id)
        × (pos 1 ≤ℤ get_max_concurrency texts s chain_id)
        × (pos 1 ≤ℤ get_rate_limit_capacity texts s chain_id provider)
        × (pos 1 ≤ℤ get_circuit_failure_threshold texts s chain_id)
        × (le (lit 1 2) (get_rate_limit_per_second float signed texts s chain_id provider) ≡ true)
        × (le (lit 5 1) (get_circuit_recovery_seconds float signed texts s chain_id) ≡ true)
        × (le (lit 1 1) (get_max_volume_liquidity_ratio float signed texts s chain_id) ≡ true)
  unfolding get_retry_attempts get_max_concurrency get_rate_limit_capacity
      get_circuit_failure_threshold get_rate_limit_per_second get_circuit_recovery_seconds
      get_max_volume_liquidity_ratio
  limits_above o s chain_id provider = (
    chain_above texts (λ (x : ℤ). pos 1 ≤ℤ x) max_ℤ texts.int_of (pos 1) (max_ge (pos 1)) chain_id
        s.retry_attempts.by_chain s.retry_attempts.default,
    chain_above texts (λ (x : ℤ). pos 1 ≤ℤ x) max_ℤ texts.int_of (pos 1) (max_ge (pos 1)) chain_id
        s.max_concurrency.by_chain s.max_concurrency.default,
    limit_above texts (λ (x : ℤ). pos 1 ≤ℤ x) max_ℤ texts.int_of (pos 1) (max_ge (pos 1))
        s.rate_limit_capacity chain_id provider,
    chain_above texts (λ (x : ℤ). pos 1 ≤ℤ x) max_ℤ texts.int_of (pos 1) (max_ge (pos 1)) chain_id
        s.circuit_failure_threshold.by_chain s.circuit_failure_threshold.default,
    limit_above texts (λ x. le (lit 1 2) x ≡ true) (max_float float signed) texts.float_of (lit 1 2)
        (max-le float signed o 1 2) s.rate_limit_per_second chain_id provider,
    chain_above texts (λ x. le (lit 5 1) x ≡ true) (max_float float signed) texts.float_of (lit 5 1)
        (max-le float signed o 5 1) chain_id s.circuit_recovery_seconds.by_chain
        s.circuit_recovery_seconds.default,
    chain_above texts (λ x. le (lit 1 1) x ≡ true) (max_float float signed) texts.float_of (lit 1 1)
        (max-le float signed o 1 1) chain_id s.max_volume_liquidity_ratio.by_chain
        s.max_volume_liquidity_ratio.default,
  )
