-- ===== src/Examples/Configuration.antt =====
-- The limits at a concrete configuration, in thousandths.
use chainmonitor.Prelude.{◌≡◌, refl, true, ◌&&◌, none, some, [], ◌∷◌, str_eq, if◌then◌else◌}
use chainmonitor.Prelude.Int.{ℤ, pos, ◌≤ℤ◌, leb_ℤ}
use chainmonitor.Dict
use chainmonitor.Signed.{signed_float, signed_thousandths, signed_float-IsOrdered}
use chainmonitor.Ingestion.Sources.{stripped}
use chainmonitor.Config.{
  Texts, Limit, IngestionSettings, get_retry_attempts, get_max_concurrency, get_rate_limit_capacity,
  get_circuit_failure_threshold, get_rate_limit_per_second, get_circuit_recovery_seconds,
  get_max_volume_liquidity_ratio, put_item,
}
use chainmonitor.Config.Minimums.{limits_above}

-- Texts of one item, "bsc=4", with nothing to strip.
abbrev texts : Texts ℤ
texts = record {
  split = λ s. s ∷ [];
  strip = λ s. s;
  lower = λ s. s;
  halves = λ c s. if str_eq c "=" && str_eq s "bsc=4" then some ("bsc", "4") else none;
  int_of = λ s. if str_eq s "4" then some (pos 4) else none;
  float_of = λ s. none;
}

abbrev no_limit : {A : Type 0} → A → Limit A
no_limit default = record {
  default = default;
  by_chain = "";
  by_provider = "";
  by_provider_chain = "";
}

abbrev settings : IngestionSettings ℤ
settings = record {
  retry_attempts = record {
    default = pos 0;
    by_chain = "bsc=4";
    by_provider = "";
    by_provider_chain = "";
  };
  max_concurrency = no_limit (pos 8);
  rate_limit_per_second = no_limit (pos 0);
  rate_limit_capacity = no_limit (pos 0);
  circuit_failure_threshold = no_limit (pos 5);
  circuit_recovery_seconds = no_limit (pos 30_000);
  min_success_ratio = no_limit (pos 600);
  min_pair_age_seconds = no_limit (pos 300);
  max_volume_liquidity_ratio = no_limit (pos 20_000);
}

limits_above_example :
    (pos 1 ≤ℤ get_retry_attempts texts settings "bsc")
    × (pos 1 ≤ℤ get_max_concurrency texts settings "bsc")
    × (pos 1 ≤ℤ get_rate_limit_capacity texts settings "bsc" "dexscreener")
    × (pos 1 ≤ℤ get_circuit_failure_threshold texts settings "bsc")
    × (leb_ℤ (pos 10) (
          get_rate_limit_per_second signed_float signed_thousandths texts settings "bsc"
            "dexscreener")
        ≡ true)
    × (leb_ℤ
          (pos 500)
          (get_circuit_recovery_seconds signed_float signed_thousandths texts settings "bsc")
        ≡ true)
    × (leb_ℤ
          (pos 100)
          (get_max_volume_liquidity_ratio signed_float signed_thousandths texts settings "bsc")
        ≡ true)
limits_above_example =
    limits_above signed_float signed_thousandths texts signed_float-IsOrdered settings "bsc"
      "dexscreener"

-- The override is read.
attempts_run : get_retry_attempts texts settings "bsc" ≡ pos 4
unfolding get_retry_attempts stripped put_item Dict.get Dict.put
attempts_run = refl
