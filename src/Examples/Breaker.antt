-- ===== src/Examples/Breaker.antt =====
-- A circuit breaker and its registry at concrete inputs.
use chainmonitor.Prelude.{◌-◌, ◌≤◌, ◌<◌, String, ◌≡◌, refl, ◌⊎◌, true, false, [], ◌∷◌, arith}
use chainmonitor.Resilience.CircuitBreaker.{
  AsyncCircuitBreaker, closed, open_, half_open, init, requests, succeeds, fails, allow_request,
  record_success, record_failure, remaining_open_seconds, run,
}
use chainmonitor.Resilience.CircuitBreaker.Invariant.{IsValid, run-init-IsValid}
use chainmonitor.Resilience.CircuitBreaker.HalfOpen.{admitted, admitted-open}
use chainmonitor.Resilience.CircuitBreaker.Recovery.{failures_open, open_gate, probe_outcome}
use chainmonitor.Resilience.CircuitBreaker.Registry.{CircuitBreakerRegistry}

-- It opens at two failures, and stays open for two seconds.
abbrev opened : AsyncCircuitBreaker
opened = record {
  failure_threshold = 2;
  recovery_seconds = 2_000_000_000;
  half_open_max_calls = 2;
  state = open_;
  failure_count = 0;
  opened_at = 10;
  half_open_calls = 0;
}

abbrev probing : AsyncCircuitBreaker
probing = record opened { state = half_open; half_open_calls = 2 }

abbrev fresh : AsyncCircuitBreaker
fresh = record opened { state = closed; opened_at = 0 }

opened-IsValid : IsValid opened
opened-IsValid = record {
  threshold_pos = omega arith;
  probes_pos = omega arith;
  failures_below = omega arith;
  probes_within = omega arith;
  probes_only_half_open = λ _. refl;
}

run-init-IsValid_example :
    IsValid (run (fails 1 ∷ fails 2 ∷ requests 9 ∷ succeeds 10 ∷ []) (init 2 1 0))
run-init-IsValid_example =
    run-init-IsValid 2 1 0 (fails 1 ∷ fails 2 ∷ requests 9 ∷ succeeds 10 ∷ [])

admitted-open_example : admitted (3_000_000_000 ∷ 3_000_000_001 ∷ 3_000_000_002 ∷ []) opened ≡ 2
admitted-open_example =
    admitted-open (3_000_000_001 ∷ 3_000_000_002 ∷ []) 3_000_000_000 opened opened-IsValid refl
      (omega arith)

failures_open_example : run (fails 3 ∷ fails 10 ∷ []) fresh ≡ opened
failures_open_example = failures_open (3 ∷ []) 10 fresh refl refl

open_gate_example :
    ((50 - 10 < 2_000_000_000)
      × (allow_request 50 opened ≡ (false, opened))
      × (0 < remaining_open_seconds 50 opened))
    ⊎ ((2_000_000_000 ≤ 50 - 10)
        × (allow_request 50 opened
            ≡ (true, record opened { state = half_open; half_open_calls = 1 }))
        × (remaining_open_seconds 50 opened ≡ 0))
open_gate_example = open_gate 50 opened opened-IsValid refl

probe_outcome_example :
    (record_success probing ≡ record fresh { opened_at = 10 })
    × ((record_failure 20 probing).state ≡ open_)
    × ((allow_request 30 (record_failure 20 probing)).0 ≡ false)
probe_outcome_example = probe_outcome 20 30 probing refl (omega arith)

abbrev as_is : String → String
as_is s = s

abbrev one_open : CircuitBreakerRegistry
one_open = record { objects = opened ∷ []; breakers = ("a", 0) ∷ [] }
